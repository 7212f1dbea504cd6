-- ===== src/Examples/Soaks.antt =====
-- The theorems on the soak worker, at a run that releases, replays, approves, rejects and cancels.
use soundgate_paper.Node.Auth as Auth
use soundgate_paper.Node.Auth.{check_mac, push_bytes}
use soundgate_paper.Client.{hexdigest}
use soundgate_paper.Prelude.{
  hex_digit, ℕ, String, ◌≡◌, refl, true, some, length, List, [], ◌∷◌, contains, lookup, string_eq,
}
use soundgate_paper.Wire.{submit, cancel}
use soundgate_paper.Gate.Phase.{phase, fresh, fenced}
use soundgate_paper.Node.Defs.{start, recover}
use soundgate_paper.Node.Invariant.{IsDurable, start-IsDurable}
use soundgate_paper.Node.Safe.{server, server-IsSafe}
use soundgate_paper.Soak.Shared.{no_stats}
use soundgate_paper.Soak.Worker.{
  Plan, Fault, unreached, unanswered, crashed, others, approve, reject, leave,
}
use soundgate_paper.Soak.Run.{work, worker}
use soundgate_paper.Soak.Run.Safe.{oracle_count, worker_safe}
use soundgate_paper.Soak.Run.Quiet.{gate}
use soundgate_paper.Soak.Run.Strict.{IsPlan, work_strict}
use soundgate_paper.Gate.Defs.{
  Event, submit as gate_submit, decide as gate_decide, cancel as gate_cancel, close_run,
  durable_events, replay,
}
use soundgate_paper.Soak.Segments.{Segment, run_segments, run_segment, goes_on, restarted_stats}
use soundgate_paper.Soak.Whole.{soak-Recovers}
use soundgate_paper.Soak.Final.{finish_soak}
use soundgate_paper.Soak.Census.{wal_census}
use soundgate_paper.Soak.Census.Bounded.{wal_census-recover}
use soundgate_paper.Soak.Worker.{expect_call, call, decision, expect, retries, suffer_all, watch}
use soundgate_paper.Soak.Run.{
  play, approve_key, cancel_run, decide_key, finish, late_approvals, pending, reject_key,
  strict_all, submit_free, submit_gated,
}
use soundgate_paper.Soak.Shared.{released, violation}
use soundgate_paper.Node.Defs.{handle, answer, event_for}
use soundgate_paper.Client.{decision_tag, decision_message}
use soundgate_paper.Prelude.{erase, keep_keys, put, insert, keep}
use soundgate_paper.Examples.Gates.{any_mac}
use soundgate_paper.Examples.Clients.{toy_hmac}

abbrev zero_rng : ℕ → ℕ
zero_rng n = 0

abbrev plan : Plan
plan = record {
  first = "a";
  more = "b" ∷ [];
  replayed = "b";
  gated = ("c", approve) ∷ ("d", reject) ∷ ("e", leave) ∷ [];
  cancels = true;
}

abbrev stormy : List (List Fault)
stormy = (unreached ∷ []) ∷ (unanswered ∷ crashed ∷ []) ∷ (others (cancel "other") ∷ []) ∷ []

abbrev quiet : List (List Fault)
quiet = [] ∷ (others (submit "other" "a" true) ∷ []) ∷ []

worker_safe_example :
    let w =
      worker
        (server any_mac 2)
        toy_hmac
        "s"
        zero_rng
        (("r1", plan, stormy) ∷ ("r2", plan, quiet) ∷ [])
        start
        0
        no_stats in
    IsDurable w.0 × (oracle_count w.2 ≡ oracle_count no_stats)
worker_safe_example =
    worker_safe (server any_mac 2) (server-IsSafe any_mac 2) toy_hmac "s" zero_rng
      (("r1", plan, stormy) ∷ ("r2", plan, quiet) ∷ []) start 0 no_stats start-IsDurable

plan-IsPlan : IsPlan plan
unfolding contains
plan-IsPlan = record {
  free_different = (refl, (refl, tt));
  gated_different = (refl, (refl, (refl, tt)));
  apart = (refl, (refl, (refl, tt)));
  replays_free = refl;
}

work_strict_example :
    let w =
      work
        (gate toy_hmac "s" 2 zero_rng "run")
        toy_hmac
        "s"
        zero_rng
        "run"
        plan
        quiet
        start
        0
        no_stats in
    (w.2.violations ≡ no_stats.violations)
    × (w.2.violation_count ≡ no_stats.violation_count)
    × (w.1 ≡ 0)
    × ((k : String) → phase w.0.gate ("run", k) ≡ fenced)
unfolding phase contains start lookup
work_strict_example =
    work_strict toy_hmac "s" 2 zero_rng "run" plan quiet start 0 no_stats plan-IsPlan
      (tt, ((refl, tt), tt)) start-IsDurable (λ k. refl)

-- A segment that ends with a restart, and one that ends the soak.
abbrev two_segments : List Segment
two_segments =
    record { runs = ("r1", plan, stormy) ∷ []; elapsed = 60; answers = true }
    ∷ record { runs = ("r2", plan, quiet) ∷ []; elapsed = 60; answers = true }
    ∷ []

-- The segments leave the fresh identity alone.
fresh_after :
    phase
      (run_segments
        (server (check_mac toy_hmac (some "s")) 2)
        toy_hmac
        "s"
        zero_rng
        100
        0
        two_segments
        start
        no_stats).0.gate
      ("post-soak-fresh", "k")
    ≡ fresh
unfolding phase contains worker work play expect_call call handle answer gate_submit decision
    check_mac decision_tag Auth.decision_tag push_bytes hex_digit hexdigest decision_message
    gate_decide lookup start gate_cancel close_run durable_events event_for erase keep_keys put
    insert keep approve_key cancel_run decide_key finish late_approvals pending reject_key
    strict_all submit_free submit_gated released violation expect retries suffer_all watch recover
    replay run_segments run_segment goes_on restarted_stats
fresh_after = refl

soak-Recovers_example :
    let w =
      run_segments
        (server (check_mac toy_hmac (some "s")) 2)
        toy_hmac
        "s"
        zero_rng
        100
        0
        two_segments
        start
        no_stats in
    let r = finish_soak (check_mac toy_hmac (some "s")) 2 true w.0 w.1 in
    (r.refused ≡ length w.1.reservoir)
    × (r.fresh_released ≡ true)
    × (r.closed_with_ident ≡ 0)
    × (r.nviol ≡ w.1.violation_count)
soak-Recovers_example = soak-Recovers toy_hmac "s" 2 zero_rng 100 two_segments fresh_after

wal_census-recover_example :
    (wal_census
      (recover (record start { log = Event.released ("r", "k") ∷ Event.closed "r" ∷ [] })).log).1
    ≡ 0
wal_census-recover_example =
    wal_census-recover (record start { log = Event.released ("r", "k") ∷ Event.closed "r" ∷ [] })
