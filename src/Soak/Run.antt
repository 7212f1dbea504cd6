-- ===== src/Soak/Run.antt =====
-- soundgate/scripts/soak_wal.py, the body of `worker`'s loop: the script of one run.
pub mod Safe
pub mod Quiet
pub mod Script
pub mod Strict
use soundgate_paper.Node.Auth.{Digest}
use soundgate_paper.Prelude.{
  ℕ, ◌+◌, String, ◌<>◌, Bool, true, false, ◌&&◌, not, Option, none, some, List, [], ◌∷◌, ◌++◌,
  contains, length, ltb, string_eq, option_eq, if◌then◌else◌,
}
use soundgate_paper.Wire.{Request, Reply, submit, decide, cancel, close, Server}
use soundgate_paper.Soak.Shared.{Stats, strict, violation}
use soundgate_paper.Soak.Worker.{
  World, Fault, Mismatch, Choice, approve, reject, leave, Plan, same_reply, call, expect,
  expect_call, decision,
}

module _ (S : Server) (hmac : Digest) (secret : String) (randrange : ℕ → ℕ) (run : String) where
  abbrev checked : Request → Option String → Reply → String → World S → World S
  checked = expect_call S hmac secret randrange run

  abbrev called : Request → Option String → World S → World S × Reply
  called = call S hmac secret randrange run

  abbrev decided : String → Bool → Request
  decided = decision S hmac secret randrange run

  -- `for k in free: expect(call(submit k), "release")`
  unfoldable pub submit_free : List String → World S → World S
  submit_free [] w = w
  submit_free (k ∷ ks) w =
      submit_free ks (checked (submit run k false) (some k) Reply.release ("submit " <> k) w)

  -- An approval; where a reconnect may have lost the hold, it is submitted and decided again.
  unfoldable pub approve_key : ℕ → String → World S → World S
  approve_key start k w =
      let (w1, v) = called (decided k true) (some k) w in
      if same_reply v Reply.refused_duplicate
        && (ltb start w1.reconnects && not (contains w1.released (some k)))
      then checked (decided k true) (some k) Reply.release ("approve " <> k)
          (called (submit run k true) (some k) w1).0
      else expect S hmac secret randrange run v Reply.release ("approve " <> k) w1

  unfoldable pub reject_key : String → World S → World S
  reject_key k w =
      checked (submit run k false) (some k) Reply.refused_rejected ("resubmit rejected " <> k)
        (checked (decided k false) (some k) Reply.refused_rejected ("reject " <> k) w)

  unfoldable pub decide_key : ℕ → String → Choice → World S → World S
  unfolding approve_key reject_key
  decide_key start k approve w = approve_key start k w
  decide_key start k reject w = reject_key k w
  decide_key start k leave w = w

  unfoldable pub submit_gated : ℕ → List (String × Choice) → World S → World S
  unfolding decide_key
  submit_gated start [] w = w
  submit_gated start ((k, c) ∷ ks) w = submit_gated start ks (
      decide_key start k c
        (checked (submit run k true) (some k) Reply.held_for_approval ("hold " <> k) w))

  -- The gated keys that were left without a decision.
  unfoldable pub pending : List (String × Choice) → List String
  pending [] = []
  pending ((k, leave) ∷ ks) = k ∷ pending ks
  pending ((k, c) ∷ ks) = pending ks

  unfoldable pub late_approvals : List String → World S → World S
  late_approvals [] w = w
  late_approvals (k ∷ ks) w =
      late_approvals ks
        (checked (decided k true) (some k) Reply.refused_cancelled ("late approve " <> k) w)

  unfoldable pub cancel_run : List String → World S → World S
  unfolding late_approvals
  cancel_run ks w =
      let w1 = checked (cancel run) none Reply.ack "cancel" w in
      let w2 =
        checked (submit run "zombie" false) (some "zombie") Reply.refused_cancelled "zombie submit"
          w1 in
      let w3 = late_approvals ks w2 in
      record w3 { stats = record w3.stats { runs_cancelled = w3.stats.runs_cancelled + 1 } }

  -- `for b in bad: sh.violation("STRICT " + b)`
  unfoldable pub strict_all : List Mismatch → Stats → Stats
  strict_all [] st = st
  strict_all (m ∷ ms) st = strict_all ms (violation (strict m.what m.got m.want) st)

  unfoldable pub finish : ℕ → World S → Stats
  unfolding strict_all
  finish start w =
      let st = record w.stats { runs = w.stats.runs + 1 } in
      if ltb start w.reconnects
      then record st {
        runs_spanning_restart = st.runs_spanning_restart + 1;
        explained = st.explained + length w.bad;
      }
      else strict_all w.bad (record st { runs_strict = st.runs_strict + 1 })

  -- One run, up to its verdicts: the world at its end.
  unfoldable pub play : Plan → World S → World S
  unfolding submit_free submit_gated pending cancel_run
  play p w =
      let start = w.reconnects in
      let w1 = submit_free (p.first ∷ p.more) w in
      let w2 =
        checked (submit run p.replayed false) (some p.replayed) Reply.refused_duplicate
          ("replay " <> p.replayed) w1 in
      let w3 = submit_gated start p.gated w2 in
      let w4 = if p.cancels then cancel_run (pending p.gated) w3 else w3 in
      let w5 = checked (close run) none Reply.ack "close" w4 in
      checked (submit run p.first false) (some p.first) Reply.refused_cancelled "submit after close"
        w5

  -- One iteration of the worker, with fresh variables: the gate after it, the reconnects so far,
  -- and the statistics.
  unfoldable pub work : Plan → List (List Fault) → S.State → ℕ → Stats → S.State × ℕ × Stats
  unfolding finish
  work p schedule s reconnects st =
      let w = play p (record {
        server = s;
        schedule = schedule;
        stats = st;
        released = [];
        rejected = [];
        fenced = false;
        reconnects = reconnects;
        bad = [];
      }) in
      (w.server, w.reconnects, finish reconnects w)

-- `while not stop.is_set()`: the runs that a worker gets to, by name.
module _ (S : Server) (hmac : Digest) (secret : String) (randrange : ℕ → ℕ) where
  unfoldable pub worker :
      List (String × Plan × List (List Fault)) → S.State → ℕ → Stats → S.State × ℕ × Stats
  worker [] s reconnects st = (s, reconnects, st)
  worker ((run, p, schedule) ∷ runs) s reconnects st =
      let (s', reconnects', st') = work S hmac secret randrange run p schedule s reconnects st in
      worker runs s' reconnects' st'
