-- ===== src/Soak/Worker.antt =====
-- soundgate/scripts/soak_wal.py, `worker`: one agent run against a gate, with the safety oracles.
-- What the network and the other clients do around each call is a schedule: before a call is
-- answered it may fail to reach the gate, reach it and lose the reply, or meet a crash and restart
-- of the gate; each makes the worker reconnect and retry. Other clients' requests come in between.
pub mod Oracles
use soundgate_paper.Node.Auth.{Digest}
use soundgate_paper.Prelude.{
  ℕ, ◌+◌, String, Bool, true, false, ◌&&◌, ◌||◌, not, Option, none, some, List, [], ◌∷◌, ◌++◌, ◌==◌,
  contains, insert, length, ltb, string_eq, option_eq, if◌then◌else◌,
}
use soundgate_paper.Wire.{
  Request, Reply, submit, decide, cancel, close, is_release, is_rejected, is_ack, Server,
}
use soundgate_paper.Client.{decision_tag}
use soundgate_paper.Soak.Shared.{
  Stats, Violation, double_release, release_after_reject, release_in_fenced, strict, violation,
}
use soundgate_paper.Soak.Shared

pub data Fault : Type 0 where
  unreached unanswered crashed : Fault
  others : Request → Fault

pub record Mismatch : Type 0 where
  pub what : String
  pub got : Reply
  pub want : Reply

abbrev pub same_reply : Reply → Reply → Bool
same_reply Reply.release Reply.release = true
same_reply Reply.held_for_approval Reply.held_for_approval = true
same_reply Reply.refused_cancelled Reply.refused_cancelled = true
same_reply Reply.refused_duplicate Reply.refused_duplicate = true
same_reply Reply.refused_rejected Reply.refused_rejected = true
same_reply Reply.ack Reply.ack = true
same_reply Reply.pong Reply.pong = true
same_reply (Reply.error m) (Reply.error l) = true
same_reply _ _ = false

-- The variables of one run, the gate, and the schedule of what is still to happen.
pub record World (S : Server) : Type 0 where
  pub server : S.State
  pub schedule : List (List Fault)
  pub stats : Stats
  pub released : List (Option String)
  pub rejected : List (Option String)
  pub fenced : Bool
  pub reconnects : ℕ
  pub bad : List Mismatch

abbrev pub printed : Option String → String
printed none = "None"
printed (some key) = key

abbrev pub is_run_op : Request → Bool
is_run_op (cancel run) = true
is_run_op (close run) = true
is_run_op _ = false

abbrev pub keyed : Option String → Bool
keyed none = false
keyed (some key) = true

-- A decision on whether a gated effect is approved, rejected, or left without a decision.
pub data Choice : Type 0 where
  approve reject leave : Choice

-- What the random generator chooses for a run: the free keys (the first apart), the one that is
-- replayed, the gated keys with their decisions, and whether the run is cancelled.
pub record Plan : Type 0 where
  pub first : String
  pub more : List String
  pub replayed : String
  pub gated : List (String × Choice)
  pub cancels : Bool

module _ (S : Server) (hmac : Digest) (secret : String) (randrange : ℕ → ℕ) (run : String) where
  reconnected : World S → World S
  reconnected w = record w {
    reconnects = w.reconnects + 1;
    stats = record w.stats { reconnects = w.stats.reconnects + 1 };
  }

  suffer : Request → Fault → World S → World S
  unfolding reconnected
  suffer req unreached w = reconnected w
  suffer req unanswered w = reconnected (record w { server = (S.call w.server req).0 })
  suffer req crashed w = reconnected (record w { server = S.restart w.server })
  suffer req (others q) w = record w { server = (S.call w.server q).0 }

  unfoldable pub suffer_all : Request → List Fault → World S → World S
  unfolding suffer
  suffer_all req [] w = w
  suffer_all req (f ∷ fs) w = suffer_all req fs (suffer req f w)

  -- The retry loop: what the schedule has for this call.
  unfoldable pub retries : Request → List (List Fault) → World S → World S
  unfolding suffer_all
  retries req [] w = w
  retries req (fs ∷ rest) w = suffer_all req fs (record w { schedule = rest })

  oracle : Bool → Violation → Stats → Stats
  oracle found v st = if found then violation v st else st

  -- The oracles, and the bookkeeping, on a reply.
  unfoldable pub watch : Request → Option String → Reply → World S → World S
  unfolding oracle
  watch req key v w =
      if is_release v
      then record w {
        released = insert key w.released;
        stats = Shared.released randrange run (printed key) (
            oracle w.fenced (release_in_fenced run (printed key)) (
              oracle (contains w.rejected key) (release_after_reject run (printed key))
                (oracle (contains w.released key) (double_release run (printed key)) w.stats)));
      }
      else if is_rejected v && keyed key
      then record w { rejected = insert key w.rejected }
      else if is_run_op req && is_ack v
      then record w { fenced = true }
      else w

  unfoldable pub call : Request → Option String → World S → World S × Reply
  unfolding retries watch
  call req key w =
      let w1 = retries req w.schedule w in
      let (s, v) = S.call w1.server req in
      (
        watch req key v
            (record w1 { server = s; stats = record w1.stats { ops = w1.stats.ops + 1 } }),
        v,
      )

  unfoldable pub expect : Reply → Reply → String → World S → World S
  expect got want what w =
      if same_reply got want
      then w
      else record w { bad = w.bad ++ record { what = what; got = got; want = want } ∷ [] }

  -- `expect(call(req, key), want, what)`
  unfoldable pub expect_call : Request → Option String → Reply → String → World S → World S
  unfolding expect
  expect_call req key want what w = let (w', v) = call req key w in expect v want what w'

  unfoldable pub decision : String → Bool → Request
  decision key approved = decide run key approved (some (decision_tag hmac secret run key approved))
