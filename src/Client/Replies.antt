-- ===== src/Client/Replies.antt =====
-- The replies of the gate server to submissions and to decisions tagged with its own secret, by the
-- phase of the effect, and the phase that follows.
use soundgate_paper.Node.Auth.{Digest}
use soundgate_paper.Node.Auth.{check_mac}
use soundgate_paper.Prelude.{
  ℕ, String, ◌≡◌, refl, Bool, Option, none, some, arith, string_eq, eq_iff, ap, pair_eq,
}
use soundgate_paper.Wire.{Request, Reply, submit}
use soundgate_paper.Gate.Defs as Ops
use soundgate_paper.Gate.Defs.{EffectId, Gate}
use soundgate_paper.Gate.Phase.{phase, submit_verdict, decide_verdict, submit_next, decide_next}
use soundgate_paper.Gate.Refines.{submit-verdict, decide-verdict, phase-decide}
use soundgate_paper.Node.Defs.{Node, effect, from_admission, answer, handle}
use soundgate_paper.Node.Rebuilds.{phase-answer}
use soundgate_paper.Node.Invariant.{IsDurable, gate-handle}
use soundgate_paper.Client.Agree.{check_mac_own}
use soundgate_paper.Client.{decide_request}

-- With the gate's own secret, a decision reaches `decide`.
pub answer-decide :
    (hmac : Digest) (run key : String) (approved : Bool) (g : Gate) (secret : Option String)
    → answer (check_mac hmac secret) g (decide_request hmac secret run key approved)
      ≡ (let (g', a) = Ops.decide g (run, key) approved in (g', from_admission a))
unfolding answer check_mac decide_request
answer-decide hmac run key approved g none = refl
answer-decide hmac run key approved g (some s) = rw (check_mac_own hmac s run key approved)

-- The verdicts and phases of a submission and of an authentic decision.
module _ (hmac : Digest) (secret : Option String) (threshold : ℕ) (n : Node) (d : IsDurable n)
    (run key : String) where
  abbrev pub call : Request → Node × Reply
  call q = handle (check_mac hmac secret) threshold n q

  pub submit-reply :
      (needs : Bool)
      → (call (submit run key needs)).1
        ≡ from_admission (submit_verdict (phase n.gate (run, key)) needs)
  unfolding handle answer
  submit-reply needs = ap from_admission (submit-verdict n.gate (effect run key needs))

  pub submit-phase :
      (needs : Bool)
      → phase (call (submit run key needs)).0.gate (run, key)
        ≡ submit_next (phase n.gate (run, key)) needs
  submit-phase needs = rw gate-handle (
      ground (
        arith,
        phase-answer (check_mac hmac secret) n.gate (submit run key needs) (run, key) d.valid,
        eq_iff run run,
        eq_iff key key,
      ))

  pub decide-reply :
      (approved : Bool)
      → (call (decide_request hmac secret run key approved)).1
        ≡ from_admission (decide_verdict (phase n.gate (run, key)) approved)
  unfolding handle
  decide-reply approved =
      rw (answer-decide hmac run key approved n.gate secret)
        (ap from_admission (decide-verdict n.gate (run, key) approved d.valid))

  pub decide-phase :
      (approved : Bool)
      → phase (call (decide_request hmac secret run key approved)).0.gate (run, key)
        ≡ decide_next (phase n.gate (run, key)) approved
  decide-phase approved =
      rw (gate-handle, answer-decide hmac run key approved n.gate secret)
        (ground (
          arith,
          phase-decide n.gate (run, key) approved (run, key) d.valid,
          eq_iff run run,
          eq_iff key key,
        ))
