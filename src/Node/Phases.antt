-- ===== src/Node/Phases.antt =====
-- The server's answers and the phases after them, at a gate that takes every decision as authentic.
use soundgate_paper.Prelude.{ℕ, String, ◌≡◌, ap, Bool, true, Option}
use soundgate_paper.Wire.{Request, submit, decide}
use soundgate_paper.Gate.Defs.{EffectId}
use soundgate_paper.Gate.Phase.{phase, submit_verdict, decide_verdict}
use soundgate_paper.Gate.Refines.{submit-verdict, decide-verdict}
use soundgate_paper.Node.Defs.{Node, effect, from_admission, answer, handle}
use soundgate_paper.Node.Rebuilds.{phase-answer, request_next, accepted}
use soundgate_paper.Node.Invariant.{IsDurable, gate-handle}

-- A gate without a secret.
abbrev pub open_door : String → String → Bool → Option String → Bool
open_door run key approved mac = true

pub phase-handle :
    (mac_ok : String → String → Bool → Option String → Bool) (threshold : ℕ) (n : Node)
    (q : Request) (j : EffectId)
    → IsDurable n
    → phase (handle mac_ok threshold n q).0.gate j
      ≡ request_next (accepted mac_ok q) q j (phase n.gate j)
phase-handle mac_ok threshold n q j d = rw gate-handle (phase-answer mac_ok n.gate q j d.valid)

module _ (threshold : ℕ) (n : Node) (d : IsDurable n) (run key : String) where
  pub handle-submit :
      (needs : Bool)
      → (handle open_door threshold n (submit run key needs)).1
        ≡ from_admission (submit_verdict (phase n.gate (run, key)) needs)
  unfolding handle answer
  handle-submit needs = ap from_admission (submit-verdict n.gate (effect run key needs))

  pub handle-decide :
      (approved : Bool) (mac : Option String)
      → (handle open_door threshold n (decide run key approved mac)).1
        ≡ from_admission (decide_verdict (phase n.gate (run, key)) approved)
  unfolding handle answer
  handle-decide approved mac = ap from_admission (decide-verdict n.gate (run, key) approved d.valid)
