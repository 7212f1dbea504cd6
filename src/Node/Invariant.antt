-- ===== src/Node/Invariant.antt =====
-- The invariant of the server: the log always rebuilds the gate, whatever the requests, the
-- compactions and the restarts.
use soundgate_paper.Prelude.{
  ℕ, String, ◌≡◌, refl, Bool, Option, contains, lookup, arith, string_eq, pair_eq, Bool-cases, inl,
  inr,
}
use soundgate_paper.Wire.{Request, close}
use soundgate_paper.Gate.Defs.{Gate, EffectId, replay}
use soundgate_paper.Gate.Phase.{phase, durable, IsValid}
use soundgate_paper.Gate.Valid.{empty-IsValid, close_run-IsValid}
use soundgate_paper.Node.Defs.{Node, start, event_for, answer, is_due, handle, saw_closed, recover}
use soundgate_paper.Node.Rebuilds.{
  Rebuilds, answer-IsValid, answer-Rebuilds, close-Rebuilds, snapshot-Rebuilds,
}

pub record IsDurable (n : Node) : Type 0 where
  pub valid : IsValid n.gate
  pub rebuilds : Rebuilds n.gate n.log

pub start-IsDurable : IsDurable start
unfolding start replay phase contains lookup
start-IsDurable = record {
  valid = empty-IsValid;
  rebuilds = record { valid = empty-IsValid; exact = λ j. refl };
}

module _ (mac_ok : String → String → Bool → Option String → Bool) (threshold : ℕ) where
  pub gate-handle :
      (n : Node) (q : Request) → (handle mac_ok threshold n q).0.gate ≡ (answer mac_ok n.gate q).0
  unfolding handle
  gate-handle n (close run) = ground arith
  gate-handle n q = refl

  -- Every request keeps the log exact, also where a closing rewrites it.
  pub handle-IsDurable :
      (n : Node) (q : Request) → IsDurable n → IsDurable (handle mac_ok threshold n q).0
  unfolding handle answer event_for
  handle-IsDurable n (close run) d = elim (Bool-cases (is_due threshold n)) [
    | inl due ↦ rw due (record {
      valid = answer-IsValid mac_ok n.gate (close run) d.valid;
      rebuilds =
          close-Rebuilds n.gate run _ (snapshot-Rebuilds _ (close_run-IsValid n.gate run d.valid));
    })
    | inr not_due ↦ rw not_due (record {
      valid = answer-IsValid mac_ok n.gate (close run) d.valid;
      rebuilds = answer-Rebuilds n.gate n.log d.valid d.rebuilds mac_ok (close run);
    })
  ]
  handle-IsDurable n q d = record {
    valid = answer-IsValid mac_ok n.gate q d.valid;
    rebuilds = answer-Rebuilds n.gate n.log d.valid d.rebuilds mac_ok q;
  }

durable_idem : (g : Gate) (j : EffectId) → durable (durable (phase g j)) ≡ durable (phase g j)
durable_idem g j = ground arith

-- A restart keeps the log exact.
pub recover-IsDurable : (n : Node) → IsDurable n → IsDurable (recover n)
unfolding recover
recover-IsDurable n d = elim (Bool-cases (saw_closed n.log)) [
  | inl compacted ↦
      rw compacted
        (record { valid = d.rebuilds.valid; rebuilds = snapshot-Rebuilds _ d.rebuilds.valid })
  | inr kept ↦ rw kept (record {
    valid = d.rebuilds.valid;
    rebuilds = record { valid = d.rebuilds.valid; exact = λ j. ground (arith, d.rebuilds.exact j) };
  })
]
