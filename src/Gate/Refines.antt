-- ===== src/Gate/Refines.antt =====
-- The gate's operations implement the phase machine at every identity.
use soundgate_paper.Prelude.{
  String, ◌≡◌, Bool, ◌==◌, lookup, arith, string_eq, pair_eq, contains-insert, Option-cases, inl,
  inr, contains-keep, lookup-put, lookup-keep_keys, lookup-erase, if◌then◌else◌, not, eq_iff,
}
use soundgate_paper.Gate.Defs.{
  EffectId, Effect, id, Gate, submit, decide, cancel, close_run, apply, Event,
}
use soundgate_paper.Gate.Phase.{
  phase, submit_verdict, submit_next, decide_verdict, decide_next, replay_next, IsValid, fenced,
}

-- A submission's verdict is the one that the phase machine gives for the identity's phase.
pub submit-verdict :
    (g : Gate) (e : Effect) → (submit g e).1 ≡ submit_verdict (phase g (id e)) e.needs_approval
unfolding submit phase
submit-verdict g e = ground arith

-- A submission moves its identity as the phase machine says and leaves every other identity in
-- its phase.
pub phase-submit :
    (g : Gate) (e : Effect) (j : EffectId)
    → phase (submit g e).0 j
      ≡ (if id e == j then submit_next (phase g j) e.needs_approval else phase g j)
unfolding submit phase
phase-submit g e j = ground (
  arith,
  contains-insert (id e) j g.released,
  lookup-put (id e) j e g.pending,
  eq_iff e.run_id j.0,
  eq_iff e.effect_key j.1,
)

pub phase-cancel :
    (g : Gate) (r : String) (j : EffectId)
    → phase (cancel g r) j ≡ (if r == j.0 then fenced else phase g j)
unfolding cancel phase
phase-cancel g r j = ground (
  arith,
  contains-insert r j.0 g.cancelled,
  lookup-keep_keys (λ i. not (i.0 == r)) j g.pending,
  eq_iff r j.0,
  eq_iff j.0 r,
)

pub phase-close_run :
    (g : Gate) (r : String) (j : EffectId)
    → phase (close_run g r) j ≡ (if r == j.0 then fenced else phase g j)
unfolding close_run phase
phase-close_run g r j = ground (
  arith,
  contains-insert r j.0 g.closed,
  lookup-keep_keys (λ i. not (i.0 == r)) j g.pending,
  contains-keep (λ i. not (i.0 == r)) j g.released,
  contains-keep (λ i. not (i.0 == r)) j g.rejected,
  eq_iff r j.0,
  eq_iff j.0 r,
)

-- In a valid gate, a decision's verdict is the one that the phase machine gives for the
-- identity's phase.
pub decide-verdict :
    (g : Gate) (i : EffectId) (approved : Bool)
    → IsValid g
    → (decide g i approved).1 ≡ decide_verdict (phase g i) approved
unfolding decide phase
decide-verdict g i approved v = elim (Option-cases (lookup g.pending i)) [
  | inl unknown ↦ ground arith
  | inr (e, found) ↦ ground (arith, v.held_open i e found)
]

-- In a valid gate, a decision moves its identity as the phase machine says and leaves every
-- other identity in its phase.
pub phase-decide :
    (g : Gate) (i : EffectId) (approved : Bool) (j : EffectId)
    → IsValid g
    → phase (decide g i approved).0 j
      ≡ (if i == j then decide_next (phase g j) approved else phase g j)
unfolding decide phase
phase-decide g i approved j v = elim (Option-cases (lookup g.pending i)) [
  | inl unknown ↦ ground (
    arith,
    contains-insert i j g.released,
    contains-insert i j g.rejected,
    eq_iff i.0 j.0,
    eq_iff i.1 j.1,
  )
  | inr (e, found) ↦ ground (
    arith,
    v.held_open i e found,
    contains-insert i j g.released,
    contains-insert i j g.rejected,
    lookup-erase i j g.pending,
    eq_iff i.0 j.0,
    eq_iff i.1 j.1,
    eq_iff j.0 i.0,
    eq_iff j.1 i.1,
  )
]

-- Replaying a record moves every identity as the phase machine says for that record.
pub phase-apply :
    (g : Gate) (ev : Event) (j : EffectId) → phase (apply g ev) j ≡ replay_next (phase g j) ev j
unfolding apply phase
phase-apply g (Event.released i) j =
    ground (arith, contains-insert i j g.released, eq_iff i.0 j.0, eq_iff i.1 j.1)
phase-apply g (Event.rejected i) j =
    ground (arith, contains-insert i j g.rejected, eq_iff i.0 j.0, eq_iff i.1 j.1)
phase-apply g (Event.cancelled r) j = ground (arith, phase-cancel g r j)
phase-apply g (Event.closed r) j = ground (arith, phase-close_run g r j)

-- A submission's verdict is the one that the phase machine gives for the identity's phase; it moves the
-- identity as the machine says and leaves every other identity in its phase.
pub submit-Refines :
    (g : Gate) (e : Effect) (j : EffectId)
    → ((submit g e).1 ≡ submit_verdict (phase g (id e)) e.needs_approval)
      × (phase (submit g e).0 j
          ≡ (if id e == j then submit_next (phase g j) e.needs_approval else phase g j))
submit-Refines g e j = (submit-verdict g e, phase-submit g e j)

-- In a valid gate, a decision's verdict is the one that the phase machine gives for the identity's
-- phase; it moves the identity as the machine says and leaves every other identity in its phase.
pub decide-Refines :
    (g : Gate) (i : EffectId) (approved : Bool) (j : EffectId)
    → IsValid g
    → ((decide g i approved).1 ≡ decide_verdict (phase g i) approved)
      × (phase (decide g i approved).0 j
          ≡ (if i == j then decide_next (phase g j) approved else phase g j))
decide-Refines g i approved j v = (decide-verdict g i approved v, phase-decide g i approved j v)
