-- ===== src/Gate/Valid.antt =====
-- Every operation of the gate keeps its invariant.
use soundgate_paper.Prelude.{
  String, refl, Bool, ◌==◌, contains, lookup, arith, string_eq, pair_eq, contains-insert,
  contains-keep, lookup-put, lookup-keep_keys, lookup-erase, not, eq_iff, Option-cases, inl, inr,
}
use soundgate_paper.Gate.Defs.{EffectId, Effect, id, Gate, empty, submit, decide, cancel, close_run}
use soundgate_paper.Gate.Phase.{IsValid}

pub empty-IsValid : IsValid empty
unfolding lookup contains
empty-IsValid = record { held_open = λ i e h. cc; one_outcome = λ i. refl }

pub submit-IsValid : (g : Gate) (e : Effect) → IsValid g → IsValid (submit g e).0
unfolding submit
submit-IsValid g e v = record {
  held_open = λ i f h. ground (
    arith,
    v.held_open i f,
    lookup-put (id e) i e g.pending,
    contains-insert (id e) i g.released,
    eq_iff e.run_id i.0,
    eq_iff e.effect_key i.1,
  );
  one_outcome = λ i. ground (
    arith,
    v.one_outcome i,
    contains-insert (id e) i g.released,
    eq_iff e.run_id i.0,
    eq_iff e.effect_key i.1,
  );
}

pub cancel-IsValid : (g : Gate) (r : String) → IsValid g → IsValid (cancel g r)
unfolding cancel
cancel-IsValid g r v = record {
  held_open = λ i f h. ground (
    arith,
    v.held_open i f,
    lookup-keep_keys (λ j. not (j.0 == r)) i g.pending,
    contains-insert r i.0 g.cancelled,
    eq_iff r i.0,
    eq_iff i.0 r,
  );
  one_outcome = λ i. v.one_outcome i;
}

pub close_run-IsValid : (g : Gate) (r : String) → IsValid g → IsValid (close_run g r)
unfolding close_run
close_run-IsValid g r v = record {
  held_open = λ i f h. ground (
    arith,
    v.held_open i f,
    lookup-keep_keys (λ j. not (j.0 == r)) i g.pending,
    contains-insert r i.0 g.closed,
    contains-keep (λ j. not (j.0 == r)) i g.released,
    contains-keep (λ j. not (j.0 == r)) i g.rejected,
    eq_iff r i.0,
    eq_iff i.0 r,
  );
  one_outcome = λ i. ground (
    arith,
    v.one_outcome i,
    contains-keep (λ j. not (j.0 == r)) i g.released,
    contains-keep (λ j. not (j.0 == r)) i g.rejected,
  );
}

-- A decision keeps a valid gate valid: holds are under their own identity and not in a fenced or
-- decided state, and no identity is both released and rejected.
pub decide-IsValid :
    (g : Gate) (i : EffectId) (approved : Bool) → IsValid g → IsValid (decide g i approved).0
unfolding decide
decide-IsValid g i approved v = elim (Option-cases (lookup g.pending i)) [
  | inl unknown ↦ record {
    held_open = λ j f h.
        ground
          (arith, v.held_open j f, contains-insert i j g.rejected, eq_iff i.0 j.0, eq_iff i.1 j.1);
    one_outcome = λ j.
        ground
          (arith, v.one_outcome j, contains-insert i j g.rejected, eq_iff i.0 j.0, eq_iff i.1 j.1);
  }
  | inr (e, found) ↦ record {
    held_open = λ j f h. ground (
      arith,
      v.held_open j f,
      v.held_open i e found,
      contains-insert i j g.released,
      contains-insert i j g.rejected,
      lookup-erase i j g.pending,
      eq_iff i.0 j.0,
      eq_iff i.1 j.1,
      eq_iff j.0 i.0,
      eq_iff j.1 i.1,
    );
    one_outcome = λ j. ground (
      arith,
      v.one_outcome j,
      v.held_open i e found,
      contains-insert i j g.released,
      contains-insert i j g.rejected,
      eq_iff i.0 j.0,
      eq_iff i.1 j.1,
    );
  }
]
