-- ===== src/Node/Rebuilds.antt =====
-- Each answer of the gate, with the record that is logged for it, keeps the log exact.
use soundgate_paper.Prelude.{
  String, ◌≡◌, refl, ◌∙◌, inl, inr, Bool-cases, Bool, true, false, Option, List, [], ◌∷◌, ◌++◌,
  arith, ◌==◌, string_eq, pair_eq, eq_iff, if◌then◌else◌,
}
use soundgate_paper.Wire.{Request, submit, decide, cancel, close, ping}
use soundgate_paper.Gate.Defs as Ops
use soundgate_paper.Gate.Defs.{
  Gate, EffectId, Effect, id, Admission, Event, empty, replay, durable_events,
}
use soundgate_paper.Gate.Phase.{
  Phase, fenced, phase, durable, replay_next, submit_next, decide_next, IsValid,
}
use soundgate_paper.Gate.Refines.{
  submit-verdict, phase-submit, decide-verdict, phase-decide, phase-cancel, phase-close_run,
  phase-apply,
}
use soundgate_paper.Gate.Valid.{submit-IsValid, decide-IsValid, cancel-IsValid, close_run-IsValid}
use soundgate_paper.Gate.Recovery.{
  replay-append, phase-durable_events, durable_events-IsValid, apply-IsValid, Fits,
}
use soundgate_paper.Node.Defs.{event_for, append_event, from_admission, effect, answer}

-- The log rebuilds a valid gate in which every identity has its phase, holds apart.
pub record Rebuilds (g : Gate) (log : List Event) : Type 0 where
  pub valid : IsValid (replay empty log)
  pub exact : (j : EffectId) → phase (replay empty log) j ≡ durable (phase g j)

-- One more record in the log, for a step of the gate that it describes.
logged :
    {g : Gate} {log : List Event} (g' : Gate) (ev : Event)
    → Rebuilds g log
    → Fits (replay empty log) ev
    → ((j : EffectId) → replay_next (durable (phase g j)) ev j ≡ durable (phase g' j))
    → Rebuilds g' (log ++ ev ∷ [])
logged {log} g' ev r fits same = record {
  valid = rw replay-append (apply-IsValid (replay empty log) ev fits r.valid);
  exact = λ j. rw (replay-append, phase-apply, r.exact j) (same j);
}

-- A step of the gate that needs no record.
unlogged :
    {g : Gate} {log : List Event} (g' : Gate)
    → Rebuilds g log
    → ((j : EffectId) → durable (phase g j) ≡ durable (phase g' j))
    → Rebuilds g' log
unlogged g' r same = record { valid = r.valid; exact = λ j. r.exact j ∙ same j }

pub snapshot-Rebuilds : (g : Gate) → IsValid g → Rebuilds g (durable_events g)
snapshot-Rebuilds g v = record {
  valid = durable_events-IsValid g v;
  exact = phase-durable_events g;
}

-- The phase after a request, and whether its tag was accepted.
abbrev pub request_next : Bool → Request → EffectId → Phase → Phase
request_next ok (submit run key needs) j p = if (run, key) == j then submit_next p needs else p
request_next true (decide run key approved mac) j p =
    if (run, key) == j then decide_next p approved else p
request_next false (decide run key approved mac) j p = p
request_next ok (cancel run) j p = if run == j.0 then fenced else p
request_next ok (close run) j p = if run == j.0 then fenced else p
request_next ok ping j p = p

module _ (mac_ok : String → String → Bool → Option String → Bool) where
  abbrev pub accepted : Request → Bool
  accepted (decide run key approved mac) = mac_ok run key approved mac
  accepted (submit run key needs) = true
  accepted (cancel run) = true
  accepted (close run) = true
  accepted ping = true

  pub phase-answer :
      (g : Gate) (q : Request) (j : EffectId)
      → IsValid g
      → phase (answer mac_ok g q).0 j ≡ request_next (accepted q) q j (phase g j)
  unfolding answer
  phase-answer g (submit run key needs) j v = phase-submit g (effect run key needs) j
  phase-answer g (decide run key approved mac) j v =
      ground (arith, phase-decide g (run, key) approved j v)
  phase-answer g (cancel run) j v = phase-cancel g run j
  phase-answer g (close run) j v = phase-close_run g run j
  phase-answer g ping j v = refl

  pub answer-IsValid : (g : Gate) (q : Request) → IsValid g → IsValid (answer mac_ok g q).0
  unfolding answer
  answer-IsValid g (submit run key needs) v = submit-IsValid g _ v
  answer-IsValid g (decide run key approved mac) v =
      elim (Bool-cases (mac_ok run key approved mac)) [
        | inl ok ↦ rw ok (decide-IsValid g (run, key) approved v)
        | inr refused ↦ rw refused v
      ]
  answer-IsValid g (cancel run) v = cancel-IsValid g run v
  answer-IsValid g (close run) v = close_run-IsValid g run v
  answer-IsValid g ping v = v

module _ (g : Gate) (log : List Event) (v : IsValid g) (r : Rebuilds g log) where
  submit-Rebuilds :
      (e : Effect) (a : Admission)
      → (Ops.submit g e).1 ≡ a
      → Rebuilds (Ops.submit g e).0 (
          append_event
            (event_for (submit e.run_id e.effect_key e.needs_approval) (from_admission a))
            log)
  unfolding event_for
  submit-Rebuilds e Admission.release h =
      logged _ (Event.released (id e)) r (ground (arith, r.exact (id e), submit-verdict g e)) λ j.
        ground (
          arith,
          submit-verdict g e,
          phase-submit g e j,
          eq_iff e.run_id j.0,
          eq_iff e.effect_key j.1,
        )
  submit-Rebuilds e _ h = unlogged _ r λ j.
      ground (
        arith,
        submit-verdict g e,
        phase-submit g e j,
        eq_iff e.run_id j.0,
        eq_iff e.effect_key j.1,
      )

  decide-Rebuilds :
      (i : EffectId) (approved : Bool) (mac : Option String) (a : Admission)
      → (Ops.decide g i approved).1 ≡ a
      → Rebuilds
          (Ops.decide g i approved).0
          (append_event (event_for (decide i.0 i.1 approved mac) (from_admission a)) log)
  unfolding event_for
  decide-Rebuilds i approved mac Admission.release h =
      logged _ (Event.released i) r (ground (arith, r.exact i, decide-verdict g i approved v)) λ j.
        ground (
          arith,
          decide-verdict g i approved v,
          phase-decide g i approved j v,
          eq_iff i.0 j.0,
          eq_iff i.1 j.1,
        )
  decide-Rebuilds i approved mac Admission.refused_rejected h =
      logged _ (Event.rejected i) r (ground (arith, r.exact i, decide-verdict g i approved v)) λ j.
        ground (
          arith,
          decide-verdict g i approved v,
          phase-decide g i approved j v,
          eq_iff i.0 j.0,
          eq_iff i.1 j.1,
        )
  decide-Rebuilds i approved mac _ h = unlogged _ r λ j. ground (
    arith,
    decide-verdict g i approved v,
    phase-decide g i approved j v,
    eq_iff i.0 j.0,
    eq_iff i.1 j.1,
  )

  pub answer-Rebuilds :
      (mac_ok : String → String → Bool → Option String → Bool) (q : Request)
      → let (g', reply) = answer mac_ok g q in Rebuilds g' (append_event (event_for q reply) log)
  unfolding answer event_for
  answer-Rebuilds mac_ok (submit run key needs) = submit-Rebuilds (effect run key needs) _ refl
  answer-Rebuilds mac_ok (decide run key approved mac) =
      elim (Bool-cases (mac_ok run key approved mac)) [
        | inl ok ↦ rw ok (decide-Rebuilds (run, key) approved mac _ refl)
        | inr refused ↦ rw refused r
      ]
  answer-Rebuilds mac_ok (cancel run) =
      logged _ (Event.cancelled run) r tt (λ j. ground (arith, phase-cancel g run j))
  answer-Rebuilds mac_ok (close run) =
      logged _ (Event.closed run) r tt (λ j. ground (arith, phase-close_run g run j))
  answer-Rebuilds mac_ok ping = r

-- A closing logged behind a snapshot that was taken after it.
pub close-Rebuilds :
    (g : Gate) (run : String) (log : List Event)
    → Rebuilds (Ops.close_run g run) log
    → Rebuilds (Ops.close_run g run) (log ++ Event.closed run ∷ [])
close-Rebuilds g run log r =
    logged _ (Event.closed run) r tt (λ j. ground (arith, phase-close_run g run j))
