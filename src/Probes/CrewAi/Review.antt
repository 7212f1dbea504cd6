-- ===== src/Probes/CrewAi/Review.antt =====
-- probes/src/agentprobe/crewai_probes.py, `run_c1`: the order of effect and review.
use soundgate_paper.Prelude.{
  ℕ, ◌≡◌, refl, ◌∙◌, String, Bool, false, Option, none, some, [], ◌∷◌, any, if◌then◌else◌, arith,
  Bool-cases, inl, inr,
}
use soundgate_paper.Corpus.Classify.{holds}
use soundgate_paper.Probes.Harness.{EventLog, has}
use soundgate_paper.Probes.CrewAi.{next_index, index_of, precedes, run_c1}

-- Whether the review was asked for, and the effect logged at an earlier event.
unfoldable pub reviewed_late : EventLog → Bool
unfolding holds has
reviewed_late [] = false
reviewed_late (e ∷ events) =
    if holds e "HUMAN:feedback_requested"
    then false
    else if holds e "C1_EFFECT"
    then has events "HUMAN:feedback_requested"
    else reviewed_late events

precedes-next : (i j : Option ℕ) → precedes (next_index i) (next_index j) ≡ precedes i j
unfolding precedes
precedes-next none j = refl
precedes-next (some i) none = refl
precedes-next (some i) (some j) = ground arith

first-precedes :
    (tag : String) (events : EventLog)
    → precedes (some 0) (next_index (index_of tag events)) ≡ has events tag
unfolding precedes index_of has any
first-precedes tag [] = refl
first-precedes tag (e ∷ events) = elim (Bool-cases (holds e tag)) [
  | inl here ↦ rw here refl
  | inr later ↦ rw later (again (index_of tag events) ∙ first-precedes tag events)
]
  where
    again :
        (o : Option ℕ)
        → precedes (some 0) (next_index (next_index o)) ≡ precedes (some 0) (next_index o)
    again none = refl
    again (some i) = ground arith

never-precedes : (i : Option ℕ) → precedes i (some 0) ≡ false
unfolding precedes
never-precedes none = refl
never-precedes (some i) = ground arith

index_of-precedes :
    (events : EventLog)
    → precedes (index_of "C1_EFFECT" events) (index_of "HUMAN:feedback_requested" events)
      ≡ reviewed_late events
unfolding index_of reviewed_late
index_of-precedes [] = unfold precedes in refl
index_of-precedes (e ∷ events) = elim (Bool-cases (holds e "HUMAN:feedback_requested")) [
  | inl asked ↦ rw asked (never-precedes _)
  | inr quiet ↦ elim (Bool-cases (holds e "C1_EFFECT")) [
    | inl effect ↦ rw (quiet, effect) (first-precedes "HUMAN:feedback_requested" events)
    | inr idle ↦ rw (quiet, idle) (precedes-next _ _ ∙ index_of-precedes events)
  ]
]

-- The probe of the review reports a violation exactly if the effect was logged, at an event that does not
-- ask for the review, and the first request for the review comes after it.
pub review-late : (events : EventLog) → (run_c1 events).violation ≡ reviewed_late events
unfolding run_c1
review-late events = index_of-precedes events
