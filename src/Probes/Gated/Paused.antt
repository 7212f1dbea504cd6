-- ===== src/Probes/Gated/Paused.antt =====
-- probes-temporal/probe_temporal_gated.py: what the gated probe shows.
use soundgate_paper.Prelude.{
  ℕ, suc, ◌≡◌, refl, ap, ◌∙◌, Bool, true, false, length, ◌==◌, nat_eq, string_eq, pair_eq,
  if◌then◌else◌, arith, length-put, count_if,
}
use soundgate_paper.Gate.Defs.{
  Gate, Effect, EffectId, id, submit, decide, release, refused_rejected,
}
use soundgate_paper.Gate.Phase.{
  phase, fresh, held, denied, Phase, IsValid, submit_next, submit_verdict, decide_next,
}
use soundgate_paper.Gate.Valid.{submit-IsValid, decide-IsValid}
use soundgate_paper.Gate.Refines.{submit-verdict, phase-submit, phase-decide}
use soundgate_paper.Probes.Temporal.{log_count}
use soundgate_paper.Probes.Gated.{
  Moment, before_count, before_decide, before_submit, before_result, mediated_effect, append_entry,
  main,
}
use soundgate_paper.Corpus.Classify.{holds}
use soundgate_paper.MutationScore.Text.{starts_with}

-- A new hold is one more pending effect.
pending-submit :
    (g : Gate) (e : Effect)
    → phase g (id e) ≡ fresh
    → e.needs_approval ≡ true
    → length (submit g e).0.pending ≡ suc (length g.pending)
unfolding submit phase
pending-submit g e new approval = ground (arith, length-put (id e) e g.pending)

abbrev pub sibling : EffectId
sibling = ("t5-run", "t5:sibling")

abbrev pub control : EffectId
control = ("t5-ctl", "t5:control")

abbrev sibling_effect : Effect
sibling_effect = record { run_id = "t5-run"; effect_key = "t5:sibling"; needs_approval = true }

abbrev control_effect : Effect
control_effect = record { run_id = "t5-ctl"; effect_key = "t5:control"; needs_approval = false }

-- Where the sibling is in a phase and the control is fresh.
record At (p : Phase) (g : Gate) : Type 0 where
  valid : IsValid g
  of_sibling : phase g sibling ≡ p
  of_control : phase g control ≡ fresh

submitted-At : (p : Phase) (g : Gate) → At p g → At (submit_next p true) (submit g sibling_effect).0
submitted-At p g a = record {
  valid = submit-IsValid g sibling_effect a.valid;
  of_sibling = phase-submit g sibling_effect sibling ∙ ap (λ q. submit_next q true) a.of_sibling;
  of_control = phase-submit g sibling_effect control ∙ a.of_control;
}

rejected-At : (p : Phase) (g : Gate) → At p g → At (decide_next p false) (decide g sibling false).0
rejected-At p g a = record {
  valid = decide-IsValid g sibling false a.valid;
  of_sibling =
      phase-decide g sibling false sibling a.valid ∙ ap (λ q. decide_next q false) a.of_sibling;
  of_control = phase-decide g sibling false control a.valid ∙ a.of_control;
}

submitted : (p : Phase) (g : Gate) → At p g → (submit g sibling_effect).1 ≡ submit_verdict p true
submitted p g a = submit-verdict g sibling_effect ∙ ap (λ q. submit_verdict q true) a.of_sibling

controlled : (p : Phase) (g : Gate) → At p g → (submit g control_effect).1 ≡ release
controlled p g a = submit-verdict g control_effect ∙ ap (λ q. submit_verdict q false) a.of_control

-- The probe's report says that the gate works: the one pending effect is there at the count, and the
-- sibling is held before the rejection.
abbrev pub is_seen : Moment → ℕ → Bool
is_seen before_count pending = pending == 0
is_seen before_decide pending = pending == 1
is_seen before_submit pending = false
is_seen before_result pending = false

abbrev Shows : Gate → Moment → ℕ → ℕ → Type 0
Shows g moment t t_control =
    (log_count (main g moment t t_control).effects "t5:sibling" ≡ 0)
    × (log_count (main g moment t t_control).effects "t5:control" ≡ 1)
    × ((main g moment t t_control).executed ≡ true)
    × ((main g moment t t_control).code ≡ (if is_seen moment (length g.pending) then 0 else 1))

-- The gates where the sibling is held before it is rejected, and where it is submitted afterwards.
module _ (g : Gate) (t t_control : ℕ) (a : At fresh g) where
  abbrev held_gate : Gate
  held_gate = (submit g sibling_effect).0

  held_first : At denied (decide held_gate sibling false).0
  held_first = rejected-At held held_gate (submitted-At fresh g a)

  abbrev denied_gate : Gate
  denied_gate = (decide g sibling false).0

  denied_first : At denied denied_gate
  denied_first = rejected-At fresh g a

  -- After a rejection a submission is refused, and leaves the sibling rejected.
  again : (g' : Gate) → At denied g' → At denied (submit g' sibling_effect).0
  again = submitted-At denied

  refused : (g' : Gate) → At denied g' → (submit g' sibling_effect).1 ≡ refused_rejected
  refused = submitted denied

  before_count-Shows : Shows g before_count t t_control
  unfolding main mediated_effect log_count append_entry count_if holds starts_with
  before_count-Shows =
      rw
        (
          submitted fresh g a,
          pending-submit g sibling_effect a.of_sibling refl,
          refused (decide held_gate sibling false).0 held_first,
          controlled denied _ (again (decide held_gate sibling false).0 held_first),
        )
        (refl, refl, refl, ground arith)

  before_decide-Shows : Shows g before_decide t t_control
  unfolding main mediated_effect log_count append_entry count_if holds starts_with
  before_decide-Shows =
      rw
        (
          submitted fresh g a,
          refused (decide held_gate sibling false).0 held_first,
          controlled denied _ (again (decide held_gate sibling false).0 held_first),
        )
        (refl, refl, refl, ground arith)

  before_submit-Shows : Shows g before_submit t t_control
  unfolding main mediated_effect log_count append_entry count_if holds starts_with
  before_submit-Shows =
      rw
        (
          refused denied_gate denied_first,
          refused (submit denied_gate sibling_effect).0 (again denied_gate denied_first),
          controlled denied _
              (again (submit denied_gate sibling_effect).0 (again denied_gate denied_first)),
        )
        (refl, refl, refl, ground arith)

  before_result-Shows : Shows g before_result t t_control
  unfolding main mediated_effect log_count append_entry count_if holds starts_with
  before_result-Shows =
      rw
        (
          refused denied_gate denied_first,
          refused (submit denied_gate sibling_effect).0 (again denied_gate denied_first),
          controlled denied _
              (again (submit denied_gate sibling_effect).0 (again denied_gate denied_first)),
        )
        (refl, refl, refl, ground arith)

-- Of a valid gate where the sibling and the control are fresh, whenever the engine runs the sibling's
-- activity: the sibling's effect is never performed, the control's is performed once, and the probe ends
-- with exit code 0 exactly if the activity ran before the count and nothing else was pending, or ran
-- between the count and the rejection and one other effect was pending.
pub main-Shows :
    (g : Gate) (moment : Moment) (t t_control : ℕ)
    → IsValid g
    → phase g sibling ≡ fresh
    → phase g control ≡ fresh
    → (log_count (main g moment t t_control).effects "t5:sibling" ≡ 0)
      × (log_count (main g moment t t_control).effects "t5:control" ≡ 1)
      × ((main g moment t t_control).executed ≡ true)
      × ((main g moment t t_control).code ≡ (if is_seen moment (length g.pending) then 0 else 1))
main-Shows g before_count t t_control v s c =
    before_count-Shows g t t_control (record { valid = v; of_sibling = s; of_control = c })
main-Shows g before_decide t t_control v s c =
    before_decide-Shows g t t_control (record { valid = v; of_sibling = s; of_control = c })
main-Shows g before_submit t t_control v s c =
    before_submit-Shows g t t_control (record { valid = v; of_sibling = s; of_control = c })
main-Shows g before_result t t_control v s c =
    before_result-Shows g t t_control (record { valid = v; of_sibling = s; of_control = c })
