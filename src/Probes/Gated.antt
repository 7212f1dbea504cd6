-- ===== src/Probes/Gated.antt =====
-- probes-temporal/probe_temporal_gated.py, with the gate in the process. The workflow engine is data: at which
-- moment it runs the sibling's activity, which it does once.
pub mod Paused
use soundgate_paper.Prelude.{
  ℕ, String, Bool, true, false, ◌&&◌, List, [], ◌∷◌, ◌++◌, length, ◌==◌, nat_eq, string_eq,
  if◌then◌else◌,
}
use soundgate_paper.Gate.Defs.{
  Gate, Effect, submit, decide, Admission, release, held_for_approval, refused_cancelled,
  refused_duplicate, refused_rejected,
}
use soundgate_paper.Corpus.Classify.{holds}
use soundgate_paper.MutationScore.Text.{starts_with}
use soundgate_paper.Probes.Temporal.{Entry, log_count}

-- soundgate/src/python.rs: a verdict by its kind.
unfoldable pub verdict_str : Admission → String
verdict_str release = "release"
verdict_str held_for_approval = "held_for_approval"
verdict_str refused_cancelled = "refused_cancelled"
verdict_str refused_duplicate = "refused_duplicate"
verdict_str refused_rejected = "refused_rejected"

-- `append_entry tag t`: `_append` at the time `t`.
unfoldable pub append_entry : String → ℕ → List Entry → List Entry
append_entry tag t log = log ++ (record { tag = tag; t = t }) ∷ []

unfoldable pub mediated_effect :
    {W : Type 0} → Gate → W → String → String → (W → W) → Bool → Gate × W × String
unfolding verdict_str
mediated_effect g w run_id effect_key do_effect needs_approval =
    let (g', v) =
      submit g
        (record { run_id = run_id; effect_key = effect_key; needs_approval = needs_approval }) in
    (g', if verdict_str v == "release" then do_effect w else w, verdict_str v)

-- The gate, the effects, and the verdict that the activity has returned, empty before it ran.
pub record Arm : Type 0 where
  pub gate : Gate
  pub log : List Entry
  pub verdict : String

unfoldable pub gated_sibling_effect : ℕ → Arm → Arm
unfolding mediated_effect
gated_sibling_effect t a =
    let (g, log, v) =
      mediated_effect a.gate a.log "t5-run" "t5:sibling" (append_entry "t5:sibling" t) true in
    record { gate = g; log = log; verdict = v }

unfoldable pub ungated_control_effect : ℕ → Arm → Arm
unfolding mediated_effect
ungated_control_effect t a =
    let (g, log, v) =
      mediated_effect a.gate a.log "t5-ctl" "t5:control" (append_entry "t5:control" t) false in
    record { gate = g; log = log; verdict = v }

-- The last of these steps of `main` that the sibling's activity comes before.
pub data Moment : Type 0 where
  before_count before_decide before_submit before_result : Moment

abbrev pub same : Moment → Moment → Bool
same before_count before_count = true
same before_decide before_decide = true
same before_submit before_submit = true
same before_result before_result = true
same _ _ = false

unfoldable pub sibling_at : Moment → Moment → ℕ → Arm → Arm
sibling_at now moment t a = if same now moment then gated_sibling_effect t a else a

pub record Checks : Type 0 where
  pub held_during_pause : Bool
  pub rejected : Bool
  pub executed : Bool
  pub effects : List Entry
  pub code : ℕ

-- From the first count on: the sibling's workflow, and then the control's.
unfoldable pub main : Gate → Moment → ℕ → ℕ → Checks
unfolding verdict_str sibling_at gated_sibling_effect ungated_control_effect
main g moment t t_control =
    let a1 = sibling_at before_count moment t (record { gate = g; log = []; verdict = "" }) in
    let held_during_pause = length a1.gate.pending == 1 && log_count a1.log "t5:sibling" == 0 in
    let a2 = sibling_at before_decide moment t a1 in
    let (g3, v_reject) = decide a2.gate ("t5-run", "t5:sibling") false in
    let a3 = sibling_at before_submit moment t (record a2 { gate = g3 }) in
    let (g4, v_zombie) =
      submit a3.gate
        (record { run_id = "t5-run"; effect_key = "t5:sibling"; needs_approval = true }) in
    let a4 = sibling_at before_result moment t (record a3 { gate = g4 }) in
    let rejected =
      starts_with "refused_" (verdict_str v_zombie)
      && (log_count a4.log "t5:sibling" == 0 && holds a4.verdict "held") in
    let a5 = ungated_control_effect t_control a4 in
    let executed = holds a5.verdict "release" && log_count a5.log "t5:control" == 1 in
    record {
      held_during_pause = held_during_pause;
      rejected = rejected;
      executed = executed;
      effects = a5.log;
      code = if held_during_pause && (rejected && executed) then 0 else 1;
    }
