-- ===== src/Mediation.antt =====
-- soundgate/python-bindings/soundgate_langgraph.py: tool calls that run an effect only on a release.
-- `do_effect` changes the world `W`. `interrupt_fn` gives the payload of the human's answer, or
-- `none` where it suspends the run (the graph then calls the node again on resume). An exception of
-- the gate client ends the call.
pub mod Once
pub mod Resume
use soundgate_paper.Node.Auth.{Digest}
use soundgate_paper.Prelude.{
  String, Bool, true, false, Option, none, some, if◌then◌else◌, ◌==◌, string_eq,
}
use soundgate_paper.Wire.{Request, submit, decide, Server}
use soundgate_paper.Client.{GateError, Verdict, Result, ok, raised, send, decide_request}

pub data Outcome {ℓ} (A : Type ℓ) : Type ℓ where
  performed : A → Outcome A
  not_performed : String → Outcome A
  suspended : Outcome A
  failed : GateError → Outcome A

abbrev pub Tool : Server → Type 0 → Type 0 → Type 0
Tool S W A = S.State → W → S.State × W × Outcome A

module _ (S : Server) {W A : Type 0} where
  -- `return do_effect()`
  perform : (W → W × A) → Tool S W A
  perform do_effect s w = let (w', a) = do_effect w in (s, w', performed a)

  -- `if v == "release": return do_effect()`, else the refusal.
  on_release : (W → W × A) → Result → Tool S W A
  unfolding perform
  on_release do_effect (raised e) s w = (s, w, failed e)
  on_release do_effect (ok v) s w =
      if v.kind == "release" then perform do_effect s w else (s, w, not_performed v.kind)

  unfoldable pub mediate_no_approval : String → String → (W → W × A) → Tool S W A
  unfolding on_release send
  mediate_no_approval run_id effect_key do_effect s w =
      let (s', v) = send S s (submit run_id effect_key false) in on_release do_effect v s' w

module _ (S : Server) (hmac : Digest) (secret : Option String) {W A : Type 0} where
  -- After the human's answer.
  on_resume : String → String → (W → W × A) → Bool → Tool S W A
  unfolding on_release send decide_request
  on_resume run_id effect_key do_effect approved s w =
      let (s', decision) = send S s (decide_request hmac secret run_id effect_key approved) in
      on_release S do_effect decision s' w

  -- `interrupt_fn(...)` and what follows it.
  on_held : {P : Type 0} → String → String → (W → W × A) → (P → Bool) → Option P → Tool S W A
  unfolding on_resume
  on_held run_id effect_key do_effect resume_to_approved none s w = (s, w, suspended)
  on_held run_id effect_key do_effect resume_to_approved (some payload) s w =
      on_resume run_id effect_key do_effect (resume_to_approved payload) s w

  on_submitted :
      {P : Type 0} → String → String → (W → W × A) → (P → Bool) → Option P → Result → Tool S W A
  unfolding perform on_held
  on_submitted run_id effect_key do_effect resume_to_approved answer (raised e) s w =
      (s, w, failed e)
  on_submitted run_id effect_key do_effect resume_to_approved answer (ok v) s w =
      if v.kind == "release"
      then perform S do_effect s w
      else if v.kind == "held_for_approval"
      then on_held run_id effect_key do_effect resume_to_approved answer s w
      else (s, w, not_performed v.kind)

  unfoldable pub mediate_with_approval :
      {P : Type 0} → String → String → (W → W × A) → (P → Bool) → Option P → Tool S W A
  unfolding on_submitted send
  mediate_with_approval run_id effect_key do_effect resume_to_approved answer s w =
      let (s', v) = send S s (submit run_id effect_key true) in
      on_submitted run_id effect_key do_effect resume_to_approved answer v s' w
