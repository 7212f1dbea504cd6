-- ===== src/Mediation/Resume.antt =====
-- An approval that suspends its run and is resumed, on the gate server.
use soundgate_paper.Node.Auth.{Digest}
use soundgate_paper.Node.Auth.{check_mac}
use soundgate_paper.Prelude.{
  ℕ, String, ◌≡◌, Bool, true, Option, none, some, string_eq, if◌then◌else◌, Bool-cases, inl, inr,
  ap, ◌∙◌, pair_eq,
}
use soundgate_paper.Wire.{submit, Server}
use soundgate_paper.Gate.Phase.{fresh, held, phase, submit_next, decide_next}
use soundgate_paper.Node.Defs.{Node, handle}
use soundgate_paper.Node.Invariant.{IsDurable, handle-IsDurable}
use soundgate_paper.Node.Safe.{server}
use soundgate_paper.Client.Replies.{submit-reply, submit-phase, decide-reply, decide-phase}
use soundgate_paper.Client.{roundtrip, to_line, decide_request}
use soundgate_paper.Mediation.{performed, not_performed, suspended, mediate_with_approval}

module _ (hmac : Digest) (secret : Option String) (threshold : ℕ) (n : Node) (d : IsDurable n)
    (run key : String) where
  abbrev gate_server : Server
  gate_server = server (check_mac hmac secret) threshold

  abbrev after_hold : Node
  after_hold = (handle (check_mac hmac secret) threshold n (submit run key true)).0

  after_hold-IsDurable : IsDurable after_hold
  after_hold-IsDurable =
      handle-IsDurable (check_mac hmac secret) threshold n (submit run key true) d

  -- The effect's first approval call holds it and suspends; nothing is performed.
  pub first_call_suspends :
      {W A P : Type 0} (do_effect : W → W × A) (resume_to_approved : P → Bool) (w : W)
      → phase n.gate (run, key) ≡ fresh
      → mediate_with_approval gate_server hmac secret run key do_effect resume_to_approved none n w
        ≡ (after_hold, w, suspended)
  unfolding mediate_with_approval roundtrip to_line
  first_call_suspends do_effect resume_to_approved w f =
      rw (submit-reply hmac secret threshold n d run key true, f)

  held_phase : phase n.gate (run, key) ≡ fresh → phase after_hold.gate (run, key) ≡ held
  held_phase f =
      submit-phase hmac secret threshold n d run key true ∙ ap (λ p. submit_next p true) f

-- The gate after the resumed call: the node runs again from its start, so it submits once more.
abbrev pub after_resume : Digest → Option String → ℕ → Node → String → String → Bool → Node
after_resume hmac secret threshold n run key approved =
    let gate = handle (check_mac hmac secret) threshold in
    (gate (gate n (submit run key true)).0 (decide_request hmac secret run key approved)).0

module _ (hmac : Digest) (secret : Option String) (threshold : ℕ) (n : Node) (d : IsDurable n)
    (run key : String) where
  abbrev again : Node
  again = after_hold hmac secret threshold n d run key

  again-IsDurable : IsDurable again
  again-IsDurable = after_hold-IsDurable hmac secret threshold n d run key

  resumed_phase :
      (approved : Bool)
      → phase n.gate (run, key) ≡ held
      → phase (after_resume hmac secret threshold n run key approved).gate (run, key)
        ≡ decide_next held approved
  resumed_phase approved h =
      decide-phase hmac secret threshold again again-IsDurable run key approved
      ∙ ap (λ p. decide_next p approved)
          (submit-phase hmac secret threshold n d run key true ∙ ap (λ p. submit_next p true) h)

  -- A call resumed with an answer on a held effect performs it exactly when the answer approves;
  -- a rejection performs nothing.
  pub resumed_call :
      {W A P : Type 0} (do_effect : W → W × A) (resume_to_approved : P → Bool) (payload : P) (w : W)
      → phase n.gate (run, key) ≡ held
      → mediate_with_approval
          (server (check_mac hmac secret) threshold)
          hmac
          secret
          run
          key
          do_effect
          resume_to_approved
          (some payload)
          n
          w
        ≡ (let n' = after_resume hmac secret threshold n run key (resume_to_approved payload) in
            let (w', a) = do_effect w in
            if resume_to_approved payload
            then (n', w', performed a)
            else (n', w, not_performed "refused_rejected"))
  unfolding mediate_with_approval roundtrip to_line
  resumed_call do_effect resume_to_approved payload w h =
      rw (submit-reply hmac secret threshold n d run key true, h)
        (rw
          (
            decide-reply hmac secret threshold again again-IsDurable run key
                (resume_to_approved payload),
            submit-phase hmac secret threshold n d run key true,
            h,
          )
          (elim (Bool-cases (resume_to_approved payload)) [
            | inl approves ↦ rw approves
            | inr rejects ↦ rw rejects
          ]))

-- At a gate server and a client that share a secret, or have none, from an identity that the gate has not
-- seen: the first call suspends with nothing performed, and the resumed call performs the effect and
-- releases it for good if the answer approves, and otherwise performs nothing and leaves it rejected.
pub suspend_then_resume :
    (hmac : Digest) (secret : Option String) (threshold : ℕ) (n : Node) (run key : String)
    {W A P : Type 0} (do_effect : W → W × A) (resume_to_approved : P → Bool) (payload : P) (w : W)
    → IsDurable n
    → phase n.gate (run, key) ≡ fresh
    → let tool =
        mediate_with_approval
          (server (check_mac hmac secret) threshold)
          hmac
          secret
          run
          key
          do_effect
          resume_to_approved in
      let n1 = (handle (check_mac hmac secret) threshold n (submit run key true)).0 in
      let n2 = after_resume hmac secret threshold n1 run key (resume_to_approved payload) in
      (tool none n w ≡ (n1, w, suspended))
      × (tool (some payload) n1 w ≡ (
          if resume_to_approved payload
          then (n2, (do_effect w).0, performed (do_effect w).1)
          else (n2, w, not_performed "refused_rejected")))
      × (phase n2.gate (run, key) ≡ decide_next held (resume_to_approved payload))
suspend_then_resume hmac secret threshold n run key do_effect resume_to_approved payload w d f =
    let d1 = handle-IsDurable (check_mac hmac secret) threshold n (submit run key true) d in
    let n1 = (handle (check_mac hmac secret) threshold n (submit run key true)).0 in
    let h = held_phase hmac secret threshold n d run key f in
    (
      first_call_suspends hmac secret threshold n d run key do_effect resume_to_approved w f,
      resumed_call hmac secret threshold n1 d1 run key do_effect resume_to_approved payload w h,
      resumed_phase hmac secret threshold n1 d1 run key (resume_to_approved payload) h,
    )
