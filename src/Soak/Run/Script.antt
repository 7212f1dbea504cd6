-- ===== src/Soak/Run/Script.antt =====
-- The parts of a run's script, at a run that meets no fault: from the phases that a part expects it
-- gets the verdicts that it expects.
use soundgate_paper.Node.Auth.{Digest}
use soundgate_paper.Prelude.{
  ℕ, String, ◌<>◌, ◌≡◌, refl, ◌∙◌, ap, true, false, none, some, List, [], ◌∷◌, arith, All, contains,
  if◌then◌else◌, string_eq, option_eq, pair_eq, eq_iff, map,
}
use soundgate_paper.Wire.{Reply, submit, cancel, close, Server}
use soundgate_paper.Gate.Phase.{
  Phase, fresh, held, done, denied, fenced, decide_verdict, decide_next,
}
use soundgate_paper.Node.Defs.{from_admission}
use soundgate_paper.Soak.Worker.{
  World, Choice, approve, reject, leave, expect, expect_call, decision,
}
use soundgate_paper.Soak.Run.{
  submit_free, approve_key, reject_key, decide_key, submit_gated, late_approvals, cancel_run,
}
use soundgate_paper.Soak.Run.Quiet.{
  gate, Sim, same-Sim, update, answered-Sim, expected-Sim, submit-Sim, decide-Sim, decided,
  cancelled, closed,
}

-- Keys that are all different.
abbrev pub AllDifferent : List String → Type 0
AllDifferent [] = Unit
AllDifferent (k ∷ ks) = (contains ks k ≡ false) × AllDifferent ks

-- Keys that are all in one phase.
abbrev pub AllIn : Phase → (String → Phase) → List String → Type 0
AllIn p φ = All (λ k. φ k ≡ p)

module _ (hmac : Digest) (secret : String) (threshold : ℕ) (randrange : ℕ → ℕ) (run : String)
    (r0 : ℕ) where
  abbrev pub S : Server
  S = gate hmac secret threshold randrange run

  abbrev pub Good : (String → Phase) → World S → Type 0
  Good = Sim hmac secret threshold randrange run r0

  abbrev put_phase : String → Phase → (String → Phase) → String → Phase
  put_phase = update hmac secret threshold randrange run r0

  -- A change at one key leaves the others in their phase.
  AllIn-put_phase :
      (p q : Phase) (φ : String → Phase) (k : String) (ks : List String)
      → contains ks k ≡ false
      → AllIn p φ ks
      → AllIn p (put_phase k q φ) ks
  unfolding contains
  AllIn-put_phase p q φ k [] new h = tt
  AllIn-put_phase p q φ k (j ∷ ks) new h =
      (ground (arith, h.0, eq_iff k j, eq_iff j k), AllIn-put_phase p q φ k ks (ground arith) h.1)

  pub with_phases :
      (φ ψ : String → Phase) (w : World S) → ((j : String) → φ j ≡ ψ j) → Good φ w → Good ψ w
  with_phases φ ψ w e s = record {
    durable = s.durable;
    phases = λ k. s.phases k ∙ e k;
    quiet = s.quiet;
    steady = s.steady;
    matched = s.matched;
  }

  pub submit_free-Good :
      (ks : List String) (φ : String → Phase) (w : World S)
      → AllDifferent ks
      → AllIn fresh φ ks
      → Good φ w
      → Good
          (λ j. if contains ks j then done else φ j)
          (submit_free S hmac secret randrange run ks w)
  unfolding submit_free contains
  submit_free-Good [] φ w ad f s = s
  submit_free-Good (k ∷ ks) φ w ad f s =
      with_phases _ _ _ (λ j. ground (arith, eq_iff k j))
        (submit_free-Good ks (put_phase k done φ) _ ad.1
          (AllIn-put_phase fresh done φ k ks ad.0 f.1)
          (submit-Sim hmac secret threshold randrange run r0 φ fresh k false ("submit " <> k) w f.0
            s))

  approve-Good :
      (φ : String → Phase) (k : String) (w : World S)
      → φ k ≡ held
      → Good φ w
      → Good (put_phase k done φ) (approve_key S hmac secret randrange run r0 k w)
  unfolding approve_key expect
  approve-Good φ k w e s =
      let (s1, reply) =
        answered-Sim hmac secret threshold randrange run r0 φ (put_phase k done φ)
          (decision S hmac secret randrange run k true) (some k) Reply.release w
          (λ n d ph.
            let (reply, next) = decided hmac secret threshold randrange run r0 φ k true n d ph in
            (
              reply ∙ ap (λ q. from_admission (decide_verdict q true)) e,
              λ j. next j ∙ ap (λ q. put_phase k (decide_next q true) φ j) e,
            ))
          s in
      rw reply s1

  reject-Good :
      (φ : String → Phase) (k : String) (w : World S)
      → φ k ≡ held
      → Good φ w
      → Good (put_phase k denied φ) (reject_key S hmac secret randrange run k w)
  unfolding reject_key
  reject-Good φ k w e s =
      with_phases _ _ _ (λ j. ground arith)
        (submit-Sim hmac secret threshold randrange run r0 (put_phase k denied φ) denied k false
          ("resubmit rejected " <> k) _ (ground (arith, eq_iff k k))
          (decide-Sim hmac secret threshold randrange run r0 φ held k false ("reject " <> k) w e s))

  -- The phase in which a gated key is left.
  abbrev settled : Choice → Phase
  settled approve = done
  settled reject = denied
  settled leave = held

  decide_key-Good :
      (φ : String → Phase) (k : String) (c : Choice) (w : World S)
      → φ k ≡ held
      → Good φ w
      → Good (put_phase k (settled c) φ) (decide_key S hmac secret randrange run r0 k c w)
  unfolding decide_key
  decide_key-Good φ k approve w e s = approve-Good φ k w e s
  decide_key-Good φ k reject w e s = reject-Good φ k w e s
  decide_key-Good φ k leave w e s = with_phases _ _ _ (λ j. ground (arith, eq_iff k j, e)) s

  pub submit_gated-Good :
      (ks : List (String × Choice)) (φ : String → Phase) (w : World S)
      → AllDifferent (map (λ (g : String × Choice). g.0) ks)
      → AllIn fresh φ (map (λ (g : String × Choice). g.0) ks)
      → Good φ w
      → (ψ : String → Phase) × Good ψ (submit_gated S hmac secret randrange run r0 ks w)
  unfolding submit_gated
  submit_gated-Good [] φ w ad f s = (φ, s)
  submit_gated-Good ((k, c) ∷ ks) φ w ad f s =
      let names = map (λ (g : String × Choice). g.0) ks in
      let ψ = put_phase k held φ in
      let s1 =
        submit-Sim hmac secret threshold randrange run r0 φ fresh k true ("hold " <> k) w f.0 s in
      submit_gated-Good ks (put_phase k (settled c) ψ) _ ad.1
        (AllIn-put_phase fresh (settled c) ψ k names ad.0
          (AllIn-put_phase fresh held φ k names ad.0 f.1))
        (decide_key-Good ψ k c _ (ground (arith, eq_iff k k)) s1)

  abbrev pub all_fenced : String → Phase
  all_fenced j = fenced

  late_approvals-Good :
      (ks : List String) (w : World S)
      → Good all_fenced w
      → Good all_fenced (late_approvals S hmac secret randrange run ks w)
  unfolding late_approvals
  late_approvals-Good [] w s = s
  late_approvals-Good (k ∷ ks) w s = late_approvals-Good ks _ (
      with_phases _ _ _ (λ j. ground arith)
        (decide-Sim hmac secret threshold randrange run r0 all_fenced fenced k true
          ("late approve " <> k) w refl s))

  pub refused-Good :
      (k what : String) (w : World S)
      → Good all_fenced w
      → Good all_fenced (
          expect_call S hmac secret randrange run
            (submit run k false)
            (some k)
            Reply.refused_cancelled
            what
            w)
  refused-Good k what w s =
      with_phases _ _ _ (λ j. ground arith)
        (submit-Sim hmac secret threshold randrange run r0 all_fenced fenced k false what w refl s)

  pub cancel_run-Good :
      (ks : List String) (φ : String → Phase) (w : World S)
      → Good φ w
      → Good all_fenced (cancel_run S hmac secret randrange run ks w)
  unfolding cancel_run
  cancel_run-Good ks φ w s =
      same-Sim hmac secret threshold randrange run r0 _
        (late_approvals-Good ks _ (
          refused-Good "zombie" "zombie submit" _ (
            expected-Sim hmac secret threshold randrange run r0 φ all_fenced (cancel run) none
              Reply.ack "cancel" w refl (cancelled hmac secret threshold randrange run r0 φ) s)))
        refl refl refl refl

  pub close-Good :
      (φ : String → Phase) (w : World S)
      → Good φ w
      → Good all_fenced
          (expect_call S hmac secret randrange run (close run) none Reply.ack "close" w)
  close-Good φ w s =
      expected-Sim hmac secret threshold randrange run r0 φ all_fenced (close run) none Reply.ack
        "close" w refl (closed hmac secret threshold randrange run r0 φ) s
