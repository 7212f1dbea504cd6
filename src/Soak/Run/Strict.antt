-- ===== src/Soak/Run/Strict.antt =====
-- A run that meets no fault, against the gate server: every verdict is the expected one, whatever
-- other runs do in between.
use mathlib.Core.Bool.{false≢true}
use soundgate_paper.Node.Auth.{Digest}
use soundgate_paper.Node.Auth.{check_mac}
use soundgate_paper.Prelude.{
  ℕ, String, ◌≡◌, refl, ◌∙◌, inl, inr, Bool-cases, true, false, some, List, [], ◌∷◌, arith, All,
  contains, if◌then◌else◌, string_eq, ◌<>◌, eq_iff, map,
}
use soundgate_paper.Wire.{Server}
use soundgate_paper.Gate.Phase.{Phase, fresh, done, fenced, phase}
use soundgate_paper.Node.Defs.{Node}
use soundgate_paper.Node.Invariant.{IsDurable}
use soundgate_paper.Node.Safe.{server-IsSafe}
use soundgate_paper.Soak.Shared.{Stats}
use soundgate_paper.Soak.Worker.{World, Fault, Choice, Plan}
use soundgate_paper.Soak.Run.{pending, strict_all, finish, play, work}
use soundgate_paper.Soak.Run.Safe.{play-Ok, start_world, start-Ok}
use soundgate_paper.Soak.Run.Quiet.{IsQuiet, gate, Sim, submit-Sim}
use soundgate_paper.Soak.Run.Script.{
  AllDifferent, with_phases, submit_free-Good, submit_gated-Good, cancel_run-Good, refused-Good,
  close-Good,
}

abbrev pub gated_keys : Plan → List String
gated_keys p = map (λ (g : String × Choice). g.0) p.gated

-- A plan whose keys are all different, and which replays one of the free keys.
pub record IsPlan (p : Plan) : Type 0 where
  pub free_different : AllDifferent (p.first ∷ p.more)
  pub gated_different : AllDifferent (gated_keys p)
  pub apart : All (λ k. contains (p.first ∷ p.more) k ≡ false) (gated_keys p)
  pub replays_free : contains (p.first ∷ p.more) p.replayed ≡ true

All-imp {ℓ κ λ'} :
    {A : Type ℓ} (P : A → Type κ) (Q : A → Type λ') (xs : List A)
    → ((x : A) → P x → Q x)
    → All P xs
    → All Q xs
All-imp P Q [] f h = tt
All-imp P Q (x ∷ xs) f h = (f x h.0, All-imp P Q xs f h.1)

all_units : (ks : List String) → All (λ k. Unit {0}) ks
all_units [] = tt
all_units (k ∷ ks) = (tt, all_units ks)

-- The phases once the free keys are released.
abbrev free_released : Plan → String → Phase
free_released p j = if contains (p.first ∷ p.more) j then done else fresh

module _ (hmac : Digest) (secret : String) (threshold : ℕ) (randrange : ℕ → ℕ) (run : String) where
  abbrev soaked : Server
  soaked = gate hmac secret threshold randrange run

  play-Good :
      (p : Plan) (w : World soaked)
      → IsPlan p
      → Sim hmac secret threshold randrange run w.reconnects (λ j. fresh) w
      → Sim hmac secret threshold randrange run w.reconnects
          (λ j. fenced)
          (play soaked hmac secret randrange run p w)
  unfolding play
  play-Good p w ok s =
      let r0 = w.reconnects in
      let s1 =
        submit_free-Good hmac secret threshold randrange run r0 (p.first ∷ p.more) (λ j. fresh) w
          ok.free_different
          (All-imp (λ k. Unit {0}) (λ k. fresh ≡ fresh) (p.first ∷ p.more) (λ k h. refl)
            (all_units (p.first ∷ p.more)))
          s in
      let s2 =
        with_phases hmac secret threshold randrange run r0 _ (free_released p) _
          (λ j. ground (arith, eq_iff p.replayed j, ok.replays_free))
          (submit-Sim hmac secret threshold randrange run r0 (free_released p) done p.replayed false
            ("replay " <> p.replayed) _ (rw ok.replays_free) s1) in
      let (ψ, s3) =
        submit_gated-Good hmac secret threshold randrange run r0 p.gated (free_released p) _
          ok.gated_different (All-imp _ _ (gated_keys p) (λ k new. rw new) ok.apart) s2 in
      refused-Good hmac secret threshold randrange run r0 p.first "submit after close" _
        (elim (Bool-cases p.cancels) [
          | inl cancels ↦ rw cancels (
              close-Good hmac secret threshold randrange run r0 (λ j. fenced) _
                (cancel_run-Good hmac secret threshold randrange run r0
                  (pending soaked hmac secret randrange run p.gated) ψ _ s3))
          | inr goes_on ↦ rw goes_on (close-Good hmac secret threshold randrange run r0 ψ _ s3)
        ])

  -- Without a reconnect and without a mismatch the verdict adds no violation.
  finish-quiet :
      (start : ℕ) (w : World soaked)
      → w.reconnects ≡ start
      → w.bad ≡ []
      → ((finish soaked hmac secret randrange run start w).violations ≡ w.stats.violations)
        × ((finish soaked hmac secret randrange run start w).violation_count
            ≡ w.stats.violation_count)
  unfolding finish strict_all
  finish-quiet start w e b = rw (e, b) (ground arith)

  -- A run with a fresh name and different keys, which meets no fault, on an authenticating gate whose
  -- secret it holds: it adds no violation of any kind, neither by the oracles nor by an unexpected
  -- verdict, and it leaves the gate fenced for all its keys. Other runs may act in between.
  pub work_strict :
      (p : Plan) (schedule : List (List Fault)) (n : Node) (reconnects : ℕ) (st : Stats)
      → IsPlan p
      → IsQuiet run schedule
      → IsDurable n
      → ((k : String) → phase n.gate (run, k) ≡ fresh)
      → let (n', reconnects', st') =
          work soaked hmac secret randrange run p schedule n reconnects st in
        (st'.violations ≡ st.violations)
        × (st'.violation_count ≡ st.violation_count)
        × (reconnects' ≡ reconnects)
        × ((k : String) → phase n'.gate (run, k) ≡ fenced)
  unfolding work
  work_strict p schedule n reconnects st ok quiet d new =
      let safe = server-IsSafe (check_mac hmac (some secret)) threshold in
      let begin : World soaked =
        start_world soaked safe hmac secret randrange n schedule reconnects st in
      let s =
        play-Good p begin ok
          (record { durable = d; phases = new; quiet = quiet; steady = refl; matched = refl }) in
      let a =
        play-Ok soaked safe hmac secret randrange run st.violations st.violation_count false p begin
          (start-Ok soaked safe hmac secret randrange run n schedule reconnects st false d
            (λ h. absurd (false≢true h))) in
      let (vs, c) =
        finish-quiet reconnects (play soaked hmac secret randrange run p begin) s.steady
          s.matched in
      (vs ∙ a.same_violations, c ∙ a.same_count, s.steady, s.phases)
