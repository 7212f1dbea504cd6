-- ===== src/Mediation/Once.antt =====
-- Over any use of a safe gate, a mediated effect is performed at most once.
use soundgate_paper.Node.Auth.{Digest}
use soundgate_paper.Prelude.{
  ℕ, ◌+◌, ◌≤◌, String, ◌≡◌, Bool, true, false, Option, none, some, List, [], ◌∷◌, arith, ==_refl,
  string_eq, pair_eq, if◌then◌else◌,
}
use soundgate_paper.Wire.{Request, Reply, is_release, is_about, submit, Server}
use soundgate_paper.Wire.Laws.{IsSafe}
use soundgate_paper.Client.{send, decide_request, roundtrip, to_line}
use soundgate_paper.Mediation.{on_release, on_submitted, mediate_no_approval, mediate_with_approval}

-- An effect that counts its own executions.
abbrev pub tick : ℕ → ℕ × Unit {0}
tick n = (n + 1, tt)

-- What happens at a gate: mediated calls of the one effect (with the human's answer, if there is
-- one yet), any other requests, and restarts.
pub data Step : Type 0 where
  no_approval : Step
  with_approval : Option Bool → Step
  request : Request → Step
  restart : Step

module _ (S : Server) (hmac : Digest) (secret : Option String) (run key : String) where
  unfoldable pub take_step : Step → S.State → ℕ → S.State × ℕ
  take_step no_approval s n = let (s', n', out) = mediate_no_approval S run key tick s n in (s', n')
  take_step (with_approval answer) s n =
      let (s', n', out) = mediate_with_approval S hmac secret run key tick (λ b. b) answer s n in
      (s', n')
  take_step (request q) s n = ((S.call s q).0, n)
  take_step restart s n = (S.restart s, n)

  unfoldable pub run_steps : List Step → S.State → ℕ → ℕ
  run_steps [] s n = n
  run_steps (st ∷ steps) s n = let (s', n') = take_step st s n in run_steps steps s' n'

module _ (S : Server) {Inv : S.State → Type 0} {dead : S.State → String × String → Bool}
    (safe : IsSafe S Inv dead) (hmac : Digest) (secret : Option String) (run key : String) where
  -- Executions so far, and whether the identity is dead, after a step.
  abbrev Good : S.State → ℕ → Type 0
  Good s n = Inv s × (n ≤ (if dead s (run, key) then 1 else 0))

  about_self : is_about (submit run key false) (run, key) ≡ true
  about_self = ==_refl {A = String × String} (run, key)

  decide-about :
      (approved : Bool) → is_about (decide_request hmac secret run key approved) (run, key) ≡ true
  unfolding decide_request
  decide-about approved = ground (arith, about_self)

  call-Good :
      (q : Request) (s : S.State) (n : ℕ)
      → is_about q (run, key) ≡ true
      → Good s n
      → Good (S.call s q).0 (if is_release (S.call s q).1 then n + 1 else n)
  call-Good q s n about g = (
    safe.call-Inv s q g.0,
    ground (
      arith,
      safe.release_live s q (run, key) g.0 about,
      safe.release_kills s q (run, key) g.0 about,
      safe.dead_stays s q (run, key) g.0,
    ),
  )

  on_release-Good :
      (r : Reply) (s : S.State) (n : ℕ)
      → Good s (if is_release r then n + 1 else n)
      → let (s', n', out) = on_release S tick (roundtrip (some (to_line r))) s n in Good s' n'
  unfolding on_release roundtrip to_line
  on_release-Good Reply.release s n g = g
  on_release-Good _ s n g = g

  on_submitted-Good :
      (r : Reply) (answer : Option Bool) (s : S.State) (n : ℕ)
      → Good s (if is_release r then n + 1 else n)
      → let (s', n', out) =
          on_submitted S hmac secret run key tick
            (λ (b : Bool). b)
            answer
            (roundtrip (some (to_line r)))
            s
            n in
        Good s' n'
  unfolding on_submitted roundtrip to_line
  on_submitted-Good Reply.release answer s n g = g
  on_submitted-Good Reply.held_for_approval none s n g = g
  on_submitted-Good Reply.held_for_approval (some approved) s n g =
      let q = decide_request hmac secret run key approved in
      on_release-Good (S.call s q).1 (S.call s q).0 n (call-Good q s n (decide-about approved) g)
  on_submitted-Good _ answer s n g = g

  step-Good :
      (st : Step) (s : S.State) (n : ℕ)
      → Good s n
      → let (s', n') = take_step S hmac secret run key st s n in Good s' n'
  unfolding take_step mediate_no_approval mediate_with_approval send
  step-Good (request q) s n g =
      (safe.call-Inv s q g.0, ground (arith, safe.dead_stays s q (run, key) g.0))
  step-Good restart s n g =
      (safe.restart-Inv s g.0, ground (arith, safe.dead_restarts s (run, key) g.0))
  step-Good no_approval s n g =
      let q : Request = submit run key false in
      on_release-Good (S.call s q).1 (S.call s q).0 n (call-Good q s n about_self g)
  step-Good (with_approval answer) s n g =
      let q : Request = submit run key true in
      on_submitted-Good (S.call s q).1 answer (S.call s q).0 n (call-Good q s n about_self g)

  run_steps-Good :
      (steps : List Step) (s : S.State) (n : ℕ)
      → Good s n
      → run_steps S hmac secret run key steps s n ≤ 1
  unfolding run_steps
  run_steps-Good [] s n g = ground (arith, g.1)
  run_steps-Good (st ∷ steps) s n g =
      let (s', n') = take_step S hmac secret run key st s n in
      run_steps-Good steps s' n' (step-Good st s n g)

  -- From any reachable state of a safe gate, whatever others request of it, however often it
  -- restarts, and whatever the humans answer, the mediated effect runs at most once.
  pub run_steps-le :
      (steps : List Step) (s : S.State) → Inv s → run_steps S hmac secret run key steps s 0 ≤ 1
  run_steps-le steps s inv = run_steps-Good steps s 0 (inv, omega arith)
