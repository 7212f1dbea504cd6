-- ===== src/Soak/Run/Safe.antt =====
-- The whole script of a run keeps the agreement with a safe gate, so no oracle fires in it.
use mathlib.Core.Bool.{false≢true}
use soundgate_paper.Node.Auth.{Digest}
use soundgate_paper.Prelude.{
  ℕ, String, ◌<>◌, ◌≡◌, refl, ◌∙◌, ap, inl, inr, Bool-cases, Bool, true, false, ◌&&◌, not, none,
  some, List, [], ◌∷◌, arith, All, contains, count_if, count_if-append, ltb, string_eq, option_eq,
}
use soundgate_paper.Wire.{Reply, submit, cancel, close, Server}
use soundgate_paper.Wire.Laws.{IsSafe}
use soundgate_paper.Soak.Shared.{Stats, Violation, is_oracle, violation, strict}
use soundgate_paper.Soak.Worker.{
  World, Fault, Mismatch, Choice, approve, reject, leave, Plan, same_reply, call, expect_call,
  decision,
}
use soundgate_paper.Soak.Worker.Oracles.{
  Agrees, same_view, call-Agrees, expect-Agrees, expect_call-Agrees,
}
use soundgate_paper.Soak.Run.{
  submit_free, approve_key, decide_key, submit_gated, pending, late_approvals, cancel_run,
  strict_all, finish, play, work, worker,
}

module _ (S : Server) {Inv : S.State → Type 0} {dead : S.State → String × String → Bool}
    (safe : IsSafe S Inv dead) (hmac : Digest) (secret : String) (randrange : ℕ → ℕ) (run : String)
    (vs : List Violation) (c : ℕ) (honest : Bool) where
  abbrev pub Ok : World S → Type 0
  Ok = Agrees S safe hmac secret randrange run vs c honest

  checked-Ok :
      (k : String) (needs : Bool) (want : Reply) (what : String) (w : World S)
      → Ok w
      → Ok (expect_call S hmac secret randrange run (submit run k needs) (some k) want what w)
  checked-Ok k needs want what w a =
      expect_call-Agrees S safe hmac secret randrange run vs c honest (submit run k needs) (some k)
        want what w (refl, refl) a

  decided-Ok :
      (k : String) (approved : Bool) (want : Reply) (what : String) (w : World S)
      → Ok w
      → Ok (
          expect_call S hmac secret randrange run
            (decision S hmac secret randrange run k approved)
            (some k)
            want
            what
            w)
  unfolding decision
  decided-Ok k approved want what w a =
      expect_call-Agrees S safe hmac secret randrange run vs c honest
        (decision S hmac secret randrange run k approved) (some k) want what w (refl, refl) a

  submit_free-Ok :
      (ks : List String) (w : World S) → Ok w → Ok (submit_free S hmac secret randrange run ks w)
  unfolding submit_free
  submit_free-Ok [] w a = a
  submit_free-Ok (k ∷ ks) w a =
      submit_free-Ok ks _ (checked-Ok k false Reply.release ("submit " <> k) w a)

  approve_key-Ok :
      (start : ℕ) (k : String) (w : World S)
      → Ok w
      → Ok (approve_key S hmac secret randrange run start k w)
  unfolding approve_key decision
  approve_key-Ok start k w a =
      let q = decision S hmac secret randrange run k true in
      let w1 = (call S hmac secret randrange run q (some k) w).0 in
      let v = (call S hmac secret randrange run q (some k) w).1 in
      let a1 =
        call-Agrees S safe hmac secret randrange run vs c honest q (some k) w (refl, refl) a in
      elim (Bool-cases (
        same_reply v Reply.refused_duplicate
        && (ltb start w1.reconnects && not (contains w1.released (some k))))) [
          | inl lost ↦ rw lost (
              decided-Ok k true Reply.release ("approve " <> k) _ (
                call-Agrees S safe hmac secret randrange run vs c honest (submit run k true)
                  (some k) w1 (refl, refl) a1))
          | inr held ↦ rw held (
              expect-Agrees S safe hmac secret randrange run vs c honest v Reply.release
                ("approve " <> k) w1 a1)
        ]

  decide_key-Ok :
      (start : ℕ) (k : String) (ch : Choice) (w : World S)
      → Ok w
      → Ok (decide_key S hmac secret randrange run start k ch w)
  unfolding decide_key
  decide_key-Ok start k approve w a = approve_key-Ok start k w a
  decide_key-Ok start k reject w a =
      checked-Ok k false Reply.refused_rejected ("resubmit rejected " <> k) _
        (decided-Ok k false Reply.refused_rejected ("reject " <> k) w a)
  decide_key-Ok start k leave w a = a

  submit_gated-Ok :
      (start : ℕ) (ks : List (String × Choice)) (w : World S)
      → Ok w
      → Ok (submit_gated S hmac secret randrange run start ks w)
  unfolding submit_gated
  submit_gated-Ok start [] w a = a
  submit_gated-Ok start ((k, ch) ∷ ks) w a =
      submit_gated-Ok start ks _
        (decide_key-Ok start k ch _ (checked-Ok k true Reply.held_for_approval ("hold " <> k) w a))

  late_approvals-Ok :
      (ks : List String) (w : World S) → Ok w → Ok (late_approvals S hmac secret randrange run ks w)
  unfolding late_approvals
  late_approvals-Ok [] w a = a
  late_approvals-Ok (k ∷ ks) w a =
      late_approvals-Ok ks _ (decided-Ok k true Reply.refused_cancelled ("late approve " <> k) w a)

  cancel_run-Ok :
      (ks : List String) (w : World S) → Ok w → Ok (cancel_run S hmac secret randrange run ks w)
  unfolding cancel_run
  cancel_run-Ok ks w a =
      same_view S safe hmac secret randrange run vs c honest _
        (late_approvals-Ok ks _ (
          checked-Ok "zombie" false Reply.refused_cancelled "zombie submit" _ (
            expect_call-Agrees S safe hmac secret randrange run vs c honest (cancel run) none
              Reply.ack "cancel" w (refl, refl) a)))
        refl refl refl refl refl refl refl

  pub play-Ok : (p : Plan) (w : World S) → Ok w → Ok (play S hmac secret randrange run p w)
  unfolding play
  play-Ok p w a =
      let a1 = submit_free-Ok (p.first ∷ p.more) w a in
      let a2 = checked-Ok p.replayed false Reply.refused_duplicate ("replay " <> p.replayed) _ a1 in
      let a3 = submit_gated-Ok w.reconnects p.gated _ a2 in
      checked-Ok p.first false Reply.refused_cancelled "submit after close" _ (
        expect_call-Agrees S safe hmac secret randrange run vs c honest (close run) none Reply.ack
          "close" _ (refl, refl)
          (elim (Bool-cases p.cancels) [
            | inl cancels ↦
                rw cancels (cancel_run-Ok (pending S hmac secret randrange run p.gated) _ a3)
            | inr goes_on ↦ rw goes_on a3
          ]))

abbrev pub oracle_count : Stats → ℕ
oracle_count st = count_if is_oracle st.violations

strict-oracle_count :
    (m : Mismatch) (st : Stats)
    → oracle_count (violation (strict m.what m.got m.want) st) ≡ oracle_count st
unfolding violation count_if
strict-oracle_count m st =
    ground (arith, count_if-append is_oracle st.violations (strict m.what m.got m.want ∷ []))

module _ (S : Server) {Inv : S.State → Type 0} {dead : S.State → String × String → Bool}
    (safe : IsSafe S Inv dead) (hmac : Digest) (secret : String) (randrange : ℕ → ℕ) where
  strict_all-oracle_count :
      (run : String) (ms : List Mismatch) (st : Stats)
      → oracle_count (strict_all S hmac secret randrange run ms st) ≡ oracle_count st
  unfolding strict_all
  strict_all-oracle_count run [] st = refl
  strict_all-oracle_count run (m ∷ ms) st =
      strict_all-oracle_count run ms _ ∙ strict-oracle_count m st

  finish-oracle_count :
      (run : String) (start : ℕ) (w : World S)
      → oracle_count (finish S hmac secret randrange run start w) ≡ oracle_count w.stats
  unfolding finish
  finish-oracle_count run start w = elim (Bool-cases (ltb start w.reconnects)) [
    | inl restarted ↦ rw restarted
    | inr steady ↦ rw steady (strict_all-oracle_count run w.bad _)
  ]

  abbrev pub start_world : S.State → List (List Fault) → ℕ → Stats → World S
  start_world s schedule reconnects st = record {
    server = s;
    schedule = schedule;
    stats = st;
    released = [];
    rejected = [];
    fenced = false;
    reconnects = reconnects;
    bad = [];
  }

  pub start-Ok :
      (run : String) (s : S.State) (schedule : List (List Fault)) (reconnects : ℕ) (st : Stats)
      (honest : Bool)
      → Inv s
      → (honest ≡ true → All (λ i. dead s i ≡ true) st.reservoir)
      → Agrees S safe hmac secret randrange run st.violations st.violation_count honest
          (start_world s schedule reconnects st)
  unfolding contains
  start-Ok run s schedule reconnects st honest inv sampled = record {
    inv = inv;
    released_dead = λ k h. absurd (false≢true h);
    rejected_dead = λ k h. absurd (false≢true h);
    fenced_dead = λ h k. absurd (false≢true h);
    sampled = sampled;
    same_violations = refl;
    same_count = refl;
  }

  strict_all-reservoir :
      (run : String) (ms : List Mismatch) (st : Stats)
      → (strict_all S hmac secret randrange run ms st).reservoir ≡ st.reservoir
  unfolding strict_all violation
  strict_all-reservoir run [] st = refl
  strict_all-reservoir run (m ∷ ms) st = strict_all-reservoir run ms _

  finish-reservoir :
      (run : String) (start : ℕ) (w : World S)
      → (finish S hmac secret randrange run start w).reservoir ≡ w.stats.reservoir
  unfolding finish
  finish-reservoir run start w = elim (Bool-cases (ltb start w.reconnects)) [
    | inl restarted ↦ rw restarted refl
    | inr steady ↦ rw steady (strict_all-reservoir run w.bad _)
  ]

  -- What a run, or a list of runs, leaves: a good state, no more oracle violations, and a sample of
  -- dead identities if it was one before.
  abbrev Kept : Bool → S.State → Stats → Stats → Type 0
  Kept honest s' st st' =
      Inv s'
      × (oracle_count st' ≡ oracle_count st)
      × (honest ≡ true → All (λ i. dead s' i ≡ true) st'.reservoir)

  work-Kept :
      (honest : Bool) (run : String) (p : Plan) (schedule : List (List Fault)) (s : S.State)
      (reconnects : ℕ) (st : Stats)
      → Inv s
      → (honest ≡ true → All (λ i. dead s i ≡ true) st.reservoir)
      → let (s', reconnects', st') = work S hmac secret randrange run p schedule s reconnects st in
        Kept honest s' st st'
  unfolding work
  work-Kept honest run p schedule s reconnects st inv sampled =
      let begin : World S = start_world s schedule reconnects st in
      let after = play S hmac secret randrange run p begin in
      let a =
        play-Ok S safe hmac secret randrange run st.violations st.violation_count honest p begin
          (start-Ok run s schedule reconnects st honest inv sampled) in
      (
        a.inv,
        finish-oracle_count run reconnects after ∙ ap (count_if is_oracle) a.same_violations,
        λ h. rw (finish-reservoir run reconnects after) (a.sampled h),
      )

  worker-Kept :
      (honest : Bool) (runs : List (String × Plan × List (List Fault))) (s : S.State)
      (reconnects : ℕ) (st : Stats)
      → Inv s
      → (honest ≡ true → All (λ i. dead s i ≡ true) st.reservoir)
      → let (s', reconnects', st') = worker S hmac secret randrange runs s reconnects st in
        Kept honest s' st st'
  unfolding worker
  worker-Kept honest [] s reconnects st inv sampled = (inv, refl, sampled)
  worker-Kept honest ((run, p, schedule) ∷ runs) s reconnects st inv sampled =
      let (inv', same, dead') = work-Kept honest run p schedule s reconnects st inv sampled in
      let (inv'', same', dead'') = worker-Kept honest runs _ _ _ inv' dead' in
      (inv'', same' ∙ same, dead'')

  -- Whatever the runs, the faults and the requests of others, the soak's oracles O1, O2 and O3 never
  -- fire at a safe gate.
  pub worker_safe :
      (runs : List (String × Plan × List (List Fault))) (s : S.State) (reconnects : ℕ) (st : Stats)
      → Inv s
      → let (s', reconnects', st') = worker S hmac secret randrange runs s reconnects st in
        Inv s' × (oracle_count st' ≡ oracle_count st)
  worker_safe runs s reconnects st inv =
      let (inv', same, _) =
        worker-Kept false runs s reconnects st inv (λ h. absurd (false≢true h)) in
      (inv', same)

  -- Whatever the runs, the faults and the requests of others, the sample holds only identities that
  -- are dead at a safe gate, if it did so before.
  pub worker-sampled :
      (runs : List (String × Plan × List (List Fault))) (s : S.State) (reconnects : ℕ) (st : Stats)
      → Inv s
      → All (λ i. dead s i ≡ true) st.reservoir
      → let (s', reconnects', st') = worker S hmac secret randrange runs s reconnects st in
        Inv s' × All (λ i. dead s' i ≡ true) st'.reservoir
  worker-sampled runs s reconnects st inv sampled =
      let (inv', _, kept) = worker-Kept true runs s reconnects st inv (λ h. sampled) in
      (inv', kept refl)
