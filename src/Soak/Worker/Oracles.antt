-- ===== src/Soak/Worker/Oracles.antt =====
-- Against a safe gate the oracles never fire: what the worker remembers of its run agrees with what
-- is dead at the gate, through every fault and retry.
use mathlib.Core.Bool.{false≢true}
use soundgate_paper.Node.Auth.{Digest}
use soundgate_paper.Prelude.{
  ℕ, ◌+◌, String, ◌≡◌, refl, sym, ◌∙◌, inl, inr, Bool-cases, ◌&&◌, Bool, true, false, Option, none,
  some, List, [], ◌∷◌, All, arith, contains, contains-insert, string_eq, option_eq, pair_eq, eq_iff,
}
use soundgate_paper.Wire.{
  Request, Reply, submit, decide, cancel, close, ping, is_release, is_rejected, is_ack, is_about,
  is_fence, Server,
}
use soundgate_paper.Wire.Laws.{IsSafe}
use soundgate_paper.Soak.Shared.{Stats, Violation}
use soundgate_paper.Soak.Shared
use soundgate_paper.Soak.Worker.{
  World, Fault, unreached, unanswered, crashed, others, is_run_op, suffer, suffer_all, retries,
  watch, call, expect, expect_call, same_reply,
}

-- The calls that the worker makes: an effect's key goes with its request.
abbrev pub Fitting : String → Request → Option String → Type 0
Fitting run (submit r key needs) k = (r ≡ run) × (k ≡ some key)
Fitting run (decide r key approved mac) k = (r ≡ run) × (k ≡ some key)
Fitting run (cancel r) k = (r ≡ run) × (k ≡ none)
Fitting run (close r) k = (r ≡ run) × (k ≡ none)
Fitting run ping k = ⊥

refute : (b : Bool) → (b ≡ true → false ≡ true) → b ≡ false
refute b h = ground (arith, h)

and-false : (b : Bool) → (b && false) ≡ false
and-false b = ground arith

and-right : (a b : Bool) → (a && b) ≡ true → b ≡ true
and-right a b h = ground arith

module _ (S : Server) {Inv : S.State → Type 0} {dead : S.State → String × String → Bool}
    (safe : IsSafe S Inv dead) (hmac : Digest) (secret : String) (randrange : ℕ → ℕ) (run : String)
    (vs : List Violation) (c : ℕ) (honest : Bool) where
  pub record Agrees (w : World S) : Type 0 where
    pub inv : Inv w.server
    pub released_dead :
        (k : String) → contains w.released (some k) ≡ true → dead w.server (run, k) ≡ true
    pub rejected_dead :
        (k : String) → contains w.rejected (some k) ≡ true → dead w.server (run, k) ≡ true
    pub fenced_dead : w.fenced ≡ true → (k : String) → dead w.server (run, k) ≡ true
    -- If the sample was of dead identities at first.
    pub sampled : honest ≡ true → All (λ i. dead w.server i ≡ true) w.stats.reservoir
    pub same_violations : w.stats.violations ≡ vs
    pub same_count : w.stats.violation_count ≡ c

  all_served :
      (is : List (String × String)) (s : S.State) (q : Request)
      → Inv s
      → All (λ i. dead s i ≡ true) is
      → All (λ i. dead (S.call s q).0 i ≡ true) is
  all_served [] s q inv h = tt
  all_served (i ∷ is) s q inv h = (safe.dead_stays s q i inv h.0, all_served is s q inv h.1)

  all_restarted :
      (is : List (String × String)) (s : S.State)
      → Inv s
      → All (λ i. dead s i ≡ true) is
      → All (λ i. dead (S.restart s) i ≡ true) is
  all_restarted [] s inv h = tt
  all_restarted (i ∷ is) s inv h = (safe.dead_restarts s i inv h.0, all_restarted is s inv h.1)

  -- Any request of anybody keeps the agreement.
  served :
      (w : World S) (q : Request) → Agrees w → Agrees (record w { server = (S.call w.server q).0 })
  served w q a = record {
    inv = safe.call-Inv w.server q a.inv;
    released_dead = λ k h. safe.dead_stays w.server q (run, k) a.inv (a.released_dead k h);
    rejected_dead = λ k h. safe.dead_stays w.server q (run, k) a.inv (a.rejected_dead k h);
    fenced_dead = λ h k. safe.dead_stays w.server q (run, k) a.inv (a.fenced_dead h k);
    sampled = λ h. all_served w.stats.reservoir w.server q a.inv (a.sampled h);
    same_violations = a.same_violations;
    same_count = a.same_count;
  }

  restarted : (w : World S) → Agrees w → Agrees (record w { server = S.restart w.server })
  restarted w a = record {
    inv = safe.restart-Inv w.server a.inv;
    released_dead = λ k h. safe.dead_restarts w.server (run, k) a.inv (a.released_dead k h);
    rejected_dead = λ k h. safe.dead_restarts w.server (run, k) a.inv (a.rejected_dead k h);
    fenced_dead = λ h k. safe.dead_restarts w.server (run, k) a.inv (a.fenced_dead h k);
    sampled = λ h. all_restarted w.stats.reservoir w.server a.inv (a.sampled h);
    same_violations = a.same_violations;
    same_count = a.same_count;
  }

  -- A change of the variables that the agreement does not read.
  pub same_view :
      {w : World S} (v : World S)
      → Agrees w
      → v.server ≡ w.server
      → v.released ≡ w.released
      → v.rejected ≡ w.rejected
      → v.fenced ≡ w.fenced
      → v.stats.reservoir ≡ w.stats.reservoir
      → v.stats.violations ≡ w.stats.violations
      → v.stats.violation_count ≡ w.stats.violation_count
      → Agrees v
  same_view v a s r j f e vi co = record {
    inv = rw s a.inv;
    released_dead = λ k h. rw s (a.released_dead k (rw r at h));
    rejected_dead = λ k h. rw s (a.rejected_dead k (rw j at h));
    fenced_dead = λ h k. rw s (a.fenced_dead (rw f at h) k);
    sampled = λ h. rw (s, e) (a.sampled h);
    same_violations = rw vi a.same_violations;
    same_count = rw co a.same_count;
  }

  suffer-Agrees :
      (req : Request) (f : Fault) (w : World S)
      → Agrees w
      → Agrees (suffer S hmac secret randrange run req f w)
  unfolding suffer
  suffer-Agrees req unreached w a = same_view _ a refl refl refl refl refl refl refl
  suffer-Agrees req unanswered w a = same_view _ (served w req a) refl refl refl refl refl refl refl
  suffer-Agrees req crashed w a = same_view _ (restarted w a) refl refl refl refl refl refl refl
  suffer-Agrees req (others q) w a = served w q a

  suffer_all-Agrees :
      (req : Request) (fs : List Fault) (w : World S)
      → Agrees w
      → Agrees (suffer_all S hmac secret randrange run req fs w)
  unfolding suffer_all
  suffer_all-Agrees req [] w a = a
  suffer_all-Agrees req (f ∷ fs) w a =
      suffer_all-Agrees req fs (suffer S hmac secret randrange run req f w)
        (suffer-Agrees req f w a)

  retries-Agrees :
      (req : Request) (sch : List (List Fault)) (w : World S)
      → Agrees w
      → Agrees (retries S hmac secret randrange run req sch w)
  unfolding retries
  retries-Agrees req [] w a = a
  retries-Agrees req (fs ∷ rest) w a =
      suffer_all-Agrees req fs (record w { schedule = rest })
        (same_view _ a refl refl refl refl refl refl refl)

  -- The world in which a reply is watched.
  abbrev answered : Request → World S → World S
  answered req w = record w {
    server = (S.call w.server req).0;
    stats = record w.stats { ops = w.stats.ops + 1 };
  }

  abbrev watched : Request → Option String → World S → World S
  watched req key w =
      watch S hmac secret randrange run req key (S.call w.server req).1 (answered req w)

  answered-Agrees : (req : Request) (w : World S) → Agrees w → Agrees (answered req w)
  answered-Agrees req w a = same_view _ (served w req a) refl refl refl refl refl refl refl

  module _ (req : Request) (k : String) (w : World S) (a : Agrees w)
      (about : is_about req (run, k) ≡ true) where
    released-Agrees : is_release (S.call w.server req).1 ≡ true → Agrees (watched req (some k) w)
    unfolding watch Shared.released
    released-Agrees rel =
        let live = safe.release_live w.server req (run, k) a.inv about rel in
        let new = refute (contains w.released (some k)) (λ h. sym live ∙ a.released_dead k h) in
        let open_key =
          refute (contains w.rejected (some k)) (λ h. sym live ∙ a.rejected_dead k h) in
        let open_run = refute w.fenced (λ h. sym live ∙ a.fenced_dead h k) in
        let b = served w req a in
        rw (rel, new, open_key, open_run)
          (record {
            inv = b.inv;
            released_dead = λ j h. ground (
              arith,
              contains-insert (some k) (some j) w.released,
              eq_iff k j,
              safe.release_kills w.server req (run, k) a.inv about rel,
              b.released_dead j,
            );
            rejected_dead = b.rejected_dead;
            fenced_dead = λ h j. absurd (false≢true h);
            sampled = λ h.
                Shared.released-All randrange (λ i. dead (S.call w.server req).0 i ≡ true) run k
                  (record w.stats { ops = w.stats.ops + 1 }) (b.sampled h)
                  (safe.release_kills w.server req (run, k) a.inv about rel);
            same_violations = a.same_violations;
            same_count = a.same_count;
          })

    effect-Agrees : is_run_op req ≡ false → Agrees (watched req (some k) w)
    unfolding watch
    effect-Agrees plain = elim (Bool-cases (is_release (S.call w.server req).1)) [
      | inl rel ↦ released-Agrees rel
      | inr kept ↦ elim (Bool-cases (is_rejected (S.call w.server req).1)) [
        | inl rej ↦
            let b = answered-Agrees req w a in
            rw (kept, rej)
              (record {
                inv = b.inv;
                released_dead = b.released_dead;
                rejected_dead = λ j h. ground (
                  arith,
                  contains-insert (some k) (some j) w.rejected,
                  eq_iff k j,
                  safe.reject_kills w.server req (run, k) a.inv about rej,
                  b.rejected_dead j,
                );
                fenced_dead = b.fenced_dead;
                sampled = b.sampled;
                same_violations = a.same_violations;
                same_count = a.same_count;
              })
        | inr other ↦ rw (kept, other, plain) (answered-Agrees req w a)
      ]
    ]

  module _ (req : Request) (w : World S) (a : Agrees w) (fences : is_fence req run ≡ true)
      (fence_op : (i : String × String) → is_about req i ≡ false) where
    fence-Agrees : Agrees (watched req none w)
    unfolding watch
    fence-Agrees = elim (Bool-cases (is_release (S.call w.server req).1)) [
      | inl rel ↦ let (i, about) = safe.release_names w.server req a.inv rel in cc (fence_op i)
      | inr kept ↦ elim (Bool-cases (is_run_op req && is_ack (S.call w.server req).1)) [
        | inl acked ↦
            let b = answered-Agrees req w a in
            rw (kept, and-false (is_rejected (S.call w.server req).1), acked)
              (record {
                inv = b.inv;
                released_dead = b.released_dead;
                rejected_dead = b.rejected_dead;
                fenced_dead = λ h k.
                    safe.fence_kills w.server req (run, k) a.inv fences (and-right _ _ acked);
                sampled = b.sampled;
                same_violations = a.same_violations;
                same_count = a.same_count;
              })
        | inr other ↦
            rw (kept, and-false (is_rejected (S.call w.server req).1), other)
              (answered-Agrees req w a)
      ]
    ]

  watch-Agrees :
      (req : Request) (key : Option String) (w : World S)
      → Fitting run req key
      → Agrees w
      → Agrees (watched req key w)
  watch-Agrees (submit r k needs) key w fits a = rw fits.1 (
      effect-Agrees (submit r k needs) k w a (ground (arith, eq_iff r run, eq_iff k k, fits.0))
        refl)
  watch-Agrees (decide r k approved mac) key w fits a = rw fits.1 (
      effect-Agrees (decide r k approved mac) k w a
        (ground (arith, eq_iff r run, eq_iff k k, fits.0)) refl)
  watch-Agrees (cancel r) key w fits a =
      rw fits.1 (fence-Agrees (cancel r) w a ((eq_iff r run).1 fits.0) (λ i. refl))
  watch-Agrees (close r) key w fits a =
      rw fits.1 (fence-Agrees (close r) w a ((eq_iff r run).1 fits.0) (λ i. refl))
  watch-Agrees ping key w fits a = absurd fits

  -- Every fitting call keeps the agreement, and so adds no violation.
  pub call-Agrees :
      (req : Request) (key : Option String) (w : World S)
      → Fitting run req key
      → Agrees w
      → Agrees (call S hmac secret randrange run req key w).0
  unfolding call
  call-Agrees req key w fits a =
      watch-Agrees req key (retries S hmac secret randrange run req w.schedule w) fits
        (retries-Agrees req w.schedule w a)

  pub expect-Agrees :
      (got want : Reply) (what : String) (w : World S)
      → Agrees w
      → Agrees (expect S hmac secret randrange run got want what w)
  unfolding expect
  expect-Agrees got want what w a = elim (Bool-cases (same_reply got want)) [
    | inl same ↦ rw same a
    | inr differs ↦ rw differs (same_view _ a refl refl refl refl refl refl refl)
  ]

  pub expect_call-Agrees :
      (req : Request) (key : Option String) (want : Reply) (what : String) (w : World S)
      → Fitting run req key
      → Agrees w
      → Agrees (expect_call S hmac secret randrange run req key want what w)
  unfolding expect_call
  expect_call-Agrees req key want what w fits a =
      expect-Agrees _ want what _ (call-Agrees req key w fits a)
