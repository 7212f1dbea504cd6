-- ===== src/MutationScore/Verdict.antt =====
-- What the status of the mutation score says of the mutants.
use soundgate_paper.Prelude.{
  ◌<>◌, Bool-cases, inl, inr, ◌+◌, ◌≡◌, refl, sym, ap, ◌∙◌, ◌↔◌, ◌≤◌, ◌≢◌, String, Bool, true,
  false, not, ◌&&◌, ◌||◌, List, [], ◌∷◌, ◌++◌, length, count_if, count_if-le, keep, any, nat_beq,
  All, arith, if◌then◌else◌,
}
use mathlib.Core.List.{append_assoc, append-nil}
use soundgate_paper.MutationScore.Text.{count, replace}
use soundgate_paper.MutationScore.Run.{
  Harness, exhaustive, loom, Mutation, is_exhaustive, Score, mutations, turn, phase1, phase2,
  fresh_score, main,
}

count_if-keep :
    (p q : Mutation → Bool) (ms : List Mutation)
    → count_if p (keep q ms) ≡ count_if (λ m. q m && p m) ms
unfolding count_if keep
count_if-keep p q [] = refl
count_if-keep p q (m ∷ ms) = ground (arith, count_if-keep p q ms)

all_counted :
    (p : Mutation → Bool) (ms : List Mutation)
    → (count_if p ms ≡ length ms) ↔ All (λ m. p m ≡ true) ms
unfolding count_if
all_counted p [] = (λ h. tt, λ h. refl)
all_counted p (m ∷ ms) =
    let (to, from) = all_counted p ms in
    let le = count_if-le p ms in
    (λ h. (ground (arith, h, le), to (ground (arith, h, le))), λ h. ground (arith, h.0, from h.1))

abbrev pub dedup_comment : String
dedup_comment =
    "        // Property 3: never release the same logical effect twice.\n"
    <> "        if self.released.contains(&id) {"

module _ (green : Harness → String → Bool) (src : String) where
  abbrev pub is_caught : Harness → Mutation → Bool
  is_caught h m = not (green h (replace src m.old m.new))

  turn_lem :
      (m : Mutation) (sc : Score)
      → let sc' = turn green src m sc in
        (sc'.exh_caught
          ≡ sc.exh_caught + (if is_exhaustive m && is_caught exhaustive m then 1 else 0))
        × (sc'.survivors ≡ sc.survivors ++ (if not (is_caught exhaustive m) then m ∷ [] else []))
        × (sc'.loom_caught ≡ sc.loom_caught)
  turn_lem m sc = (ground arith, ground (arith, append-nil sc.survivors), ground arith)

  phase1_lem :
      (ms : List Mutation) (sc : Score)
      → let sc' = phase1 green src ms sc in
        (sc'.exh_caught
          ≡ sc.exh_caught + count_if (λ m. is_exhaustive m && is_caught exhaustive m) ms)
        × (sc'.survivors ≡ sc.survivors ++ keep (λ m. not (is_caught exhaustive m)) ms)
        × (sc'.loom_caught ≡ sc.loom_caught)
  unfolding phase1 count_if keep
  phase1_lem [] sc = (omega arith, sym (append-nil sc.survivors), refl)
  phase1_lem (m ∷ ms) sc =
      let sc1 = turn green src m sc in
      let (e, s, l) = turn_lem m sc in
      let (e', s', l') = phase1_lem ms sc1 in
      let rest = keep (λ x. not (is_caught exhaustive x)) ms in
      (
        omega (arith, e, e'),
        s'
            ∙ ap (λ (xs : List Mutation). xs ++ rest) s
            ∙ append_assoc sc.survivors (if not (is_caught exhaustive m) then m ∷ [] else []) rest
            ∙ ground arith,
        l' ∙ l,
      )

  phase2_lem :
      (ms : List Mutation) (sc : Score)
      → let sc' = phase2 green src ms sc in
        (sc'.exh_caught ≡ sc.exh_caught)
        × (sc'.loom_caught ≡ sc.loom_caught + count_if (is_caught loom) ms)
  unfolding phase2 count_if
  phase2_lem [] sc = (refl, omega arith)
  phase2_lem (m ∷ ms) sc =
      let sc1 : Score = record sc {
        lib = src;
        loom_total = sc.loom_total + 1;
        loom_caught = sc.loom_caught + (if is_caught loom m then 1 else 0);
      } in
      let (e, l) = phase2_lem ms sc1 in (e, omega (arith, l))

  -- A mutant that counts as caught with --loom: one of the exhaustive harness that this harness
  -- catches, or any that it misses and the concurrent one catches.
  abbrev pub counts : Mutation → Bool
  counts m =
      (is_exhaustive m && is_caught exhaustive m)
      || (not (is_caught exhaustive m) && is_caught loom m)

  -- A mutant that is not of the exhaustive harness or that it catches.
  abbrev pub fine : Mutation → Bool
  fine m = not (is_exhaustive m) || is_caught exhaustive m

  both_phases :
      (ms : List Mutation)
      → count_if (λ m. is_exhaustive m && is_caught exhaustive m) ms
          + count_if (λ m. not (is_caught exhaustive m) && is_caught loom m) ms
        ≡ count_if counts ms
  unfolding count_if
  both_phases [] = omega arith
  both_phases (m ∷ ms) = ground (arith, both_phases ms)

  reachable :
      (ms : List Mutation)
      → (count_if (λ m. is_exhaustive m && is_caught exhaustive m) ms ≤ count_if is_exhaustive ms)
        × ((count_if (λ m. is_exhaustive m && is_caught exhaustive m) ms
              ≡ count_if is_exhaustive ms)
            ↔ All (λ m. fine m ≡ true) ms)
  unfolding count_if
  reachable [] = (omega arith, (λ h. tt, λ h. refl))
  reachable (m ∷ ms) =
      let (le, (to, from)) = reachable ms in
      (
        ground (arith, le),
        (
          λ h. (ground (arith, h, le), to (ground (arith, h, le))),
          λ h. ground (arith, h.0, from h.1),
        ),
      )

  -- The text that the mutant replaces stands once in lib.rs.
  abbrev pub IsAnchored : Mutation → Type 0
  IsAnchored m = count src m.old ≡ 1

  anchored :
      (ms : List Mutation)
      → (any (λ m. not (nat_beq (count src m.old) 1)) ms ≡ false) ↔ All IsAnchored ms
  unfolding any
  anchored [] = (λ h. tt, λ h. refl)
  anchored (m ∷ ms) =
      let (to, from) = anchored ms in
      (λ h. (ground (arith, h), to (ground (arith, h))), λ h. rw (h.0, from h.1) refl)

  -- Where every mutant is anchored, and the exhaustive harness is green on lib.rs itself: without --loom the status is 0 exactly if that harness catches every mutant of
  -- its own; with --loom it is 0 exactly if every mutant is one of its own that it catches, or one that
  -- it misses and the concurrent harness catches.
  green_status :
      (ms : List Mutation)
      → All IsAnchored ms
      → green exhaustive src ≡ true
      → ((main green false ms src ≡ 0) ↔ All (λ m. fine m ≡ true) ms)
        × ((main green true ms src ≡ 0) ↔ All (λ m. counts m ≡ true) ms)
  unfolding main
  green_status ms h g =
      let sc1 = phase1 green src ms (fresh_score src) in
      let (e, s, l) = phase1_lem ms (fresh_score src) in
      let (e', l') = phase2_lem sc1.survivors sc1 in
      let same =
        ap (count_if (is_caught loom)) s
        ∙ count_if-keep (is_caught loom) (λ m. not (is_caught exhaustive m)) ms in
      let (to, from) = (reachable ms).1 in
      let (to2, from2) = all_counted counts ms in
      rw ((anchored ms).1 h, g)
        (
          (λ z. to (ground (arith, e, z)), λ z. ground (arith, e, from z)),
          (
            λ z. to2 (ground (arith, e, l, e', l', same, both_phases ms, z)),
            λ z. ground (arith, e, l, e', l', same, both_phases ms, from2 z),
          ),
        )

  -- What a run with or without --loom wants of a mutant.
  abbrev pub passes : Bool → Mutation → Bool
  passes with_loom m = if with_loom then counts m else fine m

  finished :
      (with_loom : Bool) (ms : List Mutation)
      → All IsAnchored ms
      → green exhaustive src ≡ true
      → (main green with_loom ms src ≡ 0) ↔ All (λ m. passes with_loom m ≡ true) ms
  finished true ms h g = (green_status ms h g).1
  finished false ms h g = (green_status ms h g).0

  finished-le :
      (with_loom : Bool) (ms : List Mutation)
      → any (λ m. not (nat_beq (count src m.old) 1)) ms ≡ false
      → green exhaustive src ≡ true
      → main green with_loom ms src ≤ 1
  unfolding main
  finished-le with_loom ms found g = rw (found, g) (ground arith)

  -- The status is 2 exactly if some mutant's text does not stand once in lib.rs; it is 3 exactly if all do
  -- and the exhaustive harness is not green on lib.rs itself; and it is 0 exactly if all do, that harness is
  -- green, and each mutant passes: without --loom, if it is of that harness, this catches it; with --loom,
  -- it is of that harness, which catches it, or that misses it and the concurrent harness catches it.
  pub main-status :
      (with_loom : Bool) (ms : List Mutation)
      → ((main green with_loom ms src ≡ 2) ↔ ¬ All IsAnchored ms)
        × ((main green with_loom ms src ≡ 3) ↔ (All IsAnchored ms × (green exhaustive src ≡ false)))
        × ((main green with_loom ms src ≡ 0) ↔ (
            All IsAnchored ms
            × (green exhaustive src ≡ true)
            × All (λ m. passes with_loom m ≡ true) ms))
  unfolding main
  main-status with_loom ms = elim (Bool-cases (any (λ m. not (nat_beq (count src m.old) 1)) ms)) [
    | inl drifted ↦
        let lost : ¬ All IsAnchored ms = λ h. ground (arith, drifted, (anchored ms).1 h) in
        rw drifted (
          (λ e. lost, λ h. refl),
          (λ e. absurd (omega (arith, e)), λ h. absurd (lost h.0)),
          (λ e. absurd (omega (arith, e)), λ h. absurd (lost h.0)),
        )
    | inr found ↦
        let all : All IsAnchored ms = (anchored ms).0 found in
        elim (Bool-cases (green exhaustive src)) [
          | inl g ↦
              let one : main green with_loom ms src ≤ 1 = finished-le with_loom ms found g in
              let (to, from) = finished with_loom ms all g in
              (
                (λ e. absurd (omega (arith, e, one)), λ h. absurd (h all)),
                (λ e. absurd (omega (arith, e, one)), λ h. ground (arith, g, h.1)),
                (λ e. (all, g, to e), λ h. from (h.2)),
              )
          | inr red ↦
              rw (found, red)
                (
                  (λ e. absurd (omega (arith, e)), λ h. absurd (h all)),
                  (λ e. (all, refl), λ h. refl),
                  (λ e. absurd (omega (arith, e)), λ h. cc),
                )
        ]
  ]

  -- On a text without the comment on which `dedup_negate` is anchored, as lib.rs is, the status is 2.
  pub main-drifted :
      count src dedup_comment ≡ 0 → (with_loom : Bool) → main green with_loom mutations src ≡ 2
  main-drifted gone with_loom =
      (main-status with_loom mutations).0.1 (λ h. absurd (omega (arith, gone, h.1.0)))

  at_hand :
      (P : Mutation → Type 0) (before : List Mutation) (m : Mutation) (after : List Mutation)
      → All P (before ++ m ∷ after)
      → P m
  at_hand P [] m after h = h.0
  at_hand P (x ∷ before) m after h = at_hand P before m after h.1

  -- A mutant of the concurrent harness that the exhaustive one already catches makes the status with
  -- --loom other than 0, although it is caught.
  pub main-overlooks :
      (before after : List Mutation) (m : Mutation)
      → All IsAnchored (before ++ m ∷ after)
      → green exhaustive src ≡ true
      → is_exhaustive m ≡ false
      → is_caught exhaustive m ≡ true
      → main green true (before ++ m ∷ after) src ≢ 0
  main-overlooks before after m h g own caught z =
      let each = (green_status (before ++ m ∷ after) h g).1.0 z in
      let counted = at_hand (λ x. counts x ≡ true) before m after each in
      ground (arith, counted, own, caught)
