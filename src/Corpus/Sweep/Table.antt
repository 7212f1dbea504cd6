-- ===== src/Corpus/Sweep/Table.antt =====
-- corpus/corpus_sweep.py, `report`: the sets that it counts.
use soundgate_paper.Prelude.{
  ℕ, ◌+◌, ◌≤◌, ◌≡◌, sym, ◌∙◌, String, Bool, true, false, ◌&&◌, ◌||◌, List, [], ◌∷◌, length, All,
  contains, insert, contains-insert, remove, contains-remove, keep, not, Eq, ==_refl, ==_sym,
  length-keep-le, contains-append, length-append, ◌++◌, ◌==◌, string_eq, nat_eq, arith, Bool-cases,
  inl, inr,
}
use soundgate_paper.Corpus.Sweep.{Hit, numbers, line_of}

-- Lists whose members differ.
module _ {ℓ} {A : Type ℓ} ⦃e : Eq A⦄ where
  abbrev Differ : List A → Type 0
  Differ [] = Unit
  Differ (x ∷ xs) = (contains xs x ≡ false) × Differ xs

  length-remove :
      (x : A) (ys : List A) → contains ys x ≡ true → length (remove x ys) + 1 ≤ length ys
  unfolding contains remove keep
  length-remove x [] h = cc
  length-remove x (y ∷ ys) h = elim (Bool-cases (y == x)) [
    | inl same ↦ rw same (omega (arith, length-keep-le (λ (z : A). not (z == x)) ys))
    | inr other ↦ rw other (omega (arith, length-remove x ys (rw other at h)))
  ]

  length-le :
      (xs ys : List A)
      → Differ xs
      → ((x : A) → contains xs x ≡ true → contains ys x ≡ true)
      → length xs ≤ length ys
  unfolding contains
  length-le [] ys d sub = omega arith
  length-le (x ∷ xs) ys d sub =
      let shorter : length (remove x ys) + 1 ≤ length ys =
        length-remove x ys (sub x (ground (arith, ==_refl x))) in
      let rest : length xs ≤ length (remove x ys) = length-le xs (remove x ys) d.1 (λ z h.
        ground (arith, h, contains-remove x z ys, sub z, d.0, ==_sym x z, e.same_iff z x)) in
      omega arith

  Differ-insert : (x : A) (xs : List A) → Differ xs → Differ (insert x xs)
  unfolding insert
  Differ-insert x xs d = elim (Bool-cases (contains xs x)) [
    | inl old ↦ rw old d
    | inr new ↦ rw new (new, d)
  ]

numbers-Differ : (p : Hit → Bool) (hs : List Hit) → Differ (numbers p hs)
unfolding numbers
numbers-Differ p [] = tt
numbers-Differ p (h ∷ hs) = elim (Bool-cases (p h)) [
  | inl y ↦ rw y (Differ-insert h.item.number (numbers p hs) (numbers-Differ p hs))
  | inr n ↦ rw n (numbers-Differ p hs)
]

-- The sets that `line_of` counts.
abbrev of_repo : String → Hit → Bool
of_repo repo h = h.repo == repo

abbrev on_axis : String → String → Hit → Bool
on_axis repo axis h = h.repo == repo && h.axis_hint == axis

-- The axes of the queries.
abbrev pub HasAxis : Hit → Type 0
HasAxis h =
    (h.axis_hint == "A1" || (h.axis_hint == "A2" || (h.axis_hint == "A3" || h.axis_hint == "A4")))
    ≡ true

axis-member :
    (repo axis : String) (n : ℕ) (hs : List Hit)
    → contains (numbers (on_axis repo axis) hs) n ≡ true
    → contains (numbers (of_repo repo) hs) n ≡ true
unfolding numbers
axis-member repo axis n [] m = m
axis-member repo axis n (h ∷ hs) m = ground (
  arith,
  axis-member repo axis n hs,
  contains-insert h.item.number n (numbers (on_axis repo axis) hs),
  contains-insert h.item.number n (numbers (of_repo repo) hs),
)

axis-le :
    (repo axis : String) (rows : List Hit)
    → length (numbers (on_axis repo axis) rows) ≤ length (numbers (of_repo repo) rows)
axis-le repo axis rows =
    length-le (numbers (on_axis repo axis) rows) (numbers (of_repo repo) rows)
      (numbers-Differ (on_axis repo axis) rows) (λ n. axis-member repo axis n rows)

-- The sets of the four axes, one behind the other.
abbrev four : String → List Hit → List ℕ
four repo rows =
    numbers (on_axis repo "A1") rows
    ++ (numbers (on_axis repo "A2") rows
        ++ (numbers (on_axis repo "A3") rows ++ numbers (on_axis repo "A4") rows))

numbers-member :
    (p : Hit → Bool) (h : Hit) (hs : List Hit) (n : ℕ)
    → contains (numbers p (h ∷ hs)) n ≡ ((p h && h.item.number == n) || contains (numbers p hs) n)
unfolding numbers
numbers-member p h hs n = ground (arith, contains-insert h.item.number n (numbers p hs))

-- A number of the repository is met on the axis of its row, or was met before.
met :
    (r same u a b c d a' b' c' d' : Bool)
    → (a || (b || (c || d))) ≡ true
    → (u ≡ true → (a' || (b' || (c' || d'))) ≡ true)
    → ((r && same) || u) ≡ true
    → ((((r && a) && same) || a')
        || ((((r && b) && same) || b')
            || ((((r && c) && same) || c') || (((r && d) && same) || d'))))
      ≡ true
met true true u a b c d a' b' c' d' some_axis old m = ground arith
met true false true a b c d a' b' c' d' some_axis old m = ground (arith, old m)
met false same true a b c d a' b' c' d' some_axis old m = ground (arith, old m)
met true false false a b c d a' b' c' d' some_axis old m = cc
met false same false a b c d a' b' c' d' some_axis old m = cc

repo-member :
    (repo : String) (n : ℕ) (hs : List Hit)
    → All HasAxis hs
    → contains (numbers (of_repo repo) hs) n ≡ true
    → (contains (numbers (on_axis repo "A1") hs) n
        || (contains (numbers (on_axis repo "A2") hs) n
            || (contains (numbers (on_axis repo "A3") hs) n
                || contains (numbers (on_axis repo "A4") hs) n)))
      ≡ true
unfolding numbers contains
repo-member repo n [] all m = absurd (cc)
repo-member repo n (h ∷ hs) all m =
    rw
      (
        numbers-member (on_axis repo "A1") h hs n,
        numbers-member (on_axis repo "A2") h hs n,
        numbers-member (on_axis repo "A3") h hs n,
        numbers-member (on_axis repo "A4") h hs n,
      )
      (met (h.repo == repo) (h.item.number == n) (contains (numbers (of_repo repo) hs) n)
        (h.axis_hint == "A1") (h.axis_hint == "A2") (h.axis_hint == "A3") (h.axis_hint == "A4")
        (contains (numbers (on_axis repo "A1") hs) n) (contains (numbers (on_axis repo "A2") hs) n)
        (contains (numbers (on_axis repo "A3") hs) n) (contains (numbers (on_axis repo "A4") hs) n)
        all.0 (repo-member repo n hs all.1) (sym (numbers-member (of_repo repo) h hs n) ∙ m))

four-member :
    (repo : String) (rows : List Hit) (n : ℕ)
    → contains (four repo rows) n ≡ (
        contains (numbers (on_axis repo "A1") rows) n
        || (contains (numbers (on_axis repo "A2") rows) n
            || (contains (numbers (on_axis repo "A3") rows) n
                || contains (numbers (on_axis repo "A4") rows) n)))
four-member repo rows n = simp contains-append

repo-le :
    (repo : String) (rows : List Hit)
    → All HasAxis rows
    → length (numbers (of_repo repo) rows) ≤ length (four repo rows)
repo-le repo rows all =
    length-le (numbers (of_repo repo) rows) (four repo rows) (numbers-Differ (of_repo repo) rows)
      (λ n m. four-member repo rows n ∙ repo-member repo n rows all m)

four-length :
    (repo : String) (rows : List Hit)
    → length (four repo rows)
      ≡ length (numbers (on_axis repo "A1") rows)
        + length (numbers (on_axis repo "A2") rows)
        + length (numbers (on_axis repo "A3") rows)
        + length (numbers (on_axis repo "A4") rows)
four-length repo rows = omega (arith, length-append {0} {A = ℕ})

-- In a file whose rows have the axes A1 to A4, a repository's number of issues is at least its number on
-- each axis and at most their sum.
pub line_of_bounds :
    (repo : String) (rows : List Hit)
    → All HasAxis rows
    → ((line_of rows repo).a1 ≤ (line_of rows repo).unique)
      × ((line_of rows repo).a2 ≤ (line_of rows repo).unique)
      × ((line_of rows repo).a3 ≤ (line_of rows repo).unique)
      × ((line_of rows repo).a4 ≤ (line_of rows repo).unique)
      × ((line_of rows repo).unique
          ≤ (line_of rows repo).a1
            + (line_of rows repo).a2
            + (line_of rows repo).a3
            + (line_of rows repo).a4)
unfolding line_of
line_of_bounds repo rows h = (
  axis-le repo "A1" rows,
  axis-le repo "A2" rows,
  axis-le repo "A3" rows,
  axis-le repo "A4" rows,
  omega (arith, repo-le repo rows h, four-length repo rows),
)
