-- ===== src/Prelude/Sets.antt =====
-- Finite sets as lists without order: membership test, insertion, deletion, filtering.
use mathlib.Core.Path.{◌≡◌, refl}
use mathlib.Core.Bool.{Bool, false, not, ◌&&◌, ◌||◌}
use mathlib.Core.List.{List, [], ◌∷◌, ◌++◌}
use native.Mathlib.Omega.{arith}
use mathlib.Core.Logic.{inl, inr}
use soundgate_paper.Prelude.Tests.{if◌then◌else◌, Bool-cases}
use soundgate_paper.Prelude.Equality.{Eq, ◌==◌}

-- The members that pass a test (`retain`, or a comprehension with a condition).
unfoldable pub keep {ℓ} : {A : Type ℓ} → (A → Bool) → List A → List A
keep p [] = []
keep p (x ∷ xs) = let rest = keep p xs in if p x then x ∷ rest else rest

module _ {ℓ} {A : Type ℓ} ⦃e : Eq A⦄ where
  unfoldable pub contains : List A → A → Bool
  contains [] a = false
  contains (x ∷ xs) a = x == a || contains xs a

  -- A set holds each member once.
  unfoldable pub insert : A → List A → List A
  insert a xs = if contains xs a then xs else a ∷ xs

  unfoldable pub remove : A → List A → List A
  remove a xs = keep (λ x. not (x == a)) xs

  pub contains-insert :
      (a b : A) (xs : List A) → contains (insert a xs) b ≡ (a == b || contains xs b)
  unfolding insert contains
  contains-insert a b xs = elim (Bool-cases (contains xs a)) [
    | inl old ↦ rw old (elim (Bool-cases (a == b)) [
      | inl same ↦ rw same (rw (← (e.same_iff a b).0 same) old)
      | inr other ↦ rw other
    ])
    | inr new ↦ rw new
  ]

  pub contains-keep :
      (p : A → Bool) (b : A) (xs : List A) → contains (keep p xs) b ≡ (p b && contains xs b)
  unfolding keep contains
  contains-keep p b [] = ground arith
  contains-keep p b (x ∷ xs) = ground (arith, contains-keep p b xs, e.same_iff x b)

  pub contains-remove :
      (a b : A) (xs : List A) → contains (remove a xs) b ≡ (not (b == a) && contains xs b)
  unfolding remove
  contains-remove a b xs = contains-keep (λ x. not (x == a)) b xs

  pub contains-append :
      (xs ys : List A) (b : A) → contains (xs ++ ys) b ≡ (contains xs b || contains ys b)
  unfolding contains
  contains-append [] ys b = refl
  contains-append (x ∷ xs) ys b = ground (arith, contains-append xs ys b)
