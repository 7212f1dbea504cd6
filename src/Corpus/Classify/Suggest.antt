-- ===== src/Corpus/Classify/Suggest.antt =====
-- corpus/classify_corpus.py, `suggest`: the axis with the largest score.
use mathlib.Core.Path.{subst}
use soundgate_paper.Prelude.{
  ℕ, ◌≤◌, ◌<◌, ◌≡◌, refl, sym, ap, String, true, false, List, [], ◌∷◌, ◌++◌, any, All, ltb, arith,
  Bool-cases, ◌⊎◌, inl, inr,
}
use soundgate_paper.Corpus.Classify.{scores, best, top_axis, suggest}

-- The first of the largest in a list, where it stands.
pub record First (xs : List (String × ℕ)) (b : String × ℕ) : Type 0 where
  pub before : List (String × ℕ)
  pub behind : List (String × ℕ)
  pub stands : xs ≡ before ++ b ∷ behind
  pub smaller : All (λ (s : String × ℕ). s.1 < b.1) before
  pub largest : All (λ (s : String × ℕ). s.1 ≤ b.1) behind

-- `best` keeps the top, or finds a larger one.
abbrev Found : String × ℕ → List (String × ℕ) → String × ℕ → Type 0
Found top xs b =
    ((b ≡ top) × All (λ (s : String × ℕ). s.1 ≤ top.1) xs) ⊎ ((top.1 < b.1) × First xs b)

abbrev passed :
    (s b : String × ℕ) (xs : List (String × ℕ)) → s.1 < b.1 → First xs b → First (s ∷ xs) b
passed s b xs less f = record {
  before = s ∷ f.before;
  behind = f.behind;
  stands = ap (λ (t : List (String × ℕ)). s ∷ t) f.stands;
  smaller = (less, f.smaller);
  largest = f.largest;
}

best-Found : (top : String × ℕ) (xs : List (String × ℕ)) → Found top xs (best top xs)
unfolding best
best-Found top [] = inl (refl, tt)
best-Found top (s ∷ xs) = elim (Bool-cases (ltb top.1 s.1)) [
  | inl more ↦ rw (more, best) (larger (best s xs) (ground arith) (best-Found s xs))
  | inr less ↦ rw (less, best) (kept (best top xs) (ground arith) (best-Found top xs))
]
  where
    larger : (b : String × ℕ) → top.1 < s.1 → Found s xs b → Found top (s ∷ xs) b
    larger b h (inl (same, all)) = inr (
      subst (λ (c : String × ℕ). top.1 < c.1) (sym same) h,
      record {
        before = [];
        behind = xs;
        stands = ap (λ (c : String × ℕ). c ∷ xs) (sym same);
        smaller = tt;
        largest = subst (λ (c : String × ℕ). All (λ (t : String × ℕ). t.1 ≤ c.1) xs) (sym same) all;
      },
    )
    larger b h (inr (more, f)) = inr (omega (arith, h, more), passed s b xs more f)

    kept : (b : String × ℕ) → s.1 ≤ top.1 → Found top xs b → Found top (s ∷ xs) b
    kept b h (inl (same, all)) = inl (same, (h, all))
    kept b h (inr (more, f)) = inr (more, passed s b xs (omega (arith, h, more)) f)

top_axis_lem :
    (xs : List (String × ℕ)) (axis_hint : String)
    → (any (λ (s : String × ℕ). ltb 0 s.1) xs ≡ false → top_axis xs axis_hint ≡ axis_hint)
      × (any (λ (s : String × ℕ). ltb 0 s.1) xs ≡ true
          → (b : String × ℕ) × (top_axis xs axis_hint ≡ b.0) × First xs b)
unfolding top_axis any
top_axis_lem [] axis_hint = (λ h. refl, λ h. absurd (cc))
top_axis_lem (s ∷ xs) axis_hint =
    (λ h. rw h refl, λ h. (best s xs, rw h refl, here (best-Found s xs)))
  where
    here : {b : String × ℕ} → Found s xs b → First (s ∷ xs) b
    here {b} (inl (same, all)) =
        subst (First (s ∷ xs)) (sym same)
          (record { before = []; behind = xs; stands = refl; smaller = tt; largest = all })
    here {b} (inr (more, f)) = passed s b xs more f

-- The suggested axis is the hint where none of the words occurs; else it is the axis that has the largest
-- score, and of several the one that stands first.
pub suggest-First :
    (lower : String → String) (text axis_hint : String)
    → (any (λ (s : String × ℕ). ltb 0 s.1) (scores (lower text)) ≡ false
        → (suggest lower text axis_hint).0 ≡ axis_hint)
      × (any (λ (s : String × ℕ). ltb 0 s.1) (scores (lower text)) ≡ true
          → (b : String × ℕ) × ((suggest lower text axis_hint).0 ≡ b.0)
            × First (scores (lower text)) b)
unfolding suggest
suggest-First lower text axis_hint = top_axis_lem (scores (lower text)) axis_hint
