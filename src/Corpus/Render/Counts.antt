-- ===== src/Corpus/Render/Counts.antt =====
-- Every incident with a known strength stands in one table, and only there.
use soundgate_paper.Prelude.{
  ◌+◌, String, ◌≡◌, refl, ◌∙◌, Bool, true, false, ◌&&◌, ◌||◌, List, [], ◌∷◌, arith, count_if, keep,
  ◌==◌, string_eq, eq_iff, if◌then◌else◌, All,
}
use soundgate_paper.Corpus.Incident.{Incident}
use soundgate_paper.Corpus.Render.{insert_sorted, sort, of_strength, rows, before}

module _ {A : Type 0} (less : A → A → Bool) (p : A → Bool) where
  count_if-insert_sorted :
      (x : A) (xs : List A)
      → count_if p (insert_sorted less x xs) ≡ (if p x then 1 else 0) + count_if p xs
  unfolding insert_sorted count_if
  count_if-insert_sorted x [] = refl
  count_if-insert_sorted x (y ∷ ys) = ground (arith, count_if-insert_sorted x ys)

  count_if-sort : (xs : List A) → count_if p (sort less xs) ≡ count_if p xs
  unfolding sort count_if
  count_if-sort [] = refl
  count_if-sort (x ∷ xs) = count_if-insert_sorted x (sort less xs) ∙ omega (arith, count_if-sort xs)

count_if-keep :
    (p q : Incident → Bool) (rs : List Incident)
    → count_if p (keep q rs) ≡ count_if (λ r. q r && p r) rs
unfolding keep count_if
count_if-keep p q [] = refl
count_if-keep p q (r ∷ rs) = ground (arith, count_if-keep p q rs)

-- The rows of a table are the incidents of its strength, each as often as it is recorded: whatever is
-- counted among them is what is counted among the incidents of that strength.
pub rows-count :
    (s : String) (p : Incident → Bool) (rs : List Incident)
    → count_if p (rows s rs) ≡ count_if (λ (r : Incident). r.evidence_strength == s && p r) rs
unfolding rows of_strength
rows-count s p rs = count_if-sort before p _ ∙ count_if-keep p _ rs

abbrev pub HasStrength : Incident → Type 0
HasStrength r =
    ((r.evidence_strength == "direct" || r.evidence_strength == "adjacent")
      || r.evidence_strength == "context")
    ≡ true

differ : (a b s : String) → (a == b) ≡ false → (s == a && s == b) ≡ false
differ a b s h = ground (arith, h, eq_iff a b, eq_iff s a, eq_iff s b)

split :
    (p : Incident → Bool) (rs : List Incident)
    → All HasStrength rs
    → count_if (λ (r : Incident). r.evidence_strength == "direct" && p r) rs
        + count_if (λ (r : Incident). r.evidence_strength == "adjacent" && p r) rs
        + count_if (λ (r : Incident). r.evidence_strength == "context" && p r) rs
      ≡ count_if p rs
unfolding count_if
split p [] h = omega arith
split p (r ∷ rs) h = ground (
  arith,
  split p rs h.1,
  h.0,
  differ "direct" "adjacent" r.evidence_strength refl,
  differ "direct" "context" r.evidence_strength refl,
  differ "adjacent" "context" r.evidence_strength refl,
)

-- With no other strength in use, every incident is counted in exactly one of the three tables.
pub rows-partition :
    (p : Incident → Bool) (rs : List Incident)
    → All HasStrength rs
    → count_if p (rows "direct" rs)
        + count_if p (rows "adjacent" rs)
        + count_if p (rows "context" rs)
      ≡ count_if p rs
rows-partition p rs h = omega (
  arith,
  rows-count "direct" p rs,
  rows-count "adjacent" p rs,
  rows-count "context" p rs,
  split p rs h,
)
