-- ===== src/Graphs/Waves.antt =====
-- The two walks of the tree: each ends, the one in earlier waves and the other in later ones.
use soundgate_paper.Prelude.{
  ℕ, zero, suc, ◌+◌, ◌-◌, ◌<◌, ◌≤◌, ◌≡◌, refl, sym, ap, true, Option, none, some, List, [], ◌∷◌,
  ◌++◌, inl, inr, Option-cases, Bool-cases, nat_beq_iff, ltb, ltb→lt, arith, All, All-append,
}
use mathlib.Core.Path.{subst}
use soundgate_paper.Graphs.Generate.{ancestors, is_child, children, descend}
use soundgate_paper.Graphs.Depths.{HasDepth, Fits}

-- 2 to the power n, by doubling.
unfoldable pub doubled : ℕ → ℕ
doubled zero = 1
doubled (suc n) = doubled n + doubled n

pub positive : (n : ℕ) → 0 < doubled n
unfolding doubled
positive zero = omega arith
positive (suc n) = omega (arith, positive n)

module _ (parent_of : ℕ → Option ℕ) (ds : ℕ → Option ℕ) (n : ℕ)
    (below : (x p : ℕ) → parent_of x ≡ some p → p < x)
    (settled : (x : ℕ) → x < n → HasDepth parent_of ds x) where
  -- A child is one wave after its parent.
  one_deeper :
      (x p d : ℕ)
      → x < n
      → parent_of x ≡ some p
      → ds x ≡ some d
      → (e : ℕ) × (ds p ≡ some e) × (d ≡ e + 1)
  one_deeper x p d h from at =
      let (c, at_c, fits) = settled x h in
      let (e, at_p, eq) : Fits parent_of ds c (some p) = subst (Fits parent_of ds c) from fits in
      (e, at_p, ground (arith, at, at_c, eq))

  abbrev pub Shallower : ℕ → ℕ → Type 0
  Shallower d a = (c : ℕ) × (ds a ≡ some c) × (c < d)

  abbrev pub Deeper : ℕ → ℕ → Type 0
  Deeper d a = (c : ℕ) × (ds a ≡ some c) × (d < c)

  weaken : (d e : ℕ) (xs : List ℕ) → e < d → All (Shallower e) xs → All (Shallower d) xs
  weaken d e [] h a = tt
  weaken d e (x ∷ xs) h ((c, at, less), a) = ((c, at, omega (arith, h, less)), weaken d e xs h a)

  pub ancestors-Shallower :
      (fuel x d : ℕ)
      → x < fuel
      → x < n
      → ds x ≡ some d
      → (out : List ℕ) × (ancestors parent_of fuel x ≡ some out) × All (Shallower d) out
  unfolding ancestors
  ancestors-Shallower zero x d h in_n at = absurd (omega (arith, h))
  ancestors-Shallower (suc fuel) x d h in_n at = elim (Option-cases (parent_of x)) [
    | inl root ↦ ([], rw (root, ancestors) refl, tt)
    | inr (p, from) ↦
        let less = below x p from in
        let (e, at_p, eq) = one_deeper x p d in_n from at in
        let (out, ends, a) =
          ancestors-Shallower fuel p e (omega (arith, less, h)) (omega (arith, less, in_n)) at_p in
        (
          p ∷ out,
          rw (from, ancestors, ends) refl,
          ((e, at_p, omega (arith, eq)), weaken d e out (omega (arith, eq)) a),
        )
  ]

  abbrev pub IsChild : ℕ → ℕ → Type 0
  IsChild y x = (x < n) × (parent_of x ≡ some y)

  is_child_lem : (y : ℕ) (o : Option ℕ) → is_child y o ≡ true → o ≡ some y
  unfolding is_child
  is_child_lem y none h = cc
  is_child_lem y (some p) h = ap some ((nat_beq_iff p y).0 h)

  pub children-IsChild : (k y : ℕ) → k ≤ n → All (IsChild y) (children parent_of k y)
  unfolding children
  children-IsChild zero y h = tt
  children-IsChild (suc k) y h =
      let ih = children-IsChild k y (omega (arith, h)) in
      elim (Bool-cases (is_child y (parent_of k))) [
        | inl child ↦ rw child ((omega (arith, h), is_child_lem y (parent_of k) child), ih)
        | inr other ↦ rw other ih
      ]

  -- A node weighs more than all its children.
  unfoldable pub weight : List ℕ → ℕ
  weight [] = 0
  weight (y ∷ ys) = doubled (n - y) + weight ys

  weight-append : (xs ys : List ℕ) → weight (xs ++ ys) ≡ weight xs + weight ys
  unfolding weight
  weight-append [] ys = omega arith
  weight-append (x ∷ xs) ys = omega (arith, weight-append xs ys)

  doubled-step : (k : ℕ) → k < n → doubled (n - k) ≡ doubled (n - suc k) + doubled (n - suc k)
  unfolding doubled
  doubled-step k h = let e : n - k ≡ suc (n - suc k) = omega (arith, h) in rw e refl

  no_children : (k y : ℕ) → k ≤ suc y → children parent_of k y ≡ []
  unfolding children
  no_children zero y h = refl
  no_children (suc k) y h =
      let rest = no_children k y (omega (arith, h)) in
      elim (Bool-cases (is_child y (parent_of k))) [
        | inl child ↦ absurd (omega (arith, h, below k y (is_child_lem y (parent_of k) child)))
        | inr other ↦ rw (other, rest) refl
      ]

  pub children-weight :
      (k y : ℕ)
      → y < n
      → y < k
      → k ≤ n
      → weight (children parent_of k y) + (doubled (n - k) + doubled (n - k)) ≤ doubled (n - y)
  unfolding children weight
  children-weight zero y in_n h le = absurd (omega (arith, h))
  children-weight (suc k) y in_n h le = elim (Bool-cases (ltb y k)) [
    | inl more ↦
        let ih = children-weight k y in_n (ltb→lt y k more) (omega (arith, le)) in
        let twice = doubled-step k le in
        elim (Bool-cases (is_child y (parent_of k))) [
          | inl child ↦ rw child (omega (arith, ih, twice))
          | inr other ↦ rw other (omega (arith, ih, twice))
        ]
    | inr first ↦
        let here : y ≡ k = ground arith in
        subst
          (λ (xs : List ℕ).
            weight xs + (doubled (n - suc k) + doubled (n - suc k)) ≤ doubled (n - y))
          (sym (no_children (suc k) y (omega (arith, here))))
          (rw here (omega (arith, doubled-step k le)))
  ]

  -- A node of the tree in a later wave than d.
  abbrev pub After : ℕ → ℕ → Type 0
  After d y = (y < n) × Deeper d y

  pub children-After :
      (d e y : ℕ) → ds y ≡ some e → d ≤ e → (xs : List ℕ) → All (IsChild y) xs → All (After d) xs
  children-After d e y at le [] a = tt
  children-After d e y at le (x ∷ xs) ((less, from), a) =
      let (c, at_x, fits) = settled x less in
      let (b, at_y, eq) = one_deeper x y c less from at_x in
      let same : b ≡ e = ground (arith, at, at_y) in
      ((less, (c, at_x, omega (arith, le, eq, same))), children-After d e y at le xs a)

  pub descend-After :
      (fuel d : ℕ) (stack out : List ℕ)
      → weight stack ≤ fuel
      → All (After d) stack
      → All (After d) out
      → (found : List ℕ) × (descend parent_of n fuel stack out ≡ some found) × All (After d) found
  unfolding descend weight
  descend-After fuel d [] out h s o = (out, refl, o)
  descend-After zero d (y ∷ stack) out h ((less, _), s) o =
      absurd (omega (arith, h, doubled-step y less, positive (n - suc y)))
  descend-After (suc fuel) d (y ∷ stack) out h ((less, (e, at, deep)), s) o =
      let kids = children parent_of n y in
      let lighter = children-weight n y less less (omega arith) in
      let fewer : weight (kids ++ stack) ≤ fuel =
        omega (arith, h, lighter, weight-append kids stack, positive (n - n)) in
      descend-After fuel d (kids ++ stack) (y ∷ out) fewer
        (All-append (After d) kids stack
          (children-After d e y at (omega (arith, deep)) kids (children-IsChild n y (omega arith)))
          s)
        ((less, (e, at, deep)), o)
