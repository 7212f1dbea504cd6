-- ===== src/Graphs/Depths.antt =====
-- The waves of a tree whose parents are earlier nodes: the loop over the nodes finds one for each.
use soundgate_paper.Prelude.{
  ℕ, zero, suc, ◌+◌, ◌<◌, ◌≤◌, ◌≡◌, refl, sym, ◌∙◌, Option, none, some, inl, inr, ◌⊎◌, Option-cases,
  Bool-cases, ltb, ltb→lt, arith,
}
use mathlib.Core.Path.{subst}
use soundgate_paper.Graphs.Generate.{depth_start, depth_turn, depths, put}

module _ (parent_of : ℕ → Option ℕ) where
  -- What the depth of a node is, from its parent and the depths of all nodes.
  abbrev pub Fits : (ℕ → Option ℕ) → ℕ → Option ℕ → Type 0
  Fits ds d none = d ≡ 1
  Fits ds d (some p) = (e : ℕ) × (ds p ≡ some e) × (d ≡ e + 1)

  abbrev pub HasDepth : (ℕ → Option ℕ) → ℕ → Type 0
  HasDepth ds x = (d : ℕ) × (ds x ≡ some d) × Fits ds d (parent_of x)

  pub record Settled (ds : ℕ → Option ℕ) (j : ℕ) : Type 0 where
    pub done : (x : ℕ) → x < j → HasDepth ds x
    pub to_do : (x : ℕ) → j ≤ x → ds x ≡ depth_start parent_of x

  module _ (below : (x p : ℕ) → parent_of x ≡ some p → p < x) where
    put_other : (ds : ℕ → Option ℕ) (j d x : ℕ) → x < j → put j d ds x ≡ ds x
    put_other ds j d x h = ground arith

    -- An entry that the turn of j leaves alone keeps fitting.
    kept : (ds : ℕ → Option ℕ) (j d x : ℕ) → x < j → HasDepth ds x → HasDepth (put j d ds) x
    kept ds j d x h (e, at, fits) =
        (e, put_other ds j d x h ∙ at, still (parent_of x) (below x) fits)
      where
        still :
            (o : Option ℕ) → ((p : ℕ) → o ≡ some p → p < x) → Fits ds e o → Fits (put j d ds) e o
        still none under f = f
        still (some p) under (c, at_p, eq) =
            let lower = under p refl in (c, put_other ds j d p (omega (arith, lower, h)) ∙ at_p, eq)

    split : (x j : ℕ) → x < suc j → (x < j) ⊎ (x ≡ j)
    split x j h = elim (Bool-cases (ltb x j)) [
      | inl less ↦ inl (ltb→lt x j less)
      | inr not_less ↦ inr (ground arith)
    ]

    -- The dictionary once node j has its depth.
    extend :
        (ds ds' : ℕ → Option ℕ) (j : ℕ)
        → Settled ds j
        → ((x : ℕ) → x < j → HasDepth ds' x)
        → HasDepth ds' j
        → ((x : ℕ) → suc j ≤ x → ds' x ≡ ds x)
        → Settled ds' (suc j)
    extend ds ds' j s old new same = record {
      done = λ x h. elim (split x j h) [
        | inl less ↦ old x less
        | inr here ↦ subst (HasDepth ds') (sym here) new
      ];
      to_do = λ x h. same x h ∙ s.to_do x (omega (arith, h));
    }

    pub settle : (j : ℕ) → (ds : ℕ → Option ℕ) × (depths parent_of j ≡ some ds) × Settled ds j
    unfolding depths depth_start
    settle zero = (
      depth_start parent_of,
      refl,
      record { done = λ x h. absurd (omega (arith, h)); to_do = λ x h. refl },
    )
    settle (suc j) =
        let (ds, e, s) = settle j in
        let blank = s.to_do j (omega arith) in
        elim (Option-cases (parent_of j)) [
          | inl root ↦
              let at : ds j ≡ some 1 = blank ∙ rw root refl in
              (ds, rw (e, at) refl, extend ds ds j s s.done (1, at, rw root refl) (λ x h. refl))
          | inr (p, from) ↦
              let (d, at_p, fits) = s.done p (below j p from) in
              let empty : ds j ≡ none = blank ∙ rw from refl in
              (
                put j (d + 1) ds,
                rw (e, empty, from, at_p, depth_turn) refl,
                extend ds (put j (d + 1) ds) j s (λ x h. kept ds j (d + 1) x h (s.done x h))
                    (
                      d + 1,
                      ground arith,
                      rw from (d, put_other ds j (d + 1) p (below j p from) ∙ at_p, refl),
                    )
                    (λ x h. ground arith),
              )
        ]
