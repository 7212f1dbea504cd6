-- ===== src/Graphs/Relations.antt =====
-- The relations of the effects to the gate agree with the waves, and a graph is always generated.
use soundgate_paper.Prelude.{
  ℕ, zero, suc, ◌+◌, ◌-◌, ◌<◌, ◌≤◌, ◌≡◌, refl, ap, true, Option, some, List, [], ◌∷◌, inl, inr,
  Bool-cases, nat_beq, nat_beq_iff, ltb, ltb→lt, arith, All, contains, nat_eq, if◌then◌else◌, map,
}
use mathlib.Core.Path.{subst}
use soundgate_paper.Graphs.Generate.{
  Draws, parent, role, depths, ancestors, children, descendants, Relation, ancestor, descendant,
  conc_earlier, conc_same, conc_later, relation, relate, Spec, gen_one,
}
use soundgate_paper.Graphs.Depths.{HasDepth, settle}
use soundgate_paper.Graphs.Waves.{
  doubled, positive, Shallower, After, ancestors-Shallower, descend-After, children-After,
  children-IsChild, children-weight,
}

-- What a relation says of the waves of an effect and of the gate.
abbrev pub Agrees : Relation → ℕ → ℕ → Type 0
Agrees ancestor e wg = e < wg
Agrees descendant e wg = wg < e
Agrees conc_earlier e wg = e < wg
Agrees conc_same e wg = e ≡ wg
Agrees conc_later e wg = wg < e

member : (P : ℕ → Type 0) (xs : List ℕ) (x : ℕ) → contains xs x ≡ true → All P xs → P x
unfolding contains
member P [] x h a = cc
member P (y ∷ ys) x h (p, a) = elim (Bool-cases (nat_beq y x)) [
  | inl here ↦ subst P ((nat_beq_iff y x).0 here) p
  | inr other ↦ member P ys x (ground (arith, h, other)) a
]

wave-Agrees :
    (d wg : ℕ)
    → Agrees
        (if ltb d wg then conc_earlier else if nat_beq d wg then conc_same else conc_later)
        d
        wg
wave-Agrees d wg = elim (Bool-cases (ltb d wg)) [
  | inl less ↦ rw less (ltb→lt d wg less)
  | inr more ↦ elim (Bool-cases (nat_beq d wg)) [
    | inl same ↦ rw (more, same) ((nat_beq_iff d wg).0 same)
    | inr other ↦ rw (more, other) (ground arith)
  ]
]

module _ (parent_of : ℕ → Option ℕ) (ds : ℕ → Option ℕ) (n : ℕ)
    (below : (x p : ℕ) → parent_of x ≡ some p → p < x)
    (settled : (x : ℕ) → x < n → HasDepth parent_of ds x) where
  abbrev Up : ℕ → ℕ → Type 0
  Up = Shallower parent_of ds n below settled

  abbrev Down : ℕ → ℕ → Type 0
  Down = After parent_of ds n below settled

  relation-Agrees :
      (anc_g desc_g : List ℕ) (wg d e : ℕ)
      → All (Up wg) anc_g
      → All (Down wg) desc_g
      → ds e ≡ some d
      → Agrees (relation anc_g desc_g wg d e) d wg
  unfolding relation
  relation-Agrees anc_g desc_g wg d e up down at = elim (Bool-cases (contains anc_g e)) [
    | inl is_up ↦
        let (c, at_e, less) = member (Up wg) anc_g e is_up up in
        rw is_up (ground (arith, at, at_e, less))
    | inr not_up ↦ elim (Bool-cases (contains desc_g e)) [
      | inl is_down ↦
          let (_, (c, at_e, less)) = member (Down wg) desc_g e is_down down in
          rw (not_up, is_down) (ground (arith, at, at_e, less))
      | inr not_down ↦ rw (not_up, not_down) (wave-Agrees d wg)
    ]
  ]

  -- Every effect gets a relation, and it agrees.
  abbrev pub Related : ℕ → ℕ × Relation → Type 0
  Related wg (e, rel) = (d : ℕ) × (ds e ≡ some d) × Agrees rel d wg

  relate-Agrees :
      (anc_g desc_g : List ℕ) (wg : ℕ) (es : List ℕ)
      → All (Up wg) anc_g
      → All (Down wg) desc_g
      → All (λ e. e < n) es
      → (rs : List (ℕ × Relation)) × (relate ds anc_g desc_g wg es ≡ some rs)
        × All (Related wg) rs
        × (map (λ (p : ℕ × Relation). p.0) rs ≡ es)
  unfolding relate
  relate-Agrees anc_g desc_g wg [] up down h = ([], refl, tt, refl)
  relate-Agrees anc_g desc_g wg (e ∷ es) up down (less, h) =
      let (d, at, fits) = settled e less in
      let (rs, ok, all, names) = relate-Agrees anc_g desc_g wg es up down h in
      (
        (e, relation anc_g desc_g wg d e) ∷ rs,
        rw (at, relate, ok) refl,
        ((d, at, relation-Agrees anc_g desc_g wg d e up down at), all),
        ap (λ (l : List ℕ). e ∷ l) names,
      )

doubled-le : (a b : ℕ) → doubled a ≤ doubled (b + a)
unfolding doubled
doubled-le a zero = let e : 0 + a ≡ a = omega arith in rw e (omega arith)
doubled-le a (suc b) =
    let e : suc b + a ≡ suc (b + a) = omega arith in rw e (omega (arith, doubled-le a b))

le-doubled : (n : ℕ) → n ≤ doubled n
unfolding doubled
le-doubled zero = omega arith
le-doubled (suc n) = omega (arith, le-doubled n, positive n)

parent-below :
    (r : Draws) → ((j : ℕ) → 0 < j → r.earlier j < j) → (x p : ℕ) → parent r x ≡ some p → p < x
unfolding parent
parent-below r law x p h = ground (arith, law x)

found : Draws → (ℕ → Option ℕ) → ℕ → List (ℕ × Relation) → Spec
found r ds wg rs = record {
  n = r.size;
  parents = parent r;
  roles = role r;
  chosen = r.choice;
  gate_wave = wg;
  depth = ds;
  effects = r.sample;
  relations = rs;
}

generated :
    (r : Draws) (fuel : ℕ) (ds : ℕ → Option ℕ) (anc desc : List ℕ) (wg : ℕ)
    (rs : List (ℕ × Relation))
    → depths (parent r) r.size ≡ some ds
    → ancestors (parent r) fuel r.choice ≡ some anc
    → descendants (parent r) r.size fuel r.choice ≡ some desc
    → ds r.choice ≡ some wg
    → relate ds anc desc wg r.sample ≡ some rs
    → gen_one fuel r ≡ some (found r ds wg rs)
unfolding gen_one found
generated r fuel ds anc desc wg rs e ends stops at ok = rw (e, gen_one, ends, stops, at, ok) refl

-- Whatever is drawn within the bounds of the drawing functions, the loops of `gen_one` end and none
-- of its lookups fails: with fuel 2 to the power of the number of nodes it gives a graph, in which
-- each node's depth is 1 or one more than its parent's, each effect has one relation, and the relation
-- agrees with the depths of the effect and of the gate.
pub gen_one-Agrees :
    (r : Draws)
    → ((j : ℕ) → 0 < j → r.earlier j < j)
    → r.choice < r.size
    → All (λ e. e < r.size) r.sample
    → (s : Spec) × (gen_one (doubled r.size) r ≡ some s)
      × (s.depth r.choice ≡ some s.gate_wave)
      × ((x : ℕ) → x < r.size → HasDepth (parent r) s.depth x)
      × (map (λ (p : ℕ × Relation). p.0) s.relations ≡ r.sample)
      × All
          (λ (p : ℕ × Relation). (d : ℕ) × (s.depth p.0 ≡ some d) × Agrees p.1 d s.gate_wave)
          s.relations
unfolding descendants found
gen_one-Agrees r law g h =
    let below = parent-below r law in
    let (ds, e, settled) = settle (parent r) below r.size in
    let (wg, at, fits) = settled.done r.choice g in
    let kids = children (parent r) r.size r.choice in
    let fuel = doubled r.size in
    let whole = doubled-le (r.size - r.choice) r.choice in
    let back : r.choice + (r.size - r.choice) ≡ r.size = omega (arith, g) in
    let light =
      children-weight (parent r) ds r.size below settled.done r.size r.choice g g (omega arith) in
    let (anc, ends, up) =
      ancestors-Shallower (parent r) ds r.size below settled.done fuel r.choice wg
        (omega (arith, g, le-doubled r.size)) g at in
    let (desc, stops, down) =
      descend-After (parent r) ds r.size below settled.done fuel wg kids []
        (omega (arith, light, whole, ap doubled back))
        (children-After (parent r) ds r.size below settled.done wg wg r.choice at (omega arith) kids
          (children-IsChild (parent r) ds r.size below settled.done r.size r.choice (omega arith)))
        tt in
    let (rs, ok, all, names) =
      relate-Agrees (parent r) ds r.size below settled.done anc desc wg r.sample up down h in
    (
      found r ds wg rs,
      generated r fuel ds anc desc wg rs e ends stops at ok,
      at,
      settled.done,
      names,
      all,
    )
