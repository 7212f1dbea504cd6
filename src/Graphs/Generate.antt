-- ===== src/Graphs/Generate.antt =====
-- randgraph/gen.py. Node n0, n1, … is its number, and a dictionary keyed by nodes is a function of
-- numbers; a parent "START" is none. What the generator `rng` draws is data.
use soundgate_paper.Prelude.{
  ℕ, zero, suc, ◌+◌, Bool, false, ◌||◌, Option, none, some, List, [], ◌∷◌, ◌++◌, nat_beq, ltb,
  contains, nat_eq, if◌then◌else◌,
}

pub record Draws : Type 0 where
  -- `rng.randint(n_min, n_max)`, with what each node j draws: whether `rng.random() < 0.30`, and
  -- `rng.randrange(j)`.
  pub size : ℕ
  pub from_start : ℕ → Bool
  pub earlier : ℕ → ℕ
  -- `rng.choice(nodes)`, and `rng.sample(rest, ...)`.
  pub choice : ℕ
  pub sample : List ℕ

pub data Role : Type 0 where
  gate effect read : Role

pub data Relation : Type 0 where
  ancestor descendant conc_earlier conc_same conc_later : Relation

unfoldable pub parent : Draws → ℕ → Option ℕ
parent r j = if nat_beq j 0 || r.from_start j then none else some (r.earlier j)

unfoldable pub role : Draws → ℕ → Role
role r x = if nat_beq x r.choice then gate else if contains r.sample x then effect else read

abbrev pub put : ℕ → ℕ → (ℕ → Option ℕ) → ℕ → Option ℕ
put j d ds x = if nat_beq x j then some d else ds x

unfoldable pub is_child : ℕ → Option ℕ → Bool
is_child y none = false
is_child y (some p) = nat_beq p y

module _ (parent_of : ℕ → Option ℕ) where
  one_if_start : Option ℕ → Option ℕ
  one_if_start none = some 1
  one_if_start (some p) = none

  -- `depth` before its loop.
  unfoldable pub depth_start : ℕ → Option ℕ
  unfolding one_if_start
  depth_start x = one_if_start (parent_of x)

  -- A turn of the loop for the node j, from the entry of j, its parent and the parent's entry; the
  -- addition fails on None.
  abbrev pub depth_turn : ℕ → (ℕ → Option ℕ) → Option ℕ → Option ℕ → Option (ℕ → Option ℕ)
  depth_turn j ds (some d) p = some ds
  depth_turn j ds none none = none
  depth_turn j ds none (some p) = elim (ds p) [ none ↦ none | some d ↦ some (put j (d + 1) ds) ]

  -- The dictionary after the turns of the first n nodes.
  unfoldable pub depths : ℕ → Option (ℕ → Option ℕ)
  unfolding depth_start
  depths zero = some depth_start
  depths (suc j) = elim (depths j) [ none ↦ none | some ds ↦ depth_turn j ds (ds j) (parent_of j) ]

  -- `ancestors`, whose loop has the given fuel.
  unfoldable pub ancestors : ℕ → ℕ → Option (List ℕ)
  ancestors zero x = none
  ancestors (suc fuel) x = elim (parent_of x) [
    | none ↦ some []
    | some p ↦ elim (ancestors fuel p) [ none ↦ none | some out ↦ some (p ∷ out) ]
  ]

  -- `children[y]` among the first n nodes, the last one first, as the stack pops them.
  unfoldable pub children : ℕ → ℕ → List ℕ
  unfolding is_child
  children zero y = []
  children (suc j) y =
      let rest = children j y in if is_child y (parent_of j) then j ∷ rest else rest

  -- The loop of `descendants` among n nodes; the head of the list is the top of the stack.
  unfoldable pub descend : ℕ → ℕ → List ℕ → List ℕ → Option (List ℕ)
  unfolding children
  descend n fuel [] out = some out
  descend n zero (y ∷ stack) out = none
  descend n (suc fuel) (y ∷ stack) out = descend n fuel (children n y ++ stack) (y ∷ out)

  unfoldable pub descendants : ℕ → ℕ → ℕ → Option (List ℕ)
  unfolding descend
  descendants n fuel x = descend n fuel (children n x) []

unfoldable pub relation : List ℕ → List ℕ → ℕ → ℕ → ℕ → Relation
relation anc_g desc_g wg depth_e e =
    if contains anc_g e
    then ancestor
    else if contains desc_g e
    then descendant
    else if ltb depth_e wg
    then conc_earlier
    else if nat_beq depth_e wg
    then conc_same
    else conc_later

pub record Spec : Type 0 where
  pub n : ℕ
  pub parents : ℕ → Option ℕ
  pub roles : ℕ → Role
  pub chosen : ℕ
  pub gate_wave : ℕ
  pub depth : ℕ → Option ℕ
  pub effects : List ℕ
  pub relations : List (ℕ × Relation)

unfoldable pub relate : (ℕ → Option ℕ) → List ℕ → List ℕ → ℕ → List ℕ → Option (List (ℕ × Relation))
relate ds anc_g desc_g wg [] = some []
relate ds anc_g desc_g wg (e ∷ es) =
    let rest = relate ds anc_g desc_g wg es in
    elim (ds e) [
      | none ↦ none
      | some d ↦ elim rest [ none ↦ none | some rs ↦ some ((e, relation anc_g desc_g wg d e) ∷ rs) ]
    ]

-- `gen_one`, its two `while` loops with the given fuel.
unfoldable pub gen_one : ℕ → Draws → Option Spec
unfolding relate depths ancestors descendants role
gen_one fuel r = elim (depths (parent r) r.size) [
  | none ↦ none
  | some ds ↦ elim (ancestors (parent r) fuel r.choice) [
    | none ↦ none
    | some anc_g ↦ elim (descendants (parent r) r.size fuel r.choice) [
      | none ↦ none
      | some desc_g ↦ elim (ds r.choice) [
        | none ↦ none
        | some wg ↦ elim (relate ds anc_g desc_g wg r.sample) [
          | none ↦ none
          | some rs ↦ some (record {
            n = r.size;
            parents = parent r;
            roles = role r;
            chosen = r.choice;
            gate_wave = wg;
            depth = ds;
            effects = r.sample;
            relations = rs;
          })
        ]
      ]
    ]
  ]
]
