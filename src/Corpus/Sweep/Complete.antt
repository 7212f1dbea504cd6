-- ===== src/Corpus/Sweep/Complete.antt =====
-- corpus/corpus_sweep.py: what the results file holds after sweeps.
use soundgate_paper.Prelude.{
  take, drop, ℕ, zero, suc, ◌+◌, ◌/◌, ◌≡◌, refl, sym, ap, ◌∙◌, Bool, true, false, ◌||◌, Option,
  none, some, List, [], ◌∷◌, ◌++◌, map, length, any, count_if, count_if-append, contains,
  contains-insert, ◌==◌, string_eq, nat_eq, pair_eq, if◌then◌else◌, Bool-cases, inl, inr, arith,
  ltb, ==→eq, or_true, ==_refl,
}
use soundgate_paper.Corpus.Sweep.{
  Item, Hit, HitKey, key, Search, Pair, Sweep, take_hit, hit, take_items, take_answer, run_pairs,
  pairs, chunk_pairs, run_chunk,
}

-- How often a key is in the file.
unfoldable pub occurs : HitKey → List Hit → ℕ
occurs k rows = count_if (λ (h : Hit). key h == k) rows

-- Whether a search of a pair answers with an item of that key.
unfoldable pub in_answer : Pair → HitKey → Option (List Item) → Bool
in_answer p k none = false
in_answer p k (some items) = any (λ (it : Item). key (hit p it) == k) items

unfoldable pub answered : Search → List Pair → HitKey → Bool
unfolding in_answer
answered search ps k = any (λ (p : Pair). in_answer p k (search p.0 p.1.1)) ps

-- `seen` has the keys of the rows.
abbrev Seen : Sweep → Type 0
Seen s = (k : HitKey) → contains s.seen k ≡ ltb 0 (occurs k s.rows)

-- The count after a pass in which the key was met or not.
abbrev after : ℕ → Bool → ℕ
after old met = if ltb 0 old then old else if met then 1 else 0

occurs-snoc :
    (k : HitKey) (rows : List Hit) (h : Hit)
    → occurs k (rows ++ h ∷ []) ≡ occurs k rows + (if key h == k then 1 else 0)
unfolding occurs count_if
occurs-snoc k rows h = omega (arith, count_if-append (λ (g : Hit). key g == k) rows (h ∷ []))

take_hit-occurs :
    (h : Hit) (s : Sweep)
    → Seen s
    → (k : HitKey) → occurs k (take_hit h s).rows ≡ after (occurs k s.rows) (key h == k)
unfolding take_hit
take_hit-occurs h s v k = elim (Bool-cases (key h == k)) [
  | inl same ↦ rw (same) (
      let seen : contains s.seen (key h) ≡ ltb 0 (occurs k s.rows) =
        v (key h) ∙ ap (λ (j : HitKey). ltb 0 (occurs j s.rows)) (==→eq (key h) k same) in
      ground (arith, seen, same, occurs-snoc k s.rows h))
  | inr other ↦ rw (other) (ground (arith, other, occurs-snoc k s.rows h))
]

take_hit-Seen : (h : Hit) (s : Sweep) → Seen s → Seen (take_hit h s)
unfolding take_hit
take_hit-Seen h s v k =
    ground (
      arith,
      v k,
      take_hit-occurs h s v k,
      contains-insert (key h) k s.seen,
      occurs-snoc k s.rows h,
    )

-- A pass keeps the set right and counts each key as `after` says.
record Counts (s t : Sweep) (met : HitKey → Bool) : Type 0 where
  seen : Seen t
  counted : (k : HitKey) → occurs k t.rows ≡ after (occurs k s.rows) (met k)

nothing : (s : Sweep) → Seen s → Counts s s (λ k. false)
nothing s v = record { seen = v; counted = λ k. ground arith }

then_pass :
    {s t u : Sweep} {m n : HitKey → Bool}
    → Counts s t m
    → Counts t u n
    → Counts s u (λ k. m k || n k)
then_pass {s} {t} {u} {m} {n} a b = record {
  seen = b.seen;
  counted = λ k. ground (arith, a.counted k, b.counted k);
}

take_items-Counts :
    (p : Pair) (items : List Item) (s : Sweep)
    → Seen s
    → Counts s (take_items p items s) (λ k. any (λ (it : Item). key (hit p it) == k) items)
unfolding take_items any
take_items-Counts p [] s v = nothing s v
take_items-Counts p (it ∷ items) s v =
    let one : Counts s (take_hit (hit p it) s) (λ k. key (hit p it) == k) = record {
      seen = take_hit-Seen (hit p it) s v;
      counted = take_hit-occurs (hit p it) s v;
    } in
    then_pass one (take_items-Counts p items (take_hit (hit p it) s) one.seen)

take_answer-Counts :
    (p : Pair) (answer : Option (List Item)) (s : Sweep)
    → Seen s
    → Counts s (take_answer p answer s) (λ k. in_answer p k answer)
unfolding take_answer in_answer
take_answer-Counts p none s v = nothing s v
take_answer-Counts p (some items) s v = take_items-Counts p items s v

run_pairs-Counts :
    (search : Search) (ps : List Pair) (s : Sweep)
    → Seen s
    → Counts s (run_pairs search ps s) (answered search ps)
unfolding run_pairs answered any
run_pairs-Counts search [] s v = nothing s v
run_pairs-Counts search (p ∷ ps) s v =
    let one : Counts s (take_answer p (search p.0 p.1.1) s)
        (λ k. in_answer p k (search p.0 p.1.1)) =
      take_answer-Counts p (search p.0 p.1.1) s v in
    then_pass one (run_pairs-Counts search ps (take_answer p (search p.0 p.1.1) s) one.seen)

-- The set that is read from the file.
loaded : (rows : List Hit) → Seen (record { seen = map key rows; rows = rows })
unfolding occurs contains count_if
loaded [] k = refl
loaded (h ∷ rows) k = ground (arith, loaded rows k)

pub run_chunk-occurs :
    (chunk : ℕ) (search : Search) (rows : List Hit) (k : HitKey)
    → occurs k (run_chunk chunk search rows)
      ≡ after (occurs k rows) (answered search (chunk_pairs chunk) k)
unfolding run_chunk
run_chunk-occurs chunk search rows k =
    (run_pairs-Counts search (chunk_pairs chunk) (record { seen = map key rows; rows = rows })
        (loaded rows)).counted
      k

any-append {ℓ} :
    {A : Type ℓ} (p : A → Bool) (xs ys : List A) → any p (xs ++ ys) ≡ (any p xs || any p ys)
unfolding any
any-append p [] ys = refl
any-append p (x ∷ xs) ys = ground (arith, any-append p xs ys)

take-drop {ℓ} : {A : Type ℓ} (n : ℕ) (xs : List A) → take n xs ++ drop n xs ≡ xs
take-drop zero xs = refl
take-drop (suc n) [] = refl
take-drop (suc n) (x ∷ xs) = ap (λ t. x ∷ t) (take-drop n xs)

halves-answered :
    (search : Search) (k : HitKey)
    → (answered search (chunk_pairs 1) k || answered search (chunk_pairs 2) k)
      ≡ answered search pairs k
unfolding answered chunk_pairs
halves-answered search k =
    let p : Pair → Bool = λ (p : Pair). in_answer p k (search p.0 p.1.1) in
    let half : ℕ = length pairs / 2 in
    sym (any-append p (take half pairs) (drop half pairs)) ∙ ap (any p) (take-drop half pairs)

-- Whatever the file and the answers: after both chunks, a key that was in the file is there as often
-- as before, and any other key once if the search of some repository and query answered with it, and
-- else not at all.
pub sweep-Complete :
    (search : Search) (rows : List Hit) (k : HitKey)
    → occurs k (run_chunk 2 search (run_chunk 1 search rows))
      ≡ (if ltb 0 (occurs k rows) then occurs k rows else if answered search pairs k then 1 else 0)
sweep-Complete search rows k = ground (
  arith,
  run_chunk-occurs 2 search (run_chunk 1 search rows) k,
  run_chunk-occurs 1 search rows k,
  halves-answered search k,
)

-- A pass over answers that the set already holds.
take_items-old :
    (p : Pair) (items : List Item) (s : Sweep)
    → ((k : HitKey)
        → any (λ (it : Item). key (hit p it) == k) items ≡ true
        → contains s.seen k ≡ true)
    → take_items p items s ≡ s
unfolding take_items take_hit any
take_items-old p [] s old = refl
take_items-old p (it ∷ items) s old =
    let here : contains s.seen (key (hit p it)) ≡ true =
      old (key (hit p it)) (rw (==_refl (key (hit p it))) refl) in
    rw here (take_items-old p items s (λ k met. old k (rw met (or_true (key (hit p it) == k)))))

take_answer-old :
    (p : Pair) (answer : Option (List Item)) (s : Sweep)
    → ((k : HitKey) → in_answer p k answer ≡ true → contains s.seen k ≡ true)
    → take_answer p answer s ≡ s
unfolding take_answer in_answer
take_answer-old p none s old = refl
take_answer-old p (some items) s old = take_items-old p items s old

run_pairs-old :
    (search : Search) (ps : List Pair) (s : Sweep)
    → ((k : HitKey) → answered search ps k ≡ true → contains s.seen k ≡ true)
    → run_pairs search ps s ≡ s
unfolding run_pairs answered any
run_pairs-old search [] s old = refl
run_pairs-old search (p ∷ ps) s old =
    let first : take_answer p (search p.0 p.1.1) s ≡ s =
      take_answer-old p (search p.0 p.1.1) s (λ k met. old k (rw met refl)) in
    rw first (
      run_pairs-old search ps s
        (λ k met. old k (rw met (or_true (in_answer p k (search p.0 p.1.1))))))

-- Whatever the file: sweeping a chunk again, with the same answers, leaves the file as it is.
pub run_chunk_again :
    (chunk : ℕ) (search : Search) (rows : List Hit)
    → run_chunk chunk search (run_chunk chunk search rows) ≡ run_chunk chunk search rows
unfolding run_chunk
run_chunk_again chunk search rows =
    let swept : List Hit = run_chunk chunk search rows in
    let s : Sweep = record { seen = map key swept; rows = swept } in
    ap (λ (t : Sweep). t.rows)
      (run_pairs-old search (chunk_pairs chunk) s
        (λ k met. loaded swept k ∙ ground (arith, met, run_chunk-occurs chunk search rows k)))
