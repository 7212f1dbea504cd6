-- ===== src/Exposure/Tables/Totals.antt =====
-- exposure/src/exposure/analyze.py: the sums over the groups of the two tables.
use soundgate_paper.Prelude.{
  ℕ, ◌+◌, ◌≡◌, refl, sym, ◌∙◌, String, Bool, List, [], ◌∷◌, ◌++◌, length, keep, map, lookup, put,
  ◌==◌, string_eq, pair_eq, Eq, arith, Bool-cases, inl, inr, if◌then◌else◌,
}
use soundgate_paper.Exposure.Tables.{
  OkRow, TaskKey, key_less, pair_less, insert_item, sorted_items, or_empty, per_task, Part, part_of,
  task_lines, Agg, append_part, aggregate, sum_parts, scope_lines,
}

unfoldable pub sum_by {ℓ} : {A : Type ℓ} → (A → ℕ) → List A → ℕ
sum_by f [] = 0
sum_by f (x ∷ xs) = f x + sum_by f xs

sum_by-append {ℓ} :
    {A : Type ℓ} (f : A → ℕ) (xs ys : List A) → sum_by f (xs ++ ys) ≡ sum_by f xs + sum_by f ys
unfolding sum_by
sum_by-append f [] ys = omega arith
sum_by-append f (x ∷ xs) ys = omega (arith, sum_by-append f xs ys)

module _ {K : Type 0} ⦃e : Eq K⦄ {A : Type 0} (f : A → ℕ) where
  -- The sum over all groups.
  abbrev over : List (K × List A) → ℕ
  over m = sum_by (λ (g : K × List A). sum_by f g.1) m

  put-over :
      (k : K) (v : List A) (m : List (K × List A))
      → over (put k v m) + sum_by f (or_empty (lookup m k)) ≡ over m + sum_by f v
  unfolding sum_by put lookup
  put-over k v [] = omega arith
  put-over k v ((j, w) ∷ m) = elim (Bool-cases (j == k)) [
    | inl same ↦ rw same (omega arith)
    | inr other ↦ rw other (omega (arith, put-over k v m))
  ]

  appended :
      (k : K) (a : A) (m : List (K × List A))
      → over (put k (or_empty (lookup m k) ++ a ∷ []) m) ≡ over m + f a
  unfolding sum_by
  appended k a m = omega (
    arith,
    put-over k (or_empty (lookup m k) ++ a ∷ []) m,
    sum_by-append f (or_empty (lookup m k)) (a ∷ []),
  )

module _ {K : Type 0} {V : Type 0} (less : K → K → Bool) (f : K × V → ℕ) where
  insert_item-sum :
      (x : K × V) (ys : List (K × V)) → sum_by f (insert_item less x ys) ≡ f x + sum_by f ys
  unfolding insert_item sum_by
  insert_item-sum x [] = refl
  insert_item-sum x (y ∷ ys) = ground (arith, insert_item-sum x ys)

  sorted_items-sum : (xs : List (K × V)) → sum_by f (sorted_items less xs) ≡ sum_by f xs
  unfolding sorted_items sum_by
  sorted_items-sum [] = refl
  sorted_items-sum (x ∷ xs) =
      omega (arith, insert_item-sum x (sorted_items less xs), sorted_items-sum xs)

map-sum :
    {A : Type 0} {B : Type 0} (g : A → B) (f : B → ℕ) (xs : List A)
    → sum_by f (map g xs) ≡ sum_by (λ x. f (g x)) xs
unfolding sum_by
map-sum g f [] = refl
map-sum g f (x ∷ xs) = omega (arith, map-sum g f xs)

same_sum :
    {A : Type 0} (f g : A → ℕ) → ((x : A) → f x ≡ g x) → (xs : List A) → sum_by f xs ≡ sum_by g xs
unfolding sum_by
same_sum f g h [] = refl
same_sum f g h (x ∷ xs) = omega (arith, h x, same_sum f g h xs)

-- A number of a line, and what each record adds to it.
module _ (g : Part → ℕ) (f : OkRow → ℕ) (counts : (rs : List OkRow) → g (part_of rs) ≡ sum_by f rs)
    (adds : (ps : List Part) → g (sum_parts ps) ≡ sum_by g ps) where
  per_task-sum :
      (m : List (TaskKey × List OkRow)) (rs : List OkRow)
      → over f (per_task m rs) ≡ over f m + sum_by f rs
  unfolding per_task sum_by
  per_task-sum m [] = omega arith
  per_task-sum m (r ∷ rs) =
      let k : TaskKey = (r.model, (r.klass, r.task)) in
      omega (arith, per_task-sum (put k (or_empty (lookup m k) ++ r ∷ []) m) rs, appended f k r m)

  task_lines-sum :
      (ok : List OkRow) → sum_by (λ (l : TaskKey × Part). g l.1) (task_lines ok) ≡ sum_by f ok
  unfolding task_lines sum_by
  task_lines-sum ok =
      map-sum (λ (x : TaskKey × List OkRow). (x.0, part_of x.1)) (λ (l : TaskKey × Part). g l.1)
        (sorted_items key_less (per_task [] ok))
      ∙ same_sum _ (λ (x : TaskKey × List OkRow). sum_by f x.1) (λ x. counts x.1)
          (sorted_items key_less (per_task [] ok))
      ∙ sorted_items-sum key_less (λ (x : TaskKey × List OkRow). sum_by f x.1) (per_task [] ok)
      ∙ per_task-sum [] ok
      ∙ omega arith

  aggregate-sum :
      (m : Agg) (lines : List (TaskKey × Part))
      → over g (aggregate m lines)
        ≡ over g m
          + (sum_by (λ (l : TaskKey × Part). g l.1) lines
              + sum_by (λ (l : TaskKey × Part). g l.1) lines)
  unfolding aggregate sum_by
  aggregate-sum m [] = omega arith
  aggregate-sum m (((model, (klass, task)), p) ∷ lines) =
      let m1 = append_part (model, klass) p m in
      omega (
        arith,
        aggregate-sum (append_part (model, "ALL") p m1) lines,
        appended g (model, "ALL") p m1,
        appended g (model, klass) p m,
      )

  scope_lines-sum :
      (ok : List OkRow)
      → sum_by (λ (l : (String × String) × Part). g l.1) (scope_lines ok)
        ≡ sum_by f ok + sum_by f ok
  unfolding scope_lines sum_by
  scope_lines-sum ok =
      let m = aggregate [] (task_lines ok) in
      map-sum (λ (x : (String × String) × List Part). (x.0, sum_parts x.1))
        (λ (l : (String × String) × Part). g l.1) (sorted_items pair_less m)
      ∙ same_sum _ (λ (x : (String × String) × List Part). sum_by g x.1) (λ x. adds x.1)
          (sorted_items pair_less m)
      ∙ sorted_items-sum pair_less (λ (x : (String × String) × List Part). sum_by g x.1) m
      ∙ aggregate-sum [] (task_lines ok)
      ∙ omega (arith, task_lines-sum ok)

abbrev one : OkRow → ℕ
one r = 1

abbrev pub if_called : OkRow → ℕ
if_called r = if r.consequential_called then 1 else 0

abbrev pub if_exposed : OkRow → ℕ
if_exposed r = if r.consequential_called then if r.parallel_exposure then 1 else 0 else 0

n-counts : (rs : List OkRow) → (part_of rs).n ≡ sum_by one rs
unfolding part_of sum_by
n-counts [] = refl
n-counts (r ∷ rs) = omega (arith, n-counts rs)

k1-counts : (rs : List OkRow) → (part_of rs).k1 ≡ sum_by if_called rs
unfolding part_of sum_by keep
k1-counts [] = refl
k1-counts (r ∷ rs) = ground (arith, k1-counts rs)

k2-counts : (rs : List OkRow) → (part_of rs).k2 ≡ sum_by if_exposed rs
unfolding part_of sum_by keep
k2-counts [] = refl
k2-counts (r ∷ rs) = ground (arith, k2-counts rs)

n-adds : (ps : List Part) → (sum_parts ps).n ≡ sum_by (λ (p : Part). p.n) ps
unfolding sum_parts sum_by
n-adds [] = refl
n-adds (p ∷ ps) = omega (arith, n-adds ps)

k1-adds : (ps : List Part) → (sum_parts ps).k1 ≡ sum_by (λ (p : Part). p.k1) ps
unfolding sum_parts sum_by
k1-adds [] = refl
k1-adds (p ∷ ps) = omega (arith, k1-adds ps)

k2-adds : (ps : List Part) → (sum_parts ps).k2 ≡ sum_by (λ (p : Part). p.k2) ps
unfolding sum_parts sum_by
k2-adds [] = refl
k2-adds (p ∷ ps) = omega (arith, k2-adds ps)

abbrev pub column : {K : Type 0} → (Part → ℕ) → List (K × Part) → ℕ
column {K} g lines = sum_by (λ (l : K × Part). g l.1) lines

-- Whatever the records: the first table's column `n` sums to the number of records, `k1` to the number
-- that called the consequential tool, `k2` to the number that called it beside another tool; the
-- columns of the second table sum to twice as much.
pub tables-Totals :
    (ok : List OkRow)
    → (column (λ p. p.n) (task_lines ok) ≡ length ok)
      × (column (λ p. p.k1) (task_lines ok) ≡ sum_by if_called ok)
      × (column (λ p. p.k2) (task_lines ok) ≡ sum_by if_exposed ok)
      × (column (λ p. p.n) (scope_lines ok) ≡ length ok + length ok)
      × (column (λ p. p.k1) (scope_lines ok) ≡ sum_by if_called ok + sum_by if_called ok)
      × (column (λ p. p.k2) (scope_lines ok) ≡ sum_by if_exposed ok + sum_by if_exposed ok)
unfolding part_of
tables-Totals ok =
    let each : length ok ≡ sum_by one ok = n-counts ok in
    (
      task_lines-sum (λ p. p.n) one n-counts n-adds ok ∙ sym each,
      task_lines-sum (λ p. p.k1) if_called k1-counts k1-adds ok,
      task_lines-sum (λ p. p.k2) if_exposed k2-counts k2-adds ok,
      omega (arith, each, scope_lines-sum (λ p. p.n) one n-counts n-adds ok),
      scope_lines-sum (λ p. p.k1) if_called k1-counts k1-adds ok,
      scope_lines-sum (λ p. p.k2) if_exposed k2-counts k2-adds ok,
    )
