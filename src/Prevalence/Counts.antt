-- ===== src/Prevalence/Counts.antt =====
-- The counts of the extraction agree with each other.
use soundgate_paper.Prelude.{
  ℕ, ◌+◌, ◌≤◌, String, ◌≡◌, refl, sym, ◌∙◌, Bool, true, List, [], ◌∷◌, length, length-append, keep,
  contains, lookup, put, leb, nat_beq, nat_beq_iff, nat_eq, string_eq, arith, Bool-cases, inl, inr,
  if◌then◌else◌,
}
use mathlib.Core.Path.{subst}
use soundgate_paper.Prevalence.{
  Row, Extract, has_adjacent, or_zero, take_task, extract_from, extract,
}

-- The tasks counted under the numbers of writes that pass a test.
unfoldable pub under : (ℕ → Bool) → List (ℕ × ℕ) → ℕ
under p [] = 0
under p ((k, c) ∷ dist) = (if p k then c else 0) + under p dist

put-under :
    (p : ℕ → Bool) (k v : ℕ) (dist : List (ℕ × ℕ))
    → under p (put k v dist) + (if p k then or_zero (lookup dist k) else 0)
      ≡ under p dist + (if p k then v else 0)
unfolding under put lookup
put-under p k v [] = ground arith
put-under p k v ((j, c) ∷ dist) = elim (Bool-cases (nat_beq j k)) [
  | inl same ↦ rw (same, (nat_beq_iff j k).0 same) (ground arith)
  | inr other ↦ rw other (ground (arith, put-under p k v dist))
]

under-put :
    (p : ℕ → Bool) (k : ℕ) (dist : List (ℕ × ℕ))
    → under p (put k (or_zero (lookup dist k) + 1) dist) ≡ under p dist + (if p k then 1 else 0)
under-put p k dist = ground (arith, put-under p k (or_zero (lookup dist k) + 1) dist)

module _ (W : List String) where
  adjacent-many :
      (names : List String)
      → has_adjacent W names ≡ true
      → leb 2 (length (keep (contains W) names)) ≡ true
  unfolding has_adjacent keep
  adjacent-many [] h = cc
  adjacent-many (n ∷ []) h = cc
  adjacent-many (n ∷ m ∷ names) h = ground (arith, h, adjacent-many (m ∷ names))

  pub record Agrees (x : Extract) (tasks : ℕ) : Type 0 where
    pub a_row_each : length x.rows ≡ tasks
    pub counted_once : under (λ k. true) x.dist ≡ tasks
    pub many : x.ge2 ≡ under (leb 2) x.dist
    pub fewer : x.adj ≤ x.ge2

  take_task-Agrees :
      (i : ℕ) (names : List String) (x : Extract) (n : ℕ)
      → Agrees x n
      → Agrees (take_task W i names x) (n + 1)
  unfolding take_task
  take_task-Agrees i names x n a =
      let writes = keep (contains W) names in
      let k = length writes in
      let row : Row = record {
        index = i;
        n_gold_actions = length names;
        write_actions = writes;
        n_writes = k;
        ge2_writes = leb 2 k;
        adjacent_write_pair = has_adjacent W names;
      } in
      record {
        a_row_each = omega (arith, a.a_row_each, length-append x.rows (row ∷ []));
        counted_once = ground (arith, a.counted_once, under-put (λ j. true) k x.dist);
        many = ground (arith, a.many, under-put (leb 2) k x.dist);
        fewer = ground (arith, a.fewer, adjacent-many names);
      }

  extract_from-Agrees :
      (i : ℕ) (tasks : List (List String)) (x : Extract) (n : ℕ)
      → Agrees x n
      → Agrees (extract_from W i tasks x) (n + length tasks)
  unfolding extract_from
  extract_from-Agrees i [] x n a = let e : n + 0 ≡ n = omega arith in rw e a
  extract_from-Agrees i (names ∷ tasks) x n a =
      let e : n + length (names ∷ tasks) ≡ n + 1 + length tasks = omega arith in
      subst (Agrees (extract_from W (i + 1) tasks (take_task W i names x))) (sym e) (
        extract_from-Agrees (i + 1) tasks (take_task W i names x) (n + 1)
          (take_task-Agrees i names x n a))

  -- Whatever the write tools and the tasks: each task has one row and is counted once in the
  -- distribution, `ge2` is the number of tasks that the distribution has under two writes or more, and
  -- no more tasks have an adjacent pair of writes than have two writes.
  pub extract-Agrees :
      (tasks : List (List String))
      → let x = extract W tasks in
        (length x.rows ≡ length tasks)
        × (under (λ k. true) x.dist ≡ length tasks)
        × (x.ge2 ≡ under (leb 2) x.dist)
        × (x.adj ≤ x.ge2)
  unfolding extract under
  extract-Agrees tasks =
      let a =
        extract_from-Agrees 0 tasks (record { rows = []; ge2 = 0; adj = 0; dist = [] }) 0
          (record { a_row_each = refl; counted_once = refl; many = refl; fewer = omega arith }) in
      let e : 0 + length tasks ≡ length tasks = omega arith in
      (a.a_row_each ∙ e, a.counted_once ∙ e, a.many, a.fewer)
