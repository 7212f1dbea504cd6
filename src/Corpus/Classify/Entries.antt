-- ===== src/Corpus/Classify/Entries.antt =====
-- corpus/classify_corpus.py, `main`: which candidates get an entry.
use soundgate_paper.Prelude.{
  take, ℕ, zero, suc, ◌+◌, ◌≤◌, ◌≡◌, refl, ap, ◌∙◌, String, Bool, true, false, List, [], ◌∷◌, map,
  length, count_if, contains, insert, contains-insert, ◌==◌, ==→eq, string_eq, nat_eq, pair_eq,
  if◌then◌else◌, arith, Bool-cases, inl, inr,
}
use soundgate_paper.Corpus.Classify.{
  Candidate, IssueKey, issue, unique_from, unique, Response, Entry, Queue, fetch, out_of_calls,
  entry_of, queue_from, queue,
}

-- How many candidates have a key.
unfoldable pub occurs : IssueKey → List Candidate → ℕ
occurs k rows = count_if (λ (r : Candidate). issue r == k) rows

occurs-cons :
    (k : IssueKey) (r : Candidate) (rows : List Candidate)
    → occurs k (r ∷ rows) ≡ (if issue r == k then 1 else 0) + occurs k rows
unfolding occurs count_if
occurs-cons k r rows = refl

unique_from-occurs :
    (k : IssueKey) (seen : List IssueKey) (rows : List Candidate)
    → occurs k (unique_from seen rows)
      ≡ (if contains seen k then 0 else if contains (map issue rows) k then 1 else 0)
unfolding unique_from contains
unique_from-occurs k seen [] = none_left (contains seen k)
  where
    none_left : (b : Bool) → occurs k [] ≡ (if b then 0 else 0)
    none_left b = unfold occurs count_if in ground arith
unique_from-occurs k seen (r ∷ rows) =
    let same_key : (issue r == k) ≡ true → contains seen (issue r) ≡ contains seen k =
      λ same. ap (contains seen) (==→eq (issue r) k same) in
    ground (
      arith,
      same_key,
      unique_from-occurs k seen rows,
      unique_from-occurs k (insert (issue r) seen) rows,
      contains-insert (issue r) k seen,
      occurs-cons k r (unique_from (insert (issue r) seen) rows),
    )

unique-occurs :
    (k : IssueKey) (rows : List Candidate)
    → occurs k (unique rows) ≡ (if contains (map issue rows) k then 1 else 0)
unfolding unique contains
unique-occurs k rows = unique_from-occurs k [] rows

module _ (lower : String → String) (github : IssueKey → Response) where
  abbrev pub candidates : Queue → List Candidate
  candidates q = map (λ (e : Entry). e.candidate) q.entries

  -- The entries are for the first candidates, and for all unless the calls ran out.
  record Covers (uniq : List Candidate) (q : Queue) : Type 0 where
    firsts : candidates q ≡ take (length q.entries) uniq
    within : length q.entries ≤ length uniq
    whole : q.stopped ≡ false → length q.entries ≡ length uniq

  queue_from-Covers : (i : ℕ) (uniq : List Candidate) → Covers uniq (queue_from lower github i uniq)
  unfolding queue_from entry_of
  queue_from-Covers i [] = record { firsts = refl; within = omega arith; whole = λ h. refl }
  queue_from-Covers i (r ∷ uniq) =
      elim (Bool-cases (out_of_calls (fetch lower (github (issue r))).1)) [
        | inl out ↦
            rw out (record { firsts = refl; within = omega arith; whole = λ h. absurd (cc) })
        | inr go_on ↦
            let c = queue_from-Covers (i + 1) uniq in
            rw go_on (record {
              firsts = ap (λ (t : List Candidate). r ∷ t) c.firsts;
              within = omega (arith, c.within);
              whole = λ h. omega (arith, c.whole h);
            })
      ]

occurs-take :
    (k : IssueKey) (n : ℕ) (rows : List Candidate) → occurs k (take n rows) ≤ occurs k rows
unfolding occurs count_if
occurs-take k zero rows = omega arith
occurs-take k (suc n) [] = omega arith
occurs-take k (suc n) (r ∷ rows) = omega (arith, occurs-take k n rows)

take_all : (rows : List Candidate) → take (length rows) rows ≡ rows
take_all [] = refl
take_all (r ∷ rows) = ap (λ (t : List Candidate). r ∷ t) (take_all rows)

-- Whatever GitHub answers: no issue of the sweep has two entries, and unless the calls ran out each has
-- one, and no other issue has any.
pub queue_once :
    (lower : String → String) (github : IssueKey → Response) (rows : List Candidate) (k : IssueKey)
    → (occurs k (candidates lower github (queue lower github rows)) ≤ 1)
      × ((queue lower github rows).stopped ≡ false
          → occurs k (candidates lower github (queue lower github rows))
            ≡ (if contains (map issue rows) k then 1 else 0))
unfolding queue
queue_once lower github rows k =
    let uniq : List Candidate = unique rows in
    let q : Queue = queue lower github rows in
    let c : Covers lower github uniq q = queue_from-Covers lower github 1 uniq in
    let kept : occurs k (candidates lower github q) ≤ occurs k uniq =
      rw (c.firsts) (occurs-take k (length q.entries) uniq) in
    let counted : occurs k uniq ≡ (if contains (map issue rows) k then 1 else 0) =
      unique-occurs k rows in
    (
      ground (arith, kept, counted),
      λ h. ap (occurs k) (c.firsts ∙ ap (λ n. take n uniq) (c.whole h) ∙ take_all uniq) ∙ counted,
    )
