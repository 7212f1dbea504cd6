-- ===== src/Exposure/Analysis.antt =====
-- exposure/src/exposure/analyze.py, `main`: of the records of one run (provider, model, task, index)
-- the first without an error counts, and an error counts only for a run without such a record.
use soundgate_paper.Prelude.{
  ℕ, ◌+◌, ◌≡◌, refl, Bool, false, not, ◌&&◌, Option, none, some, List, [], ◌∷◌, arith, length,
  count_if, lookup, put, lookup-put, keep_keys, lookup-keep_keys, is_some, ◌==◌, if◌then◌else◌, Eq,
}

-- The key of a run is its provider, model, task and index, as far as the record has them.
pub record Result (K : Type 0) : Type 0 where
  pub key : K
  pub has_error : Bool
  pub consequential_called : Bool
  pub parallel_exposure : Bool

pub record Dedup (K : Type 0) : Type 0 where
  pub first_ok : List (K × Result K)
  pub first_err : List (K × Result K)
  pub dropped : ℕ

module _ {K : Type 0} ⦃e : Eq K⦄ where
  -- `m.setdefault(k, r)`
  abbrev setdefault : K → Result K → List (K × Result K) → List (K × Result K)
  setdefault k r m = if is_some (lookup m k) then m else put k r m

  unfoldable pub take_result : Dedup K → Result K → Dedup K
  take_result d r =
      if r.has_error
      then record d { first_err = setdefault r.key r d.first_err }
      else if is_some (lookup d.first_ok r.key)
      then record d { dropped = d.dropped + 1 }
      else record d { first_ok = put r.key r d.first_ok }

  unfoldable pub dedup_from : Dedup K → List (Result K) → Dedup K
  dedup_from d [] = d
  dedup_from d (r ∷ rs) = dedup_from (take_result d r) rs

  abbrev pub no_results : Dedup K
  no_results = record { first_ok = []; first_err = []; dropped = 0 }

  unfoldable pub dedup : List (Result K) → Dedup K
  unfolding dedup_from take_result
  dedup rs = dedup_from no_results rs

  -- `[r for k, r in first_err.items() if k not in first_ok]`
  unfoldable pub errs : Dedup K → List (K × Result K)
  errs d = keep_keys (λ k. not (is_some (lookup d.first_ok k))) d.first_err

  -- The first result of a run that passes a test.
  unfoldable pub first_of : (Result K → Bool) → K → List (Result K) → Option (Result K)
  first_of p k [] = none
  first_of p k (r ∷ rs) = if p r && r.key == k then some r else first_of p k rs

  abbrev or_else : Option (Result K) → Option (Result K) → Option (Result K)
  or_else none o = o
  or_else (some r) o = some r

  abbrev pub is_ok : Result K → Bool
  is_ok r = not r.has_error

  length-put :
      (k : K) (r : Result K) (m : List (K × Result K))
      → is_some (lookup m k) ≡ false
      → length (put k r m) ≡ length m + 1
  unfolding lookup put
  length-put k r [] h = refl
  length-put k r ((j, s) ∷ m) h = ground (arith, h, length-put k r m)

  dedup_from-count :
      (d : Dedup K) (rs : List (Result K))
      → length (dedup_from d rs).first_ok + (dedup_from d rs).dropped
        ≡ length d.first_ok + d.dropped + count_if is_ok rs
  unfolding dedup_from take_result count_if
  dedup_from-count d [] = omega arith
  dedup_from-count d (r ∷ rs) =
      ground (arith, dedup_from-count (take_result d r) rs, length-put r.key r d.first_ok)

  dedup_from-ok :
      (d : Dedup K) (rs : List (Result K)) (k : K)
      → lookup (dedup_from d rs).first_ok k ≡ or_else (lookup d.first_ok k) (first_of is_ok k rs)
  unfolding dedup_from take_result first_of
  dedup_from-ok d [] k = ground arith
  dedup_from-ok d (r ∷ rs) k = ground (
    arith,
    dedup_from-ok (take_result d r) rs k,
    lookup-put r.key k r d.first_ok,
    e.same_iff r.key k,
  )

  dedup_from-err :
      (d : Dedup K) (rs : List (Result K)) (k : K)
      → lookup (dedup_from d rs).first_err k
        ≡ or_else (lookup d.first_err k) (first_of (λ r. r.has_error) k rs)
  unfolding dedup_from take_result first_of
  dedup_from-err d [] k = ground arith
  dedup_from-err d (r ∷ rs) k = ground (
    arith,
    dedup_from-err (take_result d r) rs k,
    lookup-put r.key k r d.first_err,
    e.same_iff r.key k,
  )

  -- What counts for a run: its first record without an error; its error is listed if it has none such.
  -- No record is lost: those that count and those dropped are all that have no error.
  pub dedup_lem :
      (rs : List (Result K))
      → ((k : K) → lookup (dedup rs).first_ok k ≡ first_of is_ok k rs)
        × ((k : K)
            → lookup (errs (dedup rs)) k
              ≡ (if is_some (first_of is_ok k rs) then none else first_of (λ r. r.has_error) k rs))
        × (length (dedup rs).first_ok + (dedup rs).dropped ≡ count_if is_ok rs)
  unfolding dedup errs lookup
  dedup_lem rs = (
    dedup_from-ok _ rs,
    λ k. ground (
      arith,
      lookup-keep_keys (λ j. not (is_some (lookup (dedup_from no_results rs).first_ok j))) k
          (dedup_from no_results rs).first_err,
      dedup_from-ok no_results rs k,
      dedup_from-err no_results rs k,
    ),
    omega (arith, dedup_from-count no_results rs),
  )
