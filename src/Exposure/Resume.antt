-- ===== src/Exposure/Resume.antt =====
-- exposure/src/exposure/runner.py, `load_done` and the choice of runs in `main`: a batch that was
-- interrupted goes on where it stopped. A line of the results file is read as an entry, or as
-- nothing where it is blank or no JSON.
use mathlib.Core.List.{map-append}
use soundgate_paper.Prelude.{
  ap, any, ==→eq, ltb, contains-append, inl, inr, Bool-cases, ℕ, zero, suc, String, ◌≡◌, refl, ◌∙◌,
  Bool, false, not, ◌&&◌, ◌||◌, Option, none, some, List, [], ◌∷◌, ◌++◌, arith, contains,
  contains-insert, insert, keep, ◌==◌, string_eq, nat_eq, pair_eq, option_eq, if◌then◌else◌, map,
}
use soundgate_paper.Exposure.Tasks.{Task}

abbrev pub Key : Type 0
Key = String × ℕ

pub record Entry : Type 0 where
  pub provider : Option String
  pub model : Option String
  pub key : Key
  pub error : Option String

-- `r.get("error")` as a condition
abbrev pub failed : Option String → Bool
failed none = false
failed (some e) = not (e == "")

module _ (provider model : String) where
  unfoldable pub load_done : List (Option Entry) → List Key
  load_done [] = []
  load_done (none ∷ lines) = load_done lines
  load_done (some r ∷ lines) =
      let rest = load_done lines in
      if failed r.error
      then rest
      else if r.provider == some provider && r.model == some model
      then insert r.key rest
      else rest

-- `range(runs)`
unfoldable pub range : ℕ → List ℕ
range zero = []
range (suc n) = range n ++ n ∷ []

unfoldable pub all_runs : List Task → List ℕ → List (Task × ℕ)
all_runs [] runs = []
all_runs (t ∷ ts) runs = map (λ i. (t, i)) runs ++ all_runs ts runs

abbrev pub key_of : Task × ℕ → Key
key_of (t, i) = (t.task_id, i)

unfoldable pub todo : List Task → ℕ → List Key → List (Task × ℕ)
unfolding range all_runs
todo tasks runs done = keep (λ r. not (contains done (key_of r))) (all_runs tasks (range runs))

-- The line records this run of the provider's model, and without an error.
abbrev pub records : String → String → Key → Option Entry → Bool
records provider model k none = false
records provider model k (some r) =
    (r.error == none || r.error == some "")
    && (r.provider == some provider && (r.model == some model && r.key == k))

contains-load_done :
    (provider model : String) (lines : List (Option Entry)) (k : Key)
    → contains (load_done provider model lines) k ≡ any (records provider model k) lines
unfolding load_done contains any
contains-load_done provider model [] k = refl
contains-load_done provider model (none ∷ lines) k = contains-load_done provider model lines k
contains-load_done provider model (some r ∷ lines) k = ground (
  arith,
  contains-load_done provider model lines k,
  contains-insert r.key k (load_done provider model lines),
)

contains-range : (n i : ℕ) → contains (range n) i ≡ ltb i n
unfolding range contains
contains-range zero i = ground arith
contains-range (suc n) i = ground (arith, contains-range n i, contains-append (range n) (n ∷ []) i)

contains-runs :
    (t : Task) (runs : List ℕ) (id : String) (i : ℕ)
    → contains (map key_of (map (λ j. (t, j)) runs)) (id, i) ≡ (t.task_id == id && contains runs i)
unfolding contains
contains-runs t [] id i = ground arith
contains-runs t (j ∷ runs) id i = ground (arith, contains-runs t runs id i)

contains-all_runs :
    (tasks : List Task) (runs : List ℕ) (id : String) (i : ℕ)
    → contains (map key_of (all_runs tasks runs)) (id, i)
      ≡ (any (λ t. t.task_id == id) tasks && contains runs i)
unfolding all_runs contains any
contains-all_runs [] runs id i = refl
contains-all_runs (t ∷ tasks) runs id i =
    ap (λ ks. contains ks (id, i))
      (map-append key_of (map (λ j. (t, j)) runs) (all_runs tasks runs))
    ∙ ground (
      arith,
      contains-append (map key_of (map (λ j. (t, j)) runs)) (map key_of (all_runs tasks runs))
          (id, i),
      contains-runs t runs id i,
      contains-all_runs tasks runs id i,
    )

contains-left :
    (done : List Key) (rs : List (Task × ℕ)) (k : Key)
    → contains (map key_of (keep (λ r. not (contains done (key_of r))) rs)) k
      ≡ (contains (map key_of rs) k && not (contains done k))
unfolding keep contains
contains-left done [] k = refl
contains-left done (r ∷ rs) k = elim (Bool-cases (key_of r == k)) [
  | inl same ↦ ground (
    arith,
    contains-left done rs k,
    same,
    ap (λ (j : Key). contains done j) (==→eq (key_of r) k same),
  )
  | inr other ↦ ground (arith, contains-left done rs k, other)
]

-- Whatever the lines of the results file: a run is left to do exactly if it is of one of the tasks, its
-- number is below `runs`, and no line records it for this provider and model without an error.
pub contains-todo :
    (provider model : String) (tasks : List Task) (runs : ℕ) (lines : List (Option Entry))
    (id : String) (i : ℕ)
    → contains (map key_of (todo tasks runs (load_done provider model lines))) (id, i) ≡ (
        any (λ t. t.task_id == id) tasks
        && (ltb i runs && not (any (records provider model (id, i)) lines)))
unfolding todo
contains-todo provider model tasks runs lines id i = ground (
  arith,
  contains-left (load_done provider model lines) (all_runs tasks (range runs)) (id, i),
  contains-all_runs tasks (range runs) id i,
  contains-range runs i,
  contains-load_done provider model lines (id, i),
)
