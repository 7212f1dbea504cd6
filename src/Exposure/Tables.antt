-- ===== src/Exposure/Tables.antt =====
-- exposure/src/exposure/analyze.py, the tables of `main`, as their numbers: a line for each model, class
-- and task, and one for each model and scope. The rates with their intervals are left out.
pub mod Totals
use Prim.Native.String.{compare}
use Prim.Native.Nat.{Ordering}
use soundgate_paper.Prelude.{
  ℕ, ◌+◌, String, Bool, true, false, not, ◌&&◌, ◌||◌, Option, none, some, List, [], ◌∷◌, ◌++◌,
  length, keep, map, lookup, put, ◌==◌, string_eq, pair_eq, if◌then◌else◌,
}

-- A record without an error; `model` is the text f'{provider}:{model}'.
pub record OkRow : Type 0 where
  pub model : String
  pub klass : String
  pub task : String
  pub consequential_called : Bool
  pub parallel_exposure : Bool

abbrev pub TaskKey : Type 0
TaskKey = String × (String × String)

unfoldable pub text_less : String → String → Bool
text_less a b = elim (compare a b) [ Ordering.lt ↦ true | _ ↦ false ]

unfoldable pub pair_less : String × String → String × String → Bool
unfolding text_less
pair_less (a, b) (c, d) = text_less a c || (a == c && text_less b d)

unfoldable pub key_less : TaskKey → TaskKey → Bool
unfolding text_less pair_less
key_less (a, p) (c, q) = text_less a c || (a == c && pair_less p q)

-- `sorted(d.items())`; no two items have the same key.
module _ {K : Type 0} {V : Type 0} (less : K → K → Bool) where
  unfoldable pub insert_item : K × V → List (K × V) → List (K × V)
  insert_item x [] = x ∷ []
  insert_item x (y ∷ ys) =
      let rest = insert_item x ys in if less y.0 x.0 then y ∷ rest else x ∷ y ∷ ys

  unfoldable pub sorted_items : List (K × V) → List (K × V)
  unfolding insert_item
  sorted_items [] = []
  sorted_items (x ∷ xs) = insert_item x (sorted_items xs)

abbrev pub or_empty : {A : Type 0} → Option (List A) → List A
or_empty none = []
or_empty (some xs) = xs

-- `per_task[...].append(r)`, over the records.
unfoldable pub per_task : List (TaskKey × List OkRow) → List OkRow → List (TaskKey × List OkRow)
per_task m [] = m
per_task m (r ∷ rs) =
    let k : TaskKey = (r.model, (r.klass, r.task)) in
    per_task (put k (or_empty (lookup m k) ++ r ∷ []) m) rs

pub record Part : Type 0 where
  pub n : ℕ
  pub k1 : ℕ
  pub k2 : ℕ

unfoldable pub part_of : List OkRow → Part
part_of rs =
    let called = keep (λ (r : OkRow). r.consequential_called) rs in
    let exposed = keep (λ (r : OkRow). r.parallel_exposure) called in
    record { n = length rs; k1 = length called; k2 = length exposed }

-- The lines of the first table.
unfoldable pub task_lines : List OkRow → List (TaskKey × Part)
unfolding per_task part_of sorted_items key_less
task_lines ok =
    map (λ (g : TaskKey × List OkRow). (g.0, part_of g.1)) (sorted_items key_less (per_task [] ok))

abbrev pub Agg : Type 0
Agg = List ((String × String) × List Part)

abbrev pub append_part : String × String → Part → Agg → Agg
append_part k p m = put k (or_empty (lookup m k) ++ p ∷ []) m

unfoldable pub aggregate : Agg → List (TaskKey × Part) → Agg
aggregate m [] = m
aggregate m (((model, (klass, task)), p) ∷ lines) =
    aggregate (append_part (model, "ALL") p (append_part (model, klass) p m)) lines

unfoldable pub sum_parts : List Part → Part
sum_parts [] = record { n = 0; k1 = 0; k2 = 0 }
sum_parts (p ∷ ps) =
    let s = sum_parts ps in record { n = p.n + s.n; k1 = p.k1 + s.k1; k2 = p.k2 + s.k2 }

-- The lines of the second table.
unfoldable pub scope_lines : List OkRow → List ((String × String) × Part)
unfolding task_lines aggregate sum_parts sorted_items pair_less
scope_lines ok =
    map (λ (g : (String × String) × List Part). (g.0, sum_parts g.1))
      (sorted_items pair_less (aggregate [] (task_lines ok)))
