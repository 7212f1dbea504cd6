-- ===== src/Exposure/Tasks.antt =====
-- exposure/src/exposure/tasks.py: tools, tasks, and the choice of tasks by their ids.
use soundgate_paper.Prelude.{
  String, Bool, Option, none, some, List, [], ◌∷◌, lookup, put, is_some, not, string_eq,
  if◌then◌else◌,
}

-- A JSON schema of an object: the properties with their types, and the required ones.
pub record Schema : Type 0 where
  pub properties : List (String × String)
  pub required : List String

unfoldable pub obj : List (String × String) → List String → Schema
obj props required = record { properties = props; required = required }

pub record Tool : Type 0 where
  pub name : String
  pub description : String
  pub parameters : Schema
  pub canned_result : Option String

pub record Task : Type 0 where
  pub task_id : String
  pub klass : String
  pub user_msg : String
  pub tools : List Tool

unfoldable pub is_consequential : Tool → Bool
is_consequential t = not (is_some t.canned_result)

-- `next(...)`, which raises on no tool.
unfoldable pub first_consequential : List Tool → Option String
unfolding is_consequential
first_consequential [] = none
first_consequential (t ∷ ts) = if is_consequential t then some t.name else first_consequential ts

unfoldable pub consequential_tool : Task → Option String
unfolding first_consequential
consequential_tool t = first_consequential t.tools

-- `{t.task_id: t for t in tasks}`
unfoldable pub by_id : List Task → List (String × Task)
by_id ts = index ts []
  where
    index : List Task → List (String × Task) → List (String × Task)
    index [] m = m
    index (t ∷ ts) m = index ts (put t.task_id t m)

-- The tasks of the ids, or nothing where an id is unknown.
unfoldable pub select : List (String × Task) → List String → Option (List Task)
select m [] = some []
select m (i ∷ is) = pick (lookup m i) (select m is)
  where
    pick : Option Task → Option (List Task) → Option (List Task)
    pick (some t) (some ts) = some (t ∷ ts)
    pick _ _ = none

unfoldable pub get_tasks : List Task → List String → Option (List Task)
unfolding by_id select
get_tasks tasks [] = some tasks
get_tasks tasks (i ∷ is) = select (by_id tasks) (i ∷ is)
