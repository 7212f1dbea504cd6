-- ===== src/Lint/Visit.antt =====
-- scripts/mediation_lint.py. A syntax tree is what the visitor sees of it: definitions of functions
-- (plain or async), calls with the node that is called, and all other nodes, each with its children
-- in the order in which `generic_visit` takes them; the called node is the first child of a call.
use soundgate_paper.Prelude.{
  ℕ, min, String, ◌<>◌, not, ◌&&◌, Option, none, some, List, [], ◌∷◌, ◌++◌, contains, length, str,
  string_eq, if◌then◌else◌,
}

pub data Callee : Type 0 where
  name attribute : String → Callee
  other_callee : Callee

mutual
  pub data Node : Type 0 where
    function_def : String → Nodes → Node
    call : Callee → ℕ → Nodes → Node
    other : Nodes → Node

  pub data Nodes : Type 0 where
    end : Nodes
    child : Node → Nodes → Nodes

unfoldable pub call_name : Callee → Option String
call_name (name id) = some id
call_name (attribute attr) = some attr
call_name other_callee = none

-- The variables that the visitor shares: the functions around the node, innermost first, and the
-- findings.
pub record Visitor : Type 0 where
  pub stack : List String
  pub findings : List String

-- `stack.append(name)` and `stack.pop()`
abbrev pub push : String → Visitor → Visitor
push n v = record v { stack = n ∷ v.stack }

abbrev rest : List String → List String
rest [] = []
rest (n ∷ ns) = ns

abbrev pub pop : Visitor → Visitor
pop v = record v { stack = rest v.stack }

module _ (path : String) (effects : List String) (wrapper : String) where
  unfoldable pub finding : ℕ → String → String
  finding lineno effect =
      path
      <> (":"
          <> (str lineno
              <> (": effect `"
                  <> (effect <> ("` called outside `" <> (wrapper <> "` (unmediated path)"))))))

  -- The first part of `visit_Call`.
  unfoldable pub report : Option String → ℕ → Visitor → Visitor
  unfolding finding
  report none lineno v = v
  report (some n) lineno v =
      if contains effects n && not (contains v.stack wrapper)
      then record v { findings = v.findings ++ finding lineno n ∷ [] }
      else v

  unfoldable mutual
    unfolding report call_name

    pub visit : Node → Visitor → Visitor
    visit (function_def n body) v = pop (generic_visit body (push n v))
    visit (call f lineno children) v = generic_visit children (report (call_name f) lineno v)
    visit (other children) v = generic_visit children v

    pub generic_visit : Nodes → Visitor → Visitor
    generic_visit end v = v
    generic_visit (child n ns) v = generic_visit ns (visit n v)

-- What reading and parsing a file gives: its tree, or the name of an exception.
pub data Parsed : Type 0 where
  unparseable : String → Parsed
  parsed : Node → Parsed

module _ (effects : List String) (wrapper : String) where
  unfoldable pub lint_file : String → Parsed → List String
  unfolding visit
  lint_file path (unparseable e) = (path <> (": unparseable (" <> (e <> "); review manually"))) ∷ []
  lint_file path (parsed tree) =
      (visit path effects wrapper tree (record { stack = []; findings = [] })).findings

  unfoldable pub lint_all : List (String × Parsed) → List String
  unfolding lint_file
  lint_all [] = []
  lint_all ((path, p) ∷ files) = lint_file path p ++ lint_all files

  -- The exit code of `main`.
  unfoldable pub exit_code : List (String × Parsed) → ℕ
  unfolding lint_all
  exit_code files = min (length (lint_all files)) 125
