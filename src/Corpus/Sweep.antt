-- ===== src/Corpus/Sweep.antt =====
-- corpus/corpus_sweep.py: `run_chunk`, which adds the issues that GitHub's search finds to the results
-- file, and the table of `report`. The file is the list of its records, a search's answer a parameter.
pub mod Complete
pub mod Table
use soundgate_paper.Prelude.{
  ℕ, take, drop, zero, suc, ◌+◌, ◌/◌, String, Bool, true, false, ◌&&◌, ◌||◌, Option, none, some,
  List, [], ◌∷◌, ◌++◌, map, keep, length, any, count_if, contains, insert, ◌==◌, string_eq, nat_eq,
  pair_eq, if◌then◌else◌,
}

abbrev pub repos : List String
repos =
    "langchain-ai/langgraph" ∷ "langchain-ai/langgraphjs" ∷ "run-llama/llama_index"
    ∷ "microsoft/agent-framework" ∷ "openai/openai-agents-python" ∷ "crewAIInc/crewAI" ∷ []

-- An axis with the words to search for.
abbrev pub Query : Type 0
Query = String × String

abbrev pub queries : List Query
queries =
    ("A1", "interrupt parallel")
    ∷ ("A1", "human approval parallel")
    ∷ ("A2", "resume duplicate")
    ∷ ("A2", "resume executes again")
    ∷ ("A3", "cancel still running")
    ∷ ("A4", "timeout effect completed")
    ∷ []

-- An item of an answer, and the record that is written of it.
pub record Item : Type 0 where
  pub number : ℕ
  pub state : Option String
  pub created_at : Option String
  pub title : Option String
  pub labels : List String
  pub html_url : Option String

pub record Hit : Type 0 where
  pub repo : String
  pub axis_hint : String
  pub query : String
  pub item : Item

abbrev pub HitKey : Type 0
HitKey = String × (String × (String × ℕ))

abbrev pub key : Hit → HitKey
key h = (h.repo, (h.axis_hint, (h.query, h.item.number)))

-- `search(repo, words)`; `none` is an exception.
abbrev pub Search : Type 0
Search = String → String → Option (List Item)

-- A repository with a query.
abbrev pub Pair : Type 0
Pair = String × Query

pub record Sweep : Type 0 where
  pub seen : List HitKey
  pub rows : List Hit

unfoldable pub take_hit : Hit → Sweep → Sweep
take_hit h s =
    if contains s.seen (key h)
    then s
    else record { seen = insert (key h) s.seen; rows = s.rows ++ h ∷ [] }

abbrev pub hit : Pair → Item → Hit
hit (repo, (axis, words)) it = record { repo = repo; axis_hint = axis; query = words; item = it }

unfoldable pub take_items : Pair → List Item → Sweep → Sweep
unfolding take_hit
take_items p [] s = s
take_items p (it ∷ items) s = take_items p items (take_hit (hit p it) s)

-- An exception skips the query.
unfoldable pub take_answer : Pair → Option (List Item) → Sweep → Sweep
unfolding take_items
take_answer p none s = s
take_answer p (some items) s = take_items p items s

unfoldable pub run_pairs : Search → List Pair → Sweep → Sweep
unfolding take_answer
run_pairs search [] s = s
run_pairs search (p ∷ ps) s = run_pairs search ps (take_answer p (search p.0 p.1.1) s)

unfoldable pub all_pairs : List String → List Query → List Pair
all_pairs [] qs = []
all_pairs (r ∷ rs) qs = map (λ (q : Query). (r, q)) qs ++ all_pairs rs qs

unfoldable pub pairs : List Pair
unfolding all_pairs
pairs = all_pairs repos queries

-- `--chunk` is 1 or 2.
unfoldable pub chunk_pairs : ℕ → List Pair
unfolding pairs
chunk_pairs chunk =
    let half = length pairs / 2 in if chunk == 1 then take half pairs else drop half pairs

unfoldable pub run_chunk : ℕ → Search → List Hit → List Hit
unfolding run_pairs
run_chunk chunk search results =
    (run_pairs search (chunk_pairs chunk) (record { seen = map key results; rows = results })).rows

-- The set of the numbers of the rows that pass a test.
unfoldable pub numbers : (Hit → Bool) → List Hit → List ℕ
numbers p [] = []
numbers p (h ∷ hs) = let rest = numbers p hs in if p h then insert h.item.number rest else rest

pub record Counts : Type 0 where
  pub unique : ℕ
  pub a1 : ℕ
  pub a2 : ℕ
  pub a3 : ℕ
  pub a4 : ℕ

unfoldable pub line_of : List Hit → String → Counts
unfolding numbers
line_of rows repo =
    let on =
      λ (axis : String). length (numbers (λ h. h.repo == repo && h.axis_hint == axis) rows) in
    record {
      unique = length (numbers (λ h. h.repo == repo) rows);
      a1 = on "A1";
      a2 = on "A2";
      a3 = on "A3";
      a4 = on "A4";
    }

-- The lines of the table, and the number of raw hits below it.
unfoldable pub report : List Hit → List (String × Counts) × ℕ
unfolding line_of
report rows = (map (λ (repo : String). (repo, line_of rows repo)) repos, length rows)
