-- ===== src/Exposure/Runner.antt =====
-- exposure/src/exposure/runner.py, `run_one`: one conversation with a provider, up to the turn that
-- calls the task's consequential tool. The provider, with the messages it keeps, is a parameter: a
-- turn of it is answered with tool calls (id and name), or raises.
pub mod Stops
use soundgate_paper.Prelude.{
  ℕ, zero, suc, ◌+◌, ◌-◌, ◌<◌, String, ◌<>◌, ◌⊎◌, inl, inr, Bool, true, false, not, Option, none,
  some, List, [], ◌∷◌, ◌++◌, map, length, contains, count_if, lookup, is_some, ◌==◌, ltb, ◌&&◌,
  string_eq, if◌then◌else◌,
}
use soundgate_paper.Exposure.Tasks.{Tool, Task, consequential_tool}

abbrev pub Call : Type 0
Call = String × String

pub data Turned (S : Type 0) : Type 0 where
  raised : String → Turned S
  answered : List Call → Bool → S → Turned S

pub record Provider : Type 1 where
  pub Session : Type 0
  pub turn : Session → ℕ → Turned Session
  pub add_tool_results : Session → List (String × String × String) → Session

pub record TurnRecord : Type 0 where
  pub calls : List String
  pub had_text : Bool

pub data Stopped : Type 0 where
  max_turns final_answer consequential : Stopped
  error : String → Stopped

pub record RunRecord : Type 0 where
  pub turns : List TurnRecord
  pub consequential_turn_idx : Option ℕ
  pub siblings : Option ℕ
  pub parallel_exposure : Bool
  pub stopped_reason : Stopped

abbrev pub names_of : List Call → List String
names_of calls = map (λ (c : Call). c.1) calls

-- `{t.name: t for t in task.tools}[n]`: the last tool of a name.
unfoldable pub find_tool : List Tool → String → Option Tool
find_tool [] n = none
find_tool (t ∷ ts) n = later (find_tool ts n)
  where
    later : Option Tool → Option Tool
    later (some u) = some u
    later none = if t.name == n then some t else none

-- `t.canned_result or "{}"`
unfoldable pub payload : Tool → String
payload t = text t.canned_result
  where
    text : Option String → String
    text (some r) = if r == "" then "{}" else r
    text none = "{}"

-- The results of the calls, or the name of a tool that the task does not have (a KeyError).
unfoldable pub results : List Tool → List Call → String ⊎ List (String × String × String)
unfolding find_tool payload
results tools [] = inr []
results tools ((cid, n) ∷ calls) = add (find_tool tools n) (results tools calls)
  where
    add :
        Option Tool
        → String ⊎ List (String × String × String)
        → String ⊎ List (String × String × String)
    add none rest = inl n
    add (some t) (inl missing) = inl missing
    add (some t) (inr rest) = inr ((cid, n, payload t) ∷ rest)

abbrev pub ended : List TurnRecord → Stopped → RunRecord
ended turns why = record {
  turns = turns;
  consequential_turn_idx = none;
  siblings = none;
  parallel_exposure = false;
  stopped_reason = why;
}

-- `called_idx = len(turns) - 1`, and the other calls of that turn.
abbrev pub called : String → List TurnRecord → List String → RunRecord
called cons turns names =
    let siblings = count_if (λ n. not (n == cons)) names in
    record {
      turns = turns;
      consequential_turn_idx = some (length turns - 1);
      siblings = some siblings;
      parallel_exposure = ltb 0 siblings;
      stopped_reason = consequential;
    }

module _ (P : Provider) (tools : List Tool) (cons : String) (run_idx : ℕ) where
  -- After the results of the calls are looked up, the next turn.
  unfoldable pub go_on :
      (P.Session → List TurnRecord → RunRecord)
      → P.Session
      → List TurnRecord
      → String ⊎ List (String × String × String)
      → RunRecord
  go_on next s turns (inl missing) = ended turns (error ("KeyError: '" <> missing <> "'"))
  go_on next s turns (inr rs) = next (P.add_tool_results s rs) turns

  -- What a turn leads to: the run's end, or the next turn.
  unfoldable pub after_turn :
      (P.Session → List TurnRecord → RunRecord) → List TurnRecord → Turned P.Session → RunRecord
  unfolding go_on
  after_turn next turns (raised e) = ended turns (error e)
  after_turn next turns (answered [] had_text s) =
      ended (turns ++ record { calls = []; had_text = had_text } ∷ []) final_answer
  after_turn next turns (answered (c ∷ cs) had_text s) =
      let names = names_of (c ∷ cs) in
      let turns' = turns ++ record { calls = names; had_text = had_text } ∷ [] in
      if contains names cons
      then called cons turns' names
      else go_on next s turns' (results tools (c ∷ cs))

  unfoldable pub turns_from : ℕ → P.Session → List TurnRecord → RunRecord
  unfolding after_turn
  turns_from zero s turns = ended turns max_turns
  turns_from (suc n) s turns = after_turn (turns_from n) turns (P.turn s run_idx)

-- The record of a run; a task without a consequential tool raises before the first turn.
unfoldable pub run_one :
    (P : Provider) → (Task → P.Session) → Task → ℕ → ℕ → Option (String × RunRecord)
run_one P init_messages task run_idx limit = begin (consequential_tool task)
  where
    begin : Option String → Option (String × RunRecord)
    begin none = none
    begin (some cons) =
        some (cons, turns_from P task.tools cons run_idx limit (init_messages task) [])
