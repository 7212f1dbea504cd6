-- ===== src/Exposure/Mock.antt =====
-- exposure/src/exposure/runner.py, `MockProvider`: the provider that follows four plans in turn.
pub mod Plans
use soundgate_paper.Prelude.{
  ℕ, zero, suc, ◌+◌, ◌%◌, String, ◌<>◌, str, ◌≡◌, ◌≢◌, refl, sym, ap, ◌∙◌, inl, inr, ◌⊎◌, Bool,
  true, false, not, Option, none, some, List, [], ◌∷◌, arith, contains, nat_beq, length, map,
  count_if, ◌==◌, eq_iff, string_eq, Bool-cases, Option-cases, ltb, ◌||◌, if◌then◌else◌,
}
use soundgate_paper.Exposure.Tasks.{Tool, Task, is_consequential, consequential_tool}
use soundgate_paper.Exposure.Runner.{
  Call, Turned, answered, Provider, TurnRecord, RunRecord, ended, called, final_answer, find_tool,
  payload, results, go_on, after_turn, turns_from, run_one, names_of,
}

pub record MockSession : Type 0 where
  pub plan : List (List String)
  pub turn_i : ℕ

-- `[t.name for t in task.tools if not t.consequential]`
unfoldable pub benign : List Tool → List String
benign [] = []
benign (t ∷ ts) = let rest = benign ts in if is_consequential t then rest else t.name ∷ rest

-- `_task_plan[run_idx % 4]`
unfoldable pub task_plan : String → String → String → ℕ → List (List String)
task_plan cons b0 b1 k =
    if nat_beq k 0
    then (cons ∷ b0 ∷ []) ∷ []
    else if nat_beq k 1
    then (b0 ∷ []) ∷ (cons ∷ []) ∷ []
    else if nat_beq k 2
    then (cons ∷ []) ∷ []
    else (b1 ∷ []) ∷ [] ∷ []

-- `init_messages` and `set_run`; without two benign tools the one, without a consequential tool the
-- other raises.
unfoldable pub mock_init : Option String → List String → ℕ → Option MockSession
unfolding task_plan
mock_init none bs run_idx = none
mock_init (some cons) [] run_idx = none
mock_init (some cons) (b0 ∷ []) run_idx = none
mock_init (some cons) (b0 ∷ b1 ∷ bs) run_idx =
    some (record { plan = task_plan cons b0 b1 (run_idx % 4); turn_i = 0 })

-- `self._plan[self._turn_i] if self._turn_i < len(self._plan) else []`
unfoldable pub planned : List (List String) → ℕ → List String
planned [] i = []
planned (names ∷ plan) zero = names
planned (names ∷ plan) (suc i) = planned plan i

unfoldable pub numbered : ℕ → ℕ → List String → List Call
numbered turn i [] = []
numbered turn i (n ∷ ns) = ("call_" <> (str turn <> ("_" <> str i)), n) ∷ numbered turn (i + 1) ns

abbrev is_empty : List String → Bool
is_empty [] = true
is_empty (n ∷ ns) = false

unfoldable pub mock_turn : MockSession → Turned MockSession
unfolding planned numbered
mock_turn s =
    let names = planned s.plan s.turn_i in
    let i = suc s.turn_i in answered (numbered i 0 names) (is_empty names) (record s { turn_i = i })

abbrev pub mock : Provider
mock = record {
  Session = MockSession;
  turn = λ s run_idx. mock_turn s;
  add_tool_results = λ s rs. s;
}

-- `run_one` with the mock provider.
unfoldable pub run_mock : Task → ℕ → ℕ → Option (String × RunRecord)
unfolding mock_init run_one benign
run_mock t run_idx max_turns = elim (mock_init (consequential_tool t) (benign t.tools) run_idx) [
  | none ↦ none
  | some s ↦ run_one mock (λ u. s) t run_idx max_turns
]

-- The four records, by the run's number modulo 4.
unfoldable pub planned_record : String → String → String → ℕ → RunRecord
planned_record cons b0 b1 k =
    if nat_beq k 0
    then called cons (record { calls = cons ∷ b0 ∷ []; had_text = false } ∷ []) (cons ∷ b0 ∷ [])
    else if nat_beq k 1
    then called cons
        (record { calls = b0 ∷ []; had_text = false }
          ∷ record { calls = cons ∷ []; had_text = false }
          ∷ [])
        (cons ∷ [])
    else if nat_beq k 2
    then called cons (record { calls = cons ∷ []; had_text = false } ∷ []) (cons ∷ [])
    else ended
        (record { calls = b1 ∷ []; had_text = false } ∷ record { calls = []; had_text = true } ∷ [])
        final_answer
