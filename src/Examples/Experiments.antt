-- ===== src/Examples/Experiments.antt =====
-- The theorems on the experiments, at scripted models and small records.
use mathlib.Core.Path.{subst}
use soundgate_paper.Exposure.Mock.{run_mock, planned_record, benign}
use soundgate_paper.Exposure.Mock.Plans.{run_mock-planned_record}
use soundgate_paper.Exposure.Tasks.{is_consequential}
use soundgate_paper.Prelude.{
  map, any, ltb, ◌&&◌, ◌==◌, insert, put, ℕ, zero, suc, ◌+◌, ◌≤◌, ◌<◌, String, ◌≡◌, refl, true,
  false, not, Option, none, some, List, [], ◌∷◌, ◌++◌, length, contains, count_if, lookup, is_some,
  string_eq, nat_eq, pair_eq, if◌then◌else◌, arith,
}
use soundgate_paper.Wire.{Request, Reply, submit, decide, cancel}
use soundgate_paper.Exposure.Tasks.{Task, consequential_tool}
use soundgate_paper.Exposure.Catalog.{single_refund}
use soundgate_paper.Exposure.Runner.{Turned, answered, Provider, RunRecord, run_one}
use soundgate_paper.Exposure.Runner.Stops.{Explained, run_one-Explained}
use soundgate_paper.Exposure.Resume.{Entry, load_done, todo, key_of, records, contains-todo}
use soundgate_paper.Exposure.Analysis.{Result, dedup, errs, first_of, is_ok, dedup_lem}
use soundgate_paper.Tau.Tools.{retail}
use soundgate_paper.Tau.Meter.{Meter, total, cost}
use soundgate_paper.Tau.Episode.{
  ToolCall, Environment, Json, Turn, Message, finished, budget_exceeded, run_episode, record_turn,
}
use soundgate_paper.Tau.Episode as Episode
use soundgate_paper.Tau.Episode.Budget.{Costs, run_episode-total}
use soundgate_paper.MockCluster.Store.{Store, no_state, apply_op}
use soundgate_paper.MockCluster.Once.{IsValid, releases, releases-le, held-released}
use soundgate_paper.Gate.Defs.{cancel as gate_cancel, submit as submit_gate}
use soundgate_paper.Gate.Phase.{phase}
use soundgate_paper.Node.Defs.{answer, handle, start}
use soundgate_paper.Examples.Gates.{busy, busy-IsDurable}

-- A model that reads the order first and then refunds it beside another call.
abbrev script : ℕ → ℕ → Turned ℕ
script zero i = answered (("c1", "get_order") ∷ []) false 1
script (suc n) i = answered (("c2", "issue_refund") ∷ ("c3", "get_order") ∷ []) false 2

abbrev scripted : Provider
scripted = record { Session = ℕ; turn = script; add_tool_results = λ s rs. s }

run_one-Explained_example :
    (r : RunRecord) × (run_one scripted (λ t. 0) single_refund 7 5 ≡ some ("issue_refund", r))
    × Explained "issue_refund" r
    × (length r.turns ≤ 5)
unfolding consequential_tool single_refund
run_one-Explained_example =
    run_one-Explained scripted (λ t. 0) single_refund 7 5 "issue_refund" refl

run_mock-planned_record_example :
    run_mock single_refund 5 2
    ≡ some ("issue_refund", planned_record "issue_refund" "get_order" "get_refund_policy" 1)
unfolding consequential_tool single_refund benign is_consequential
run_mock-planned_record_example =
    run_mock-planned_record single_refund "issue_refund" "get_order" "get_refund_policy" [] 5 0 refl
      refl refl refl

abbrev old_lines : List (Option Entry)
old_lines =
    none
    ∷ some (record {
      provider = some "mock";
      model = some "mock-1";
      key = ("single_refund", 0);
      error = none;
    })
    ∷ []

abbrev new_lines : List (Option Entry)
new_lines =
    some (record {
      provider = some "mock";
      model = some "mock-1";
      key = ("single_refund", 1);
      error = some "timeout";
    })
    ∷ []

contains-todo_example :
    contains
      (map key_of
        (todo (single_refund ∷ []) 2 (load_done "mock" "mock-1" (old_lines ++ new_lines))))
      ("single_refund", 1)
    ≡ (any (λ (t : Task). t.task_id == "single_refund") (single_refund ∷ [])
        && (ltb 1 2
            && not (any (records "mock" "mock-1" ("single_refund", 1)) (old_lines ++ new_lines))))
contains-todo_example =
    contains-todo "mock" "mock-1" (single_refund ∷ []) 2 (old_lines ++ new_lines) "single_refund" 1

abbrev three_results : List (Result String)
three_results =
    record { key = "a"; has_error = true; consequential_called = false; parallel_exposure = false }
    ∷ record { key = "a"; has_error = false; consequential_called = true; parallel_exposure = true }
    ∷ record {
      key = "a";
      has_error = false;
      consequential_called = false;
      parallel_exposure = false;
    }
    ∷ []

dedup_lem_example :
    ((k : String) → lookup (dedup three_results).first_ok k ≡ first_of is_ok k three_results)
    × ((k : String)
        → lookup (errs (dedup three_results)) k ≡ (
            if is_some (first_of is_ok k three_results)
            then none
            else first_of (λ (r : Result String). r.has_error) k three_results))
    × (length (dedup three_results).first_ok + (dedup three_results).dropped
        ≡ count_if is_ok three_results)
dedup_lem_example = dedup_lem three_results

abbrev texts : Json
texts = record {
  Args = String;
  loads = λ t. some t;
  dumps = λ t. t;
  unparsed = λ o. "";
  no_args = "";
}

abbrev shop : Environment String
shop = record {
  State = ℕ;
  wiki = "rules";
  step = λ s n a. some (s + 1, "done", false);
  respond = λ s t. some (s, "thanks", true);
}

abbrev clerk : ℕ → List Message → Option (ℕ × Episode.Reply)
clerk zero ms = some (
  1,
  record {
    content = none;
    tool_calls =
        record { call_id = "c0"; name = "get_order_details"; arguments = some "w1" }
        ∷ record { call_id = "c1"; name = "cancel_pending_order"; arguments = some "w1" }
        ∷ [];
    usage = some (record { prompt_tokens = 700; completion_tokens = 300 });
  },
)
clerk (suc n) ms = some (
  n,
  record {
    content = some "bye";
    tool_calls = [];
    usage = some (record { prompt_tokens = 1; completion_tokens = 1 });
  },
)

abbrev meter : Meter
meter = record { cap = some 1500; prompt = 0; completion = 0 }

abbrev first_turn : List (Turn String)
first_turn =
    record_turn texts retail (
      record { call_id = "c0"; name = "get_order_details"; arguments = some "w1" }
      ∷ record { call_id = "c1"; name = "cancel_pending_order"; arguments = some "w1" }
      ∷ [])
    ∷ []

abbrev Within : Option (ℕ × Episode.Reply) → Type 0
Within none = Unit
Within (some (m, r)) = cost r.usage ≤ 1000

clerk-Within : (m : ℕ) (ms : List Message) → Within (clerk m ms)
clerk-Within zero ms = omega arith
clerk-Within (suc n) ms = omega arith

clerk_costs : Costs texts shop clerk retail 1500 1000
clerk_costs m m' ms r h = subst Within h (clerk-Within m ms)

run_episode-total_example :
    let out = run_episode texts shop clerk retail 3 0 0 "help" meter in
    (out.0.cap ≡ some 1500)
    × (total out.0 < 1500 + 1000)
    × (out.1 ≡ budget_exceeded → 1500 ≤ total out.0)
run_episode-total_example =
    run_episode-total texts shop clerk retail 1500 1000 3 0 0 "help" meter clerk_costs refl
      (omega arith)

abbrev requests : List Request
requests =
    submit "run" "pay" true
    ∷ cancel "run"
    ∷ decide "run" "pay" true none
    ∷ decide "run" "pay" true none
    ∷ submit "run" "pay" false
    ∷ []

no_state-IsValid : IsValid no_state
unfolding count_if
no_state-IsValid i = omega arith

releases-le_example : releases ("run", "pay") no_state requests ≤ 1
releases-le_example = releases-le ("run", "pay") no_state requests no_state-IsValid

abbrev held_store : Store
held_store = record no_state { held = ("run", "pay") ∷ [] }

held-released_example :
    ((apply_op (apply_op held_store (cancel "run")).0 (decide "run" "pay" true none)).1
      ≡ Reply.release)
    × ((answer (λ r k a m. true) (gate_cancel busy.gate "run") (decide "run" "pay" true none)).1
        ≡ Reply.refused_cancelled)
    × ((apply_op held_store (submit "run" "pay" false)).1 ≡ Reply.release)
    × ((answer (λ r k a m. true) busy.gate (submit "run" "pay" false)).1 ≡ Reply.held_for_approval)
unfolding contains phase handle start lookup answer submit_gate insert put
held-released_example =
    held-released held_store busy.gate "run" "pay" none refl refl refl refl busy-IsDurable.valid
      refl
