-- ===== src/Examples/Probes.antt =====
-- The theorems on the probes, at small logs.
use soundgate_paper.Prelude.{
  none, List, ◌≡◌, refl, String, Bool, true, false, [], ◌∷◌, ◌++◌, any, count_if, contains, length,
  lookup, put, string_eq, pair_eq, if◌then◌else◌, arith,
}
use soundgate_paper.Probes.Harness.{EventLog, count}
use soundgate_paper.Probes.LangGraph.{
  Node, Graph, Framework, parallel_gate_graph, probe_sibling_leak, probe_replay,
}
use soundgate_paper.Probes.LangGraph.Documented.{
  Documented, total, count-append, Documented-Violates,
}
use soundgate_paper.Gate.Defs.{Gate, empty, submit}
use soundgate_paper.Gate.Phase.{phase, fresh, IsValid}
use soundgate_paper.Gate.Valid.{empty-IsValid, submit-IsValid}
use soundgate_paper.Probes.Gated as Gated
use soundgate_paper.Probes.Gated.{before_decide}
use soundgate_paper.Probes.Gated.Paused.{sibling, control, is_seen, main-Shows}
use soundgate_paper.Probes.Temporal.{log_count}
use soundgate_paper.Probes.LlamaIndex.{StreamEvent, probe_parallel_leak}
use soundgate_paper.Probes.LlamaIndex.Leak.{leaked, parallel_leak_lem}

-- A framework that does what is documented.
abbrev log_before : Graph → EventLog
log_before [] = []
log_before (n ∷ g) = n.before ++ log_before g

abbrev log_again : Bool → Graph → EventLog
log_again decision [] = []
log_again decision (n ∷ g) =
    (if n.interrupts then n.before ++ n.after decision else []) ++ log_again decision g

abbrev steps : Framework
steps = record {
  invoke = λ g. (any (λ (n : Node). n.interrupts) g, log_before g);
  resume = λ g decision. log_again decision g;
}

log_before-total :
    (g : Graph) (tag : String) → count (log_before g) tag ≡ total (λ n. count n.before tag) g
log_before-total [] tag = unfold count count_if in refl
log_before-total (n ∷ g) tag =
    omega (arith, count-append n.before (log_before g) tag, log_before-total g tag)

log_again-total :
    (g : Graph) (decision : Bool) (tag : String)
    → count (log_again decision g) tag
      ≡ total (λ n. if n.interrupts then count (n.before ++ n.after decision) tag else 0) g
log_again-total [] decision tag = unfold count count_if in refl
log_again-total (n ∷ g) decision tag = ground (
  arith,
  count-append (if n.interrupts then n.before ++ n.after decision else []) (log_again decision g)
      tag,
  log_again-total g decision tag,
  empty,
)
  where
    empty : count [] tag ≡ 0
    empty = unfold count count_if in refl

steps-Documented : Documented steps
steps-Documented = record {
  pauses = λ g. refl;
  runs_all = log_before-total;
  restarts = log_again-total;
}

Documented-Violates_example :
    ((probe_sibling_leak steps true "gate_first").violation ≡ true)
    × (count
          ((steps.invoke (parallel_gate_graph true)).1
            ++ steps.resume (parallel_gate_graph true) false)
          "EFFECT:executed"
        ≡ 1)
    × ((probe_replay steps).violation ≡ true)
Documented-Violates_example = Documented-Violates steps steps-Documented true "gate_first"

-- The effect runs while the first request for input is out.
abbrev stream : List StreamEvent
stream =
    record { logged = "L_EFFECT:executed" ∷ []; asks_input = true }
    ∷ record { logged = []; asks_input = true }
    ∷ []

parallel_leak_lem_example :
    (probe_parallel_leak stream ("L_GATE:resumed" ∷ []) none).violation ≡ leaked [] stream
parallel_leak_lem_example = parallel_leak_lem stream ("L_GATE:resumed" ∷ []) none

-- A gate that holds an effect of another run.
abbrev busy : Gate
busy = (submit empty (record { run_id = "other"; effect_key = "pay"; needs_approval = true })).0

busy-IsValid : IsValid busy
busy-IsValid =
    submit-IsValid empty (record { run_id = "other"; effect_key = "pay"; needs_approval = true })
      empty-IsValid

sibling-fresh : phase busy sibling ≡ fresh
unfolding phase submit lookup put contains
sibling-fresh = refl

control-fresh : phase busy control ≡ fresh
unfolding phase submit lookup put contains
control-fresh = refl

main-Shows_example :
    (log_count (Gated.main busy before_decide 1 2).effects "t5:sibling" ≡ 0)
    × (log_count (Gated.main busy before_decide 1 2).effects "t5:control" ≡ 1)
    × ((Gated.main busy before_decide 1 2).executed ≡ true)
    × ((Gated.main busy before_decide 1 2).code
        ≡ (if is_seen before_decide (length busy.pending) then 0 else 1))
main-Shows_example = main-Shows busy before_decide 1 2 busy-IsValid sibling-fresh control-fresh

-- Its hold is counted as the sibling's.
busy-passes : (Gated.main busy before_decide 1 2).code ≡ 0
unfolding submit put contains lookup
busy-passes = (main-Shows busy before_decide 1 2 busy-IsValid sibling-fresh control-fresh).3
