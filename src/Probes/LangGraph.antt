-- ===== src/Probes/LangGraph.antt =====
-- probes/src/agentprobe/langgraph_probes.py. A node is what its function logs before it interrupts, and
-- after it was resumed with a decision; the framework is a parameter.
pub mod Documented
use soundgate_paper.Prelude.{
  ℕ, ◌+◌, String, ◌<>◌, Bool, true, false, not, ◌&&◌, List, [], ◌∷◌, ◌++◌, ltb, if◌then◌else◌,
}
use soundgate_paper.Probes.Harness.{EventLog, count, has, flag, number, trace, ProbeResult}

pub record Node : Type 0 where
  pub before : EventLog
  pub interrupts : Bool
  pub after : Bool → EventLog

-- The nodes in the order of `add_node`; each has an edge from START and one to END.
abbrev pub Graph : Type 0
Graph = List Node

abbrev show : Bool → String
show true = "True"
show false = "False"

unfoldable pub gate : Node
gate = record {
  before = "gate:before_interrupt" ∷ [];
  interrupts = true;
  after = λ decision. ("gate:resumed_with=" <> show decision) ∷ [];
}

unfoldable pub side_effect : Node
side_effect = record { before = "EFFECT:executed" ∷ []; interrupts = false; after = λ decision. [] }

unfoldable pub parallel_gate_graph : Bool → Graph
unfolding gate side_effect
parallel_gate_graph gate_first =
    if gate_first then gate ∷ side_effect ∷ [] else side_effect ∷ gate ∷ []

unfoldable pub act_then_gate : Node
act_then_gate = record {
  before = "P2_EFFECT:executed" ∷ [];
  interrupts = true;
  after = λ decision. ("P2_gate:resumed_with=" <> show decision) ∷ [];
}

-- What a first invocation logs and whether its result has an interrupt; what the resumption logs.
pub record Framework : Type 0 where
  pub invoke : Graph → Bool × EventLog
  pub resume : Graph → Bool → EventLog

module _ (fw : Framework) where
  unfoldable pub probe_sibling_leak : Bool → String → ProbeResult
  unfolding parallel_gate_graph has count
  probe_sibling_leak gate_first label =
      let g = parallel_gate_graph gate_first in
      let (paused, log) = fw.invoke g in
      let effect_during_pause = has log "EFFECT:executed" in
      let log_after = log ++ fw.resume g false in
      record {
        name = "sibling_leak[" <> (label <> "]");
        violation = paused && effect_during_pause;
        detail =
            ("paused", flag paused)
            ∷ ("effect_while_paused", flag effect_during_pause)
            ∷ ("effect_total_after_reject", number (count log_after "EFFECT:executed"))
            ∷ ("trace_at_pause", trace log)
            ∷ [];
      }

  unfoldable pub probe_replay : ProbeResult
  unfolding act_then_gate count
  probe_replay =
      let g = act_then_gate ∷ [] in
      let log = (fw.invoke g).1 in
      let at_pause = count log "P2_EFFECT:executed" in
      let after = count (log ++ fw.resume g true) "P2_EFFECT:executed" in
      record {
        name = "replay_double_execution";
        violation = ltb 1 after;
        detail =
            ("effect_count_at_pause", number at_pause)
            ∷ ("effect_count_after_approve", number after)
            ∷ [];
      }

-- What is logged until the caller sees the cancellation or the timeout, whether it sees one, and what is
-- logged while the probe waits afterwards.
pub record Ended : Type 0 where
  pub seen : Bool
  pub log : EventLog
  pub later : EventLog

unfoldable pub probe_cancellation : Ended → String → ProbeResult
unfolding has
probe_cancellation run label =
    let at_cancel = has run.log "EFFECT" in
    let after = has (run.log ++ run.later) "EFFECT" in
    record {
      name = "cancellation[" <> (label <> "]");
      violation = run.seen && (not at_cancel && after);
      detail =
          ("cancelled_seen", flag run.seen)
          ∷ ("effect_at_cancel", flag at_cancel)
          ∷ ("effect_after_cancel", flag after)
          ∷ [];
    }

unfoldable pub probe_timeout_zombie : Ended → ProbeResult
unfolding has
probe_timeout_zombie run =
    let at_timeout = has run.log "TO_EFFECT" in
    let after = has (run.log ++ run.later) "TO_EFFECT" in
    record {
      name = "timeout_zombie";
      violation = run.seen && (not at_timeout && after);
      detail =
          ("caller_saw_timeout", flag run.seen)
          ∷ ("effect_at_timeout", flag at_timeout)
          ∷ ("effect_after_timeout", flag after)
          ∷ [];
    }

-- `main`, with a run of each cancellation and of the timeout.
unfoldable pub main_results : Framework → Ended → Ended → Ended → List ProbeResult
unfolding probe_sibling_leak probe_replay probe_cancellation probe_timeout_zombie
main_results fw sync_thread pure_async timed =
    probe_sibling_leak fw true "gate_first"
    ∷ probe_sibling_leak fw false "effect_first"
    ∷ probe_replay fw
    ∷ probe_cancellation sync_thread "sync_thread"
    ∷ probe_cancellation pure_async "pure_async"
    ∷ probe_timeout_zombie timed
    ∷ []
