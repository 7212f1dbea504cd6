-- ===== src/Probes/LlamaIndex.antt =====
-- probes/src/agentprobe/llamaindex_probes.py. What the framework logs is data.
pub mod Leak
use soundgate_paper.Prelude.{
  ℕ, String, ◌<>◌, Bool, true, false, not, ◌&&◌, Option, none, some, List, [], ◌∷◌, ◌++◌, ltb,
  if◌then◌else◌,
}
use soundgate_paper.Probes.Harness.{EventLog, count, has, flag, number, text, trace, ProbeResult}
use soundgate_paper.Probes.LangGraph.{Ended}

-- An event of the stream: what was logged since the one before it, and whether it asks for input.
pub record StreamEvent : Type 0 where
  pub logged : EventLog
  pub asks_input : Bool

-- The log when the stream ends, and whether the effect was in it at the last request for input.
unfoldable pub read_stream : EventLog → Bool → List StreamEvent → EventLog × Bool
unfolding has
read_stream log effect [] = (log, effect)
read_stream log effect (ev ∷ evs) =
    let now = log ++ ev.logged in
    read_stream now (if ev.asks_input then has now "L_EFFECT:executed" else effect) evs

-- `rest` is logged after the stream, `error` the type of the exception that awaiting the handler raises.
unfoldable pub probe_parallel_leak : List StreamEvent → EventLog → Option String → ProbeResult
unfolding read_stream count
probe_parallel_leak stream rest error =
    let (log, effect) = read_stream [] false stream in
    let events = log ++ (rest ++ raised error) in
    record {
      name = "parallel_approval_leak";
      violation = effect;
      detail =
          ("effect_before_human_response", flag effect)
          ∷ ("effect_total", number (count events "L_EFFECT:executed"))
          ∷ ("trace", trace events)
          ∷ [];
    }
  where
    raised : Option String → EventLog
    raised none = []
    raised (some name) = ("handler_err:" <> name) ∷ []

unfoldable pub probe_timeout_zombie : Ended → ProbeResult
unfolding has
probe_timeout_zombie run =
    let at = has run.log "T_EFFECT:executed_after_delay" in
    let after = has (run.log ++ run.later) "T_EFFECT:executed_after_delay" in
    record {
      name = "timeout_zombie";
      violation = run.seen && (not at && after);
      detail =
          ("caller_saw_timeout", flag run.seen)
          ∷ ("effect_at_timeout", flag at)
          ∷ ("effect_after_timeout", flag after)
          ∷ [];
    }

-- The logs until `cancel_run` is called, and from there on.
unfoldable pub probe_cancellation : EventLog → EventLog → ProbeResult
unfolding has
probe_cancellation log later =
    let cancelled_ack = true in
    let at = has log "C_EFFECT:executed_after_cancel" in
    let after = has (log ++ later) "C_EFFECT:executed_after_cancel" in
    record {
      name = "cancellation[cancel_run:worker_thread]";
      violation = cancelled_ack && (not at && after);
      detail =
          ("cancel_returned", flag cancelled_ack)
          ∷ ("effect_at_cancel", flag at)
          ∷ ("effect_after_cancel", flag after)
          ∷ [];
    }

-- The polls: what each finds logged since the one before; the first that finds the effect ends them,
-- and takes the snapshot, which may raise.
unfoldable pub poll : EventLog → Option String → List EventLog → EventLog × Bool
unfolding has
poll log refused [] = (log, false)
poll log refused (logged ∷ polls) =
    let now = log ++ logged in
    let rest = poll now refused polls in
    if has now "R_EFFECT:executed" then snapshot refused now else rest
  where
    snapshot : Option String → EventLog → EventLog × Bool
    snapshot none now = (now, true)
    snapshot (some name) now = (now ++ ("snap_err:" <> name) ∷ [], false)

unfoldable pub probe_replay :
    List EventLog → Option String → EventLog → EventLog → Option String → ProbeResult
unfolding poll count
probe_replay polls refused rest resumed error =
    let (log, snap) = poll [] refused polls in
    let run1 = log ++ rest in
    let count_after_run1 = count run1 "R_EFFECT:executed" in
    let total = count (run1 ++ (resumed ++ raised error)) "R_EFFECT:executed" in
    if not snap
    then record {
      name = "replay[context_restore]";
      violation = false;
      detail =
          ("outcome", text "NOT PROBED: could not snapshot mid-run context")
          ∷ ("effect_count_run1", number count_after_run1)
          ∷ [];
    }
    else record {
      name = "replay[context_restore]";
      violation = ltb count_after_run1 total;
      detail =
          ("effect_count_run1", number count_after_run1)
          ∷ ("effect_count_after_resume", number total)
          ∷ [];
    }
  where
    raised : Option String → EventLog
    raised none = []
    raised (some name) = ("resume_err:" <> name) ∷ []
