-- ===== src/Probes/Msaf.antt =====
-- probes/src/agentprobe/msaf_probes.py. What the framework logs is data.
use soundgate_paper.Prelude.{
  ℕ, String, ◌<>◌, Bool, false, not, ◌&&◌, [], ◌∷◌, ◌++◌, ltb, leb, if◌then◌else◌,
}
use soundgate_paper.Probes.Harness.{
  EventLog, count, has, flag, number, text, trace, ProbeResult, Caught, caller_saw, is_cancelled,
}
use soundgate_paper.Probes.LangGraph.{Ended}

-- A run until it pauses, whether it has a pending request, and what the answer to the first one logs.
pub record Paused : Type 0 where
  pub idle_with_pending : Bool
  pub log : EventLog
  pub requests : Bool
  pub answered : EventLog

abbrev all_log : Paused → EventLog
all_log run = if run.requests then run.log ++ run.answered else run.log

unfoldable pub run_m1 : Paused → ProbeResult × ProbeResult
unfolding has count
run_m1 run =
    let paused = run.idle_with_pending in
    let effect_while_paused = has run.log "EFFECT:executed" in
    let effect_total = count (all_log run) "EFFECT:executed" in
    (
      record {
        name = "sibling_leak[fan_out]";
        violation = paused && effect_while_paused;
        detail =
            ("paused", flag paused)
            ∷ ("effect_while_paused", flag effect_while_paused)
            ∷ ("trace_at_pause", trace run.log)
            ∷ [];
      },
      record {
        name = "reject_after_effect";
        violation = paused && leb 1 effect_total;
        detail = ("effect_total_after_reject", number effect_total) ∷ [];
      },
    )

unfoldable pub run_m2_inprocess : Paused → ProbeResult
unfolding count
run_m2_inprocess run =
    let at_pause = count run.log "M2_EFFECT:executed" in
    let after = count (all_log run) "M2_EFFECT:executed" in
    record {
      name = "replay[in_process_response]";
      violation = ltb 1 after;
      detail =
          ("effect_count_at_pause", number at_pause)
          ∷ ("effect_count_after_approve", number after)
          ∷ [];
    }

-- The answer comes from a second workflow that starts at the latest of `checkpoints`.
unfoldable pub run_m2_checkpoint_restore : Paused → ℕ → ProbeResult
unfolding count
run_m2_checkpoint_restore run checkpoints =
    let name : String = "replay[checkpoint_restore]" in
    let at_pause = count run.log "M2_EFFECT:executed" in
    let after = count (run.log ++ run.answered) "M2_EFFECT:executed" in
    if not run.requests
    then record {
      name = name;
      violation = false;
      detail = ("error", text "no pending request; probe inconclusive") ∷ [];
    }
    else if not (ltb 0 checkpoints)
    then record {
      name = name;
      violation = false;
      detail = ("note", text "no checkpoints persisted; restore path not probeable") ∷ [];
    }
    else record {
      name = name;
      violation = ltb 1 after;
      detail =
          ("effect_count_at_pause", number at_pause)
          ∷ ("effect_count_after_restore_approve", number after)
          ∷ ("checkpoints_persisted", number checkpoints)
          ∷ [];
    }

unfoldable pub run_m3 : Caught → EventLog → EventLog → String → ProbeResult
unfolding has
run_m3 caught log later label =
    let at = log ++ caller_saw label caught in
    let at_cancel = has at "EFFECT" in
    let after = has (at ++ later) "EFFECT" in
    record {
      name = "cancellation[" <> (label <> "]");
      violation = is_cancelled caught && (not at_cancel && after);
      detail =
          ("cancelled_seen", flag (is_cancelled caught))
          ∷ ("effect_at_cancel", flag at_cancel)
          ∷ ("effect_after_cancel", flag after)
          ∷ [];
    }

-- A caller that sees the timeout logs so before it looks for the effect.
unfoldable pub run_m4 : Ended → ProbeResult
unfolding has
run_m4 run =
    let at = run.log ++ (if run.seen then "caller:TimeoutError" ∷ [] else []) in
    let at_timeout = has at "M4_EFFECT" in
    let after = has (at ++ run.later) "M4_EFFECT" in
    record {
      name = "timeout_zombie[host_wait_for]";
      violation = run.seen && (not at_timeout && after);
      detail =
          ("caller_saw_timeout", flag run.seen)
          ∷ ("effect_at_timeout", flag at_timeout)
          ∷ ("effect_after_timeout", flag after)
          ∷ ("note", text "no native run timeout parameter exists on Workflow.run in 1.10.0")
          ∷ [];
    }
