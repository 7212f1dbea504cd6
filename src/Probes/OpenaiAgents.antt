-- ===== src/Probes/OpenaiAgents.antt =====
-- probes/src/agentprobe/openai_agents_probes.py. What the framework logs is data.
use soundgate_paper.Prelude.{
  ℕ, ◌+◌, String, ◌<>◌, Bool, true, false, not, ◌&&◌, Option, none, some, List, [], ◌∷◌, ◌++◌, any,
  map, ltb, leb, str, ◌==◌, string_eq, if◌then◌else◌,
}
use soundgate_paper.Probes.Harness.{
  EventLog, count, has, flag, number, text, trace, ProbeResult, Caught, caller_saw, is_cancelled,
}
use soundgate_paper.Probes.LangGraph.{Ended}

-- `ScriptedModel`: an item of the conversation by its type, and what the model answers.
pub data Output : Type 0 where
  tool_call : String → String → Output
  final_message : String → Output

pub record ScriptedModel : Type 0 where
  pub plan : List (String × String)
  pub invocations : ℕ

unfoldable pub get_response : ScriptedModel → List String → (ScriptedModel × EventLog) × List Output
get_response m items =
    let invocations = m.invocations + 1 in
    let has_tool_output = any (λ (t : String). t == "function_call_output") items in
    (
      (record m { invocations = invocations }, ("model:invocation_" <> str invocations) ∷ []),
      if has_tool_output
          then final_message "done" ∷ []
          else map (λ (call : String × String). tool_call call.0 call.1) m.plan,
    )

-- A run of the agent: whether it was interrupted, what it logged, and what the rejection of each
-- interruption logs; no second run follows.
pub record Interrupted : Type 0 where
  pub paused : Bool
  pub log : EventLog
  pub rejections : EventLog
  pub invocations : ℕ

unfoldable pub run_o1_o1r_o2 : Interrupted → ProbeResult × (ProbeResult × ProbeResult)
unfolding has count
run_o1_o1r_o2 run =
    let paused = run.paused in
    let effect_while_paused = has run.log "EFFECT:send_email_executed" in
    let before_resume = count run.log "EFFECT:send_email_executed" in
    let log = if paused then run.log ++ run.rejections else run.log in
    let after_resume = count log "EFFECT:send_email_executed" in
    (
      record {
        name = "sibling_leak[parallel_tool_calls]";
        violation = paused && effect_while_paused;
        detail =
            ("paused_for_approval", flag paused)
            ∷ ("sibling_effect_while_paused", flag effect_while_paused)
            ∷ ("gated_tool_ran_before_decision", flag (has run.log "GATED_EFFECT"))
            ∷ ("trace_at_pause", trace run.log)
            ∷ [];
      },
      (
        record {
          name = "reject_after_effect";
          violation = paused && leb 1 before_resume;
          detail =
              ("sibling_effect_total_at_reject", number before_resume)
              ∷ ("gated_tool_ever_executed", flag (has log "GATED_EFFECT"))
              ∷ [];
        },
        record {
          name = "replay[resume_after_reject]";
          violation = ltb 1 after_resume;
          detail =
              ("sibling_effect_count_before_resume", number before_resume)
              ∷ ("sibling_effect_count_after_resume", number after_resume)
              ∷ ("model_invocations", number run.invocations)
              ∷ [];
        },
      ),
    )

unfoldable pub run_o3 : Caught → EventLog → EventLog → String → ProbeResult
unfolding has
run_o3 caught log later label =
    let at = log ++ caller_saw label caught in
    let at_cancel = has at "EFFECT" in
    let after = has (at ++ later) "EFFECT" in
    record {
      name = "cancellation[" <> (label <> "]");
      violation = is_cancelled caught && (not at_cancel && after);
      detail =
          ("cancelled_seen", flag (is_cancelled caught))
          ∷ ("effect_at_cancel", flag at_cancel)
          ∷ ("effect_after_cancel", flag after)
          ∷ [];
    }

-- The error of the decorator, if it refuses.
unfoldable pub run_o4_native_sync : Option String → ProbeResult
run_o4_native_sync (some error) = record {
  name = "native_tool_timeout[sync_thread]";
  violation = false;
  detail = ("outcome", text "REFUSED_AT_CONSTRUCTION") ∷ ("error", text error) ∷ [];
}
run_o4_native_sync none = record {
  name = "native_tool_timeout[sync_thread]";
  violation = false;
  detail = ("outcome", text "constructed without error; rerun full timeout probe") ∷ [];
}

-- Any exception counts as the timeout, and is logged by the name of its type.
unfoldable pub run_o4_native_async : Option String → EventLog → EventLog → ProbeResult
unfolding has
run_o4_native_async raised log later =
    let at = log ++ seen_as raised in
    let at_timeout = has at "o4_async_EFFECT" in
    let after = has (at ++ later) "o4_async_EFFECT" in
    record {
      name = "native_tool_timeout[pure_async]";
      violation = is_raised raised && (not at_timeout && after);
      detail =
          ("caller_saw_timeout", flag (is_raised raised))
          ∷ ("effect_at_timeout", flag at_timeout)
          ∷ ("effect_after_timeout", flag after)
          ∷ [];
    }
  where
    seen_as : Option String → EventLog
    seen_as none = []
    seen_as (some name) = ("o4_async:caller_saw=" <> name) ∷ []

    is_raised : Option String → Bool
    is_raised none = false
    is_raised (some name) = true

unfoldable pub run_o4_host_wait_for : Ended → ProbeResult
unfolding has
run_o4_host_wait_for run =
    let at = run.log ++ (if run.seen then "o4_host:caller_saw=TimeoutError" ∷ [] else []) in
    let at_timeout = has at "o4_host_EFFECT" in
    let after = has (at ++ run.later) "o4_host_EFFECT" in
    record {
      name = "timeout_zombie[host_wait_for]";
      violation = run.seen && (not at_timeout && after);
      detail =
          ("caller_saw_timeout", flag run.seen)
          ∷ ("effect_at_timeout", flag at_timeout)
          ∷ ("effect_after_timeout", flag after)
          ∷ [];
    }
