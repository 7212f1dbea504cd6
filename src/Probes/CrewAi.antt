-- ===== src/Probes/CrewAi.antt =====
-- probes/src/agentprobe/crewai_probes.py. What the framework logs is data; times are milliseconds.
pub mod Review
use soundgate_paper.Prelude.{
  ℕ, zero, suc, ◌+◌, ◌*◌, String, ◌<>◌, Bool, true, false, not, ◌&&◌, ◌||◌, Option, none, some,
  List, [], ◌∷◌, ◌++◌, any, map, is_some, ltb, leb, ◌==◌, string_eq, if◌then◌else◌,
}
use soundgate_paper.Corpus.Classify.{holds}
use soundgate_paper.Probes.Harness.{
  EventLog, count, has, flag, number, text, ProbeResult, Detail, nothing,
}
use soundgate_paper.Probes.LangGraph.{Ended}

-- A message of the conversation.
pub record Message : Type 0 where
  pub role : String
  pub content : String

-- `ScriptedLLM.call`
unfoldable pub scripted_call : List Message → String
unfolding holds
scripted_call messages =
    let already_acted =
      any (λ m. m.role == "assistant" && holds m.content "Action: fire_effect") messages in
    if already_acted
    then "Thought: the effect is done.\nFinal Answer: done"
    else "Thought: I must perform the action.\nAction: fire_effect\nAction Input: {}"

abbrev pub next_index : Option ℕ → Option ℕ
next_index none = none
next_index (some i) = some (suc i)

-- `next((i for i, e in enumerate(events) if tag in e), None)`
unfoldable pub index_of : String → EventLog → Option ℕ
unfolding holds
index_of tag [] = none
index_of tag (e ∷ events) = if holds e tag then some 0 else next_index (index_of tag events)

unfoldable pub precedes : Option ℕ → Option ℕ → Bool
precedes none j = false
precedes (some i) none = false
precedes (some i) (some j) = ltb i j

unfoldable pub run_c1 : EventLog → ProbeResult
unfolding index_of precedes
run_c1 events =
    let effect_idx = index_of "C1_EFFECT" events in
    let human_idx = index_of "HUMAN:feedback_requested" events in
    record {
      name = "review_after_effect[human_input]";
      violation = precedes effect_idx human_idx;
      detail =
          ("effect_executed", flag (is_some effect_idx))
          ∷ ("feedback_requested", flag (is_some human_idx))
          ∷ ("effect_before_review", flag (precedes effect_idx human_idx))
          ∷ [];
    }

unfoldable pub run_c3 : Ended → ProbeResult
unfolding has
run_c3 run =
    let at_cancel = has run.log "C3_EFFECT" in
    let after = has (run.log ++ run.later) "C3_EFFECT" in
    record {
      name = "cancellation[kickoff_async]";
      violation = run.seen && (not at_cancel && after);
      detail =
          ("cancelled_seen", flag run.seen)
          ∷ ("effect_at_cancel", flag at_cancel)
          ∷ ("effect_after_cancel", flag after)
          ∷ [];
    }

-- An exception of the kickoff: its type, its text in lower case, whether it is a TimeoutError.
pub record Raised : Type 0 where
  pub type_name : String
  pub lower_text : String
  pub is_timeout : Bool

unfoldable pub is_timed_out : Option Raised → Bool
unfolding holds
is_timed_out none = false
is_timed_out (some e) = holds e.lower_text "timed out" || e.is_timeout

unfoldable pub exception_name : Option Raised → List (String × Detail)
exception_name none = ("caller_exception", nothing) ∷ []
exception_name (some e) = ("caller_exception", text e.type_name) ∷ []

unfoldable pub run_c4_strict_zombie : Option Raised → EventLog → EventLog → ProbeResult
unfolding has is_timed_out exception_name
run_c4_strict_zombie raised log later =
    let at_timeout = has log "C4_EFFECT" in
    let after = has (log ++ later) "C4_EFFECT" in
    record {
      name = "timeout_zombie_strict[max_execution_time]";
      violation = is_timed_out raised && (not at_timeout && after);
      detail =
          ("caller_saw_timeout", flag (is_timed_out raised))
          ∷ (exception_name raised
              ++ ("effect_at_timeout", flag at_timeout)
                ∷ ("effect_after_timeout", flag after)
                ∷ []);
    }

-- The deadline is a second; the run has overrun it half a second later.
unfoldable pub run_c4b_blocking_overrun : Option Raised → ℕ → EventLog → EventLog → ProbeResult
unfolding has is_timed_out exception_name
run_c4b_blocking_overrun raised surfaced_at log later =
    let effect_happened = has log "C4B_EFFECT" || has (log ++ later) "C4B_EFFECT" in
    let overrun = leb 1500 surfaced_at in
    record {
      name = "timeout_blocks_then_effect[max_execution_time]";
      violation = is_timed_out raised && (effect_happened && overrun);
      detail =
          ("caller_saw_timeout", flag (is_timed_out raised))
          ∷ (exception_name raised
              ++ ("effect_executed_despite_timeout", flag effect_happened) ∷ []);
    }

-- The checkpoint's class may be missing; the first run may raise; it writes checkpoints or none; the
-- resumption may raise.
pub record Checkpointed : Type 0 where
  pub missing : Option String
  pub run1 : EventLog
  pub run1_error : Option String
  pub written : List String
  pub resumed : EventLog
  pub resume_error : Option String

unfoldable pub run_c5_checkpoint_replay : Checkpointed → ProbeResult
unfolding count
run_c5_checkpoint_replay run = imported run.missing
  where
    noted : String → Option String → EventLog
    noted what none = []
    noted what (some name) = (what <> name) ∷ []

    not_probed : List (String × Detail) → ProbeResult
    not_probed detail = record {
      name = "replay[checkpoint_resume]";
      violation = false;
      detail = detail;
    }

    restored : List String → ProbeResult
    restored [] = not_probed (
        ("outcome", text "NOT PROBED: checkpoint write fails for tool-bearing crews")
        ∷ (
          "effect_count_run1",
          number (count (run.run1 ++ noted "run1_err:" run.run1_error) "C5_EFFECT:executed"),
        )
        ∷ [])
    restored (file ∷ files) =
        let log = run.run1 ++ noted "run1_err:" run.run1_error in
        let count_run1 = count log "C5_EFFECT:executed" in
        let count_total =
          count (log ++ (run.resumed ++ noted "resume_err:" run.resume_error))
            "C5_EFFECT:executed" in
        record {
          name = "replay[checkpoint_resume]";
          violation = ltb count_run1 count_total;
          detail =
              ("effect_count_run1", number count_run1)
              ∷ ("effect_count_after_resume", number count_total)
              ∷ ("resume_completed", flag (not (is_some run.resume_error)))
              ∷ ("checkpoint_file", text file)
              ∷ [];
        }

    imported : Option String → ProbeResult
    imported (some err) =
        not_probed
          (("outcome", text "NOT PROBED: CheckpointConfig import failed") ∷ ("err", text err) ∷ [])
    imported none = restored run.written
