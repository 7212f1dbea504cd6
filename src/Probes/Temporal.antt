-- ===== src/Probes/Temporal.antt =====
-- probes-temporal/probe_temporal.py: the effect log, and what the probes make of it. What the workflows
-- append, their answers and the clock are data.
pub mod Order
use soundgate_paper.Prelude.{
  ℕ, String, ◌<>◌, Bool, true, false, not, ◌&&◌, Option, none, some, List, [], ◌∷◌, ◌++◌, count_if,
  length, is_some, ltb, ◌==◌, string_eq, if◌then◌else◌,
}
use soundgate_paper.Probes.Harness.{flag, number, text, nothing, Detail, ProbeResult}

pub record Entry : Type 0 where
  pub tag : String
  pub t : ℕ

unfoldable pub log_count : List Entry → String → ℕ
log_count log tag = count_if (λ (e : Entry). e.tag == tag) log

-- The time of the first entry with the tag.
unfoldable pub log_t : List Entry → String → Option ℕ
log_t [] tag = none
log_t (e ∷ log) tag = let rest = log_t log tag in if e.tag == tag then some e.t else rest

abbrev pub is_after : Option ℕ → ℕ → Bool
is_after none t = false
is_after (some t_effect) t = ltb t t_effect

abbrev pub is_before : Option ℕ → ℕ → Bool
is_before none t = false
is_before (some t_effect) t = ltb t_effect t

-- `(t_effect or 0) < t_reject`
abbrev or_zero : Option ℕ → ℕ
or_zero none = 0
or_zero (some t) = t

-- The log when the poll has ended, the state that the query gives, the time of the rejection, and the log
-- at the end.
unfoldable pub probe_t1_sibling : List Entry → String → ℕ → List Entry → ProbeResult × ProbeResult
unfolding log_count log_t
probe_t1_sibling log state_at_effect t_reject log_end =
    let t_effect = log_t log "t1:sibling" in
    let sibling_during_pause = is_some t_effect && state_at_effect == "awaiting_decision" in
    let gated_ran = ltb 0 (log_count log_end "t1:gated") in
    (
      record {
        name = "T1 sibling approval leak";
        violation = sibling_during_pause;
        detail =
            ("sibling_effects", number (log_count log_end "t1:sibling"))
            ∷ ("state_when_effect_seen", text state_at_effect)
            ∷ ("t_effect<t_reject", flag (ltb (or_zero t_effect) t_reject))
            ∷ [];
      },
      record {
        name = "T1 reject-after-effect";
        violation = sibling_during_pause && (not gated_ran && is_before t_effect t_reject);
        detail =
            ("gated_effect_ran", flag gated_ran)
            ∷ ("sibling_already_committed", flag sibling_during_pause)
            ∷ [];
      },
    )

-- The log before the first worker stops and at the end.
unfoldable pub probe_t2_replay : List Entry → List Entry → ProbeResult
unfolding log_count
probe_t2_replay log log_end =
    let pre = log_count log "t2:pre_gate" in
    let post = log_count log_end "t2:pre_gate" in
    record {
      name = "T2 replay double-execution";
      violation = ltb pre post;
      detail = ("pre_gate_effects_before_resume", number pre) ∷ ("after_resume", number post) ∷ [];
    }

abbrev seen_as : Option String → Detail
seen_as none = nothing
seen_as (some name) = text name

-- What the caller observed and when, and the log at the end.
unfoldable pub probe_t3_cancel : Bool → Option String → ℕ → List Entry → ProbeResult
unfolding log_count log_t
probe_t3_cancel heartbeating observed t_obs log =
    let tag = "t3" <> (if heartbeating then "b" else "") in
    let orphan = is_after (log_t log tag) t_obs in
    record {
      name =
          if heartbeating
          then "T3b cancel: heartbeating (contrast)"
          else "T3 cancel orphan: no heartbeat";
      violation = orphan;
      detail =
          ("caller_observed", seen_as observed)
          ∷ ("effect_committed", number (log_count log tag))
          ∷ ("effect_after_cancel_observed", flag orphan)
          ∷ [];
    }

unfoldable pub probe_t4_timeout : String → ℕ → List Entry → ProbeResult
unfolding log_count log_t
probe_t4_timeout res t_obs log =
    let zombie = res == "timeout_observed" && is_after (log_t log "t4") t_obs in
    record {
      name = "T4 timeout zombie";
      violation = zombie;
      detail =
          ("caller_saw", text res)
          ∷ ("effect_committed", number (log_count log "t4"))
          ∷ ("effect_after_timeout_observed", flag zombie)
          ∷ [];
    }
