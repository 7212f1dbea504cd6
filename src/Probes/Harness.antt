-- ===== src/Probes/Harness.antt =====
-- probes/src/agentprobe/_harness.py: the log of events, and a probe's result.
use soundgate_paper.Prelude.{
  ℕ, String, ◌<>◌, Bool, true, false, List, [], ◌∷◌, any, count_if, length, ◌==◌, string_eq,
}
use soundgate_paper.Corpus.Classify.{holds}

abbrev pub EventLog : Type 0
EventLog = List String

-- `EventLog.count` and `EventLog.contains`
unfoldable pub count : EventLog → String → ℕ
count log tag = count_if (λ (e : String). e == tag) log

unfoldable pub has : EventLog → String → Bool
has log substr = any (λ (e : String). holds e substr) log

-- The values of a result's details; a null is `nothing`. Notes that are constant texts, and values that
-- are only printed, are left out of the details.
pub data Detail : Type 0 where
  flag : Bool → Detail
  number : ℕ → Detail
  text : String → Detail
  trace : EventLog → Detail
  nothing : Detail

pub record ProbeResult : Type 0 where
  pub name : String
  pub violation : Bool
  pub detail : List (String × Detail)

-- `summarize`, its last line: the violations of all results.
unfoldable pub summarize : List ProbeResult → ℕ × ℕ
summarize results = (count_if (λ (r : ProbeResult). r.violation) results, length results)

-- What the caller of a cancelled task gets: the cancellation, another exception by the name of its type, or a result.
pub data Caught : Type 0 where
  cancelled : Caught
  other : String → Caught
  returned : Caught

-- The line that is logged of another exception.
abbrev pub caller_saw : String → Caught → EventLog
caller_saw label cancelled = []
caller_saw label (other name) = (label <> (":caller_saw=" <> name)) ∷ []
caller_saw label returned = []

abbrev pub is_cancelled : Caught → Bool
is_cancelled cancelled = true
is_cancelled (other name) = false
is_cancelled returned = false
