-- ===== src/Node/Defs.antt =====
-- soundgate/src/main.rs: `event_for`, `handle` and `recovery_barrier`, over the records themselves
-- (their bytes are in Node.Bytes).
use soundgate_paper.Prelude.{
  ℕ, ◌+◌, max, String, Bool, true, false, ◌&&◌, Option, none, some, List, [], ◌∷◌, ◌++◌, length,
  is_some, ltb, leb, if◌then◌else◌, string_eq,
}
use soundgate_paper.Wire.{Request, Reply, submit, decide, cancel, close, ping}
use soundgate_paper.Gate.Defs as Ops
use soundgate_paper.Gate.Defs.{Gate, Effect, Event, Admission, replay, durable_events, empty}

pub record Node : Type 0 where
  pub gate : Gate
  pub log : List Event
  pub appended : ℕ
  pub last_snapshot : ℕ

unfoldable pub start : Node
start = record { gate = empty; log = []; appended = 0; last_snapshot = 0 }

abbrev pub effect : String → String → Bool → Effect
effect run key needs = record { run_id = run; effect_key = key; needs_approval = needs }

abbrev pub from_admission : Admission → Reply
from_admission Admission.release = Reply.release
from_admission Admission.held_for_approval = Reply.held_for_approval
from_admission Admission.refused_cancelled = Reply.refused_cancelled
from_admission Admission.refused_duplicate = Reply.refused_duplicate
from_admission Admission.refused_rejected = Reply.refused_rejected

unfoldable pub event_for : Request → Reply → Option Event
event_for (submit run key _) Reply.release = some (Event.released (run, key))
event_for (decide run key _ _) Reply.release = some (Event.released (run, key))
event_for (decide run key _ _) Reply.refused_rejected = some (Event.rejected (run, key))
event_for (cancel run) Reply.ack = some (Event.cancelled run)
event_for (close run) Reply.ack = some (Event.closed run)
event_for _ _ = none

unfoldable pub saw_closed : List Event → Bool
saw_closed [] = false
saw_closed (Event.closed run ∷ log) = true
saw_closed (ev ∷ log) = saw_closed log

abbrev pub append_event : Option Event → List Event → List Event
append_event none log = log
append_event (some ev) log = log ++ ev ∷ []

-- `mac_ok` stands for the check of a decision's tag.
module _ (mac_ok : String → String → Bool → Option String → Bool) where
  decide_checked : Gate → String → String → Bool → Option String → Gate × Reply
  decide_checked g run key approved mac =
      if mac_ok run key approved mac
      then (let (g', a) = Ops.decide g (run, key) approved in (g', from_admission a))
      else (g, Reply.error "unauthenticated decision: bad or missing mac")

  unfoldable pub answer : Gate → Request → Gate × Reply
  unfolding decide_checked
  answer g (submit run key needs) =
      let (g', a) = Ops.submit g (effect run key needs) in (g', from_admission a)
  answer g (decide run key approved mac) = decide_checked g run key approved mac
  answer g (cancel run) = (Ops.cancel g run, Reply.ack)
  answer g (close run) = (Ops.close_run g run, Reply.ack)
  answer g ping = (g, Reply.pong)

-- On a close that is due, the log is rewritten to the snapshot before its record is appended;
-- `threshold` is SOUNDGATE_WAL_COMPACT_MIN.
abbrev pub is_due : ℕ → Node → Bool
is_due threshold n = ltb 0 threshold && leb (max threshold n.last_snapshot) n.appended

compaction : ℕ → Request → Node → Node
compaction threshold (close run) n =
    if is_due threshold n
    then (let snapshot = durable_events n.gate in
        record n { log = snapshot; last_snapshot = length snapshot; appended = 0 })
    else n
compaction threshold _ n = n

append : Option Event → Node → Node
append ev n = record n {
  log = append_event ev n.log;
  appended = (if is_some ev then n.appended + 1 else n.appended);
}

-- `handle`, for one request.
unfoldable pub handle :
    (String → String → Bool → Option String → Bool) → ℕ → Node → Request → Node × Reply
unfolding compaction append
handle mac_ok threshold n q =
    let (g, reply) = answer mac_ok n.gate q in
    (append (event_for q reply) (compaction threshold q (record n { gate = g })), reply)

-- A crash and a restart: the gate is what the log rebuilds, and a log that holds a close is
-- rewritten to the snapshot.
unfoldable pub recover : Node → Node
unfolding saw_closed
recover n =
    let g = replay empty n.log in
    let log = if saw_closed n.log then durable_events g else n.log in
    record { gate = g; log = log; appended = 0; last_snapshot = length log }
