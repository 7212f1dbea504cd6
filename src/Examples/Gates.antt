-- ===== src/Examples/Gates.antt =====
-- The theorems on the gate and its log, at a gate that holds one effect and has released another.
use soundgate_paper.Prelude.{String, ◌≡◌, Bool, true, false, Option, string_eq, pair_eq}
use soundgate_paper.Wire.{submit, close}
use soundgate_paper.Wire.Laws.{IsSafe}
use soundgate_paper.Gate.Defs as Ops
use soundgate_paper.Gate.Defs.{Effect, Event, Gate, empty, replay, durable_events, apply}
use soundgate_paper.Gate.Phase.{
  phase, submit_verdict, decide_verdict, decide_next, replay_next, durable,
}
use soundgate_paper.Gate.Refines.{submit-Refines, decide-Refines, phase-apply}
use soundgate_paper.Gate.Recovery.{phase-durable_events}
use soundgate_paper.Node.Defs.{Node, start, handle, recover, effect}
use soundgate_paper.Node.Invariant.{IsDurable, start-IsDurable, handle-IsDurable, recover-IsDurable}
use soundgate_paper.Node.Safe.{server, server-IsSafe, node_dead}

abbrev pub any_mac : String → String → Bool → Option String → Bool
any_mac run key approved mac = true

abbrev pay : Effect
pay = effect "run" "pay" true

-- One effect released, another held.
abbrev pub busy : Node
busy =
    (handle any_mac 0 (handle any_mac 0 start (submit "run" "mail" false)).0
      (submit "run" "pay" true)).0

pub busy-IsDurable : IsDurable busy
busy-IsDurable =
    handle-IsDurable any_mac 0 _ (submit "run" "pay" true)
      (handle-IsDurable any_mac 0 start (submit "run" "mail" false) start-IsDurable)

server-IsSafe_example : IsSafe (server any_mac 3) IsDurable node_dead
server-IsSafe_example = server-IsSafe any_mac 3

handle-IsDurable_example : IsDurable (handle any_mac 1 busy (close "run")).0
handle-IsDurable_example = handle-IsDurable any_mac 1 busy (close "run") busy-IsDurable

recover-IsDurable_example : IsDurable (recover (handle any_mac 1 busy (close "run")).0)
recover-IsDurable_example =
    recover-IsDurable (handle any_mac 1 busy (close "run")).0
      (handle-IsDurable any_mac 1 busy (close "run") busy-IsDurable)

phase-durable_events_example :
    phase (replay empty (durable_events busy.gate)) ("run", "pay")
    ≡ durable (phase busy.gate ("run", "pay"))
phase-durable_events_example = phase-durable_events busy.gate ("run", "pay")

submit-Refines_example :
    ((Ops.submit busy.gate pay).1 ≡ submit_verdict (phase busy.gate ("run", "pay")) true)
    × (phase (Ops.submit busy.gate pay).0 ("run", "mail") ≡ phase busy.gate ("run", "mail"))
submit-Refines_example = submit-Refines busy.gate pay ("run", "mail")

decide-Refines_example :
    ((Ops.decide busy.gate ("run", "pay") false).1
      ≡ decide_verdict (phase busy.gate ("run", "pay")) false)
    × (phase (Ops.decide busy.gate ("run", "pay") false).0 ("run", "pay")
        ≡ decide_next (phase busy.gate ("run", "pay")) false)
decide-Refines_example =
    decide-Refines busy.gate ("run", "pay") false ("run", "pay") busy-IsDurable.valid

phase-apply_example :
    phase (apply empty (Event.released ("run", "pay"))) ("run", "pay")
    ≡ replay_next (phase empty ("run", "pay")) (Event.released ("run", "pay")) ("run", "pay")
phase-apply_example = phase-apply empty (Event.released ("run", "pay")) ("run", "pay")
