-- ===== src/Examples/Logs.antt =====
-- The theorem on the log's bytes, at a codec of two records.
use soundgate_paper.Prelude.{
  All, contains, lookup, put, string_eq, pair_eq, insert, ◌≡◌, refl, Bool, true, false, Option,
  none, some, [], ◌∷◌, ◌++◌, map, ◌==◌, nat_eq, inr, if◌then◌else◌, ◌&&◌,
}
use soundgate_paper.Wire.{Request, submit}
use soundgate_paper.Gate.Defs as Ops
use soundgate_paper.Gate.Defs.{Event, empty, replay}
use soundgate_paper.Gate.Phase.{phase, durable}
use soundgate_paper.Node.Defs.{start, event_for, answer, is_due, handle}
use soundgate_paper.Node.Bytes.Durable.{crash-handle}
use soundgate_paper.Examples.Gates.{any_mac, busy, busy-IsDurable}
use soundgate_paper.Node.Bytes.{
  Bytes, newline, is_blank, started, recovery_barrier, complete_len, split, read_lines, repaired,
  repair_tail,
}
use soundgate_paper.Node.Bytes.Lines.{flat}
use soundgate_paper.Node.Bytes.Repairs.{IsCoded, restart_again}

-- The records are the texts y; and n; by their bytes.
abbrev encode : Bool → Bytes
encode true = 121 ∷ 59 ∷ []
encode false = 110 ∷ 59 ∷ []

abbrev parse : Bytes → Option Bool
parse [] = none
parse (a ∷ []) = none
parse (a ∷ b ∷ []) =
    if a == 121 && b == 59 then some true else if a == 110 && b == 59 then some false else none
parse (a ∷ b ∷ c ∷ bs) = none

coded : (ev : Bool) → IsCoded parse encode ev
unfolding is_blank
coded true = record { one_line = (refl, (refl, tt)); not_blank = refl; reads_back = refl }
coded false = record { one_line = (refl, (refl, tt)); not_blank = refl; reads_back = refl }

-- A record, and a fragment that the recovery cuts off.
abbrev crashed : Bytes
crashed = 121 ∷ 59 ∷ 10 ∷ 110 ∷ []

crashed-started : recovery_barrier parse crashed ≡ started (true ∷ []) (121 ∷ 59 ∷ 10 ∷ [])
unfolding recovery_barrier complete_len split read_lines repaired repair_tail is_blank
crashed-started = refl

restart_again_example :
    (recovery_barrier parse (121 ∷ 59 ∷ 10 ∷ (flat (map encode (false ∷ [])) ++ 121 ∷ []))
      ≡ started (true ∷ false ∷ []) (121 ∷ 59 ∷ 10 ∷ flat (map encode (false ∷ []))))
    × (recovery_barrier parse (121 ∷ 59 ∷ 10 ∷ (flat (map encode (false ∷ [])) ++ encode true))
        ≡ started
            (true ∷ false ∷ true ∷ [])
            ((121 ∷ 59 ∷ 10 ∷ flat (map encode (false ∷ []))) ++ (encode true ++ newline ∷ [])))
restart_again_example =
    restart_again parse encode crashed (121 ∷ 59 ∷ 10 ∷ []) (true ∷ []) (false ∷ []) (121 ∷ []) true
      crashed-started (coded false, tt) (coded true) (refl, tt) (inr refl)

-- Texts for the records of two effects of one run.
abbrev text : Event → Bytes
text (Event.released i) = if i.1 == "mail" then 109 ∷ [] else 110 ∷ []
text (Event.rejected i) = 114 ∷ []
text (Event.cancelled run) = 99 ∷ []
text (Event.closed run) = 100 ∷ []

abbrev record_of : Bytes → Option Event
record_of [] = none
record_of (b ∷ []) =
    if b == 109
    then some (Event.released ("run", "mail"))
    else if b == 110
    then some (Event.released ("run", "note"))
    else none
record_of (a ∷ b ∷ bs) = none

mail-IsCoded : IsCoded record_of text (Event.released ("run", "mail"))
unfolding is_blank
mail-IsCoded = record { one_line = (refl, tt); not_blank = refl; reads_back = refl }

note-IsCoded : IsCoded record_of text (Event.released ("run", "note"))
unfolding is_blank
note-IsCoded = record { one_line = (refl, tt); not_blank = refl; reads_back = refl }

abbrev request : Request
request = submit "run" "note" false

log-IsCoded : All (IsCoded record_of text) busy.log
unfolding handle answer event_for start Ops.submit contains lookup insert
log-IsCoded = (mail-IsCoded, tt)

no_compaction : is_due 0 busy ≡ false
unfolding handle
no_compaction = refl

request-written :
    event_for request (answer any_mac busy.gate request).1 ≡ some (Event.released ("run", "note"))
unfolding handle answer event_for start Ops.submit contains lookup insert put
request-written = refl

crash-handle_example :
    (recovery_barrier record_of (flat (map text busy.log) ++ 120 ∷ [])
      ≡ started busy.log (flat (map text busy.log)))
    × (recovery_barrier record_of
          (flat (map text busy.log) ++ text (Event.released ("run", "note")))
        ≡ started
            (handle any_mac 0 busy request).0.log
            (flat (map text (handle any_mac 0 busy request).0.log)))
    × (recovery_barrier record_of (flat (map text (handle any_mac 0 busy request).0.log))
        ≡ started
            (handle any_mac 0 busy request).0.log
            (flat (map text (handle any_mac 0 busy request).0.log)))
    × (phase (replay empty busy.log) ("run", "pay") ≡ durable (phase busy.gate ("run", "pay")))
    × (phase (replay empty (handle any_mac 0 busy request).0.log) ("run", "pay")
        ≡ durable (phase (handle any_mac 0 busy request).0.gate ("run", "pay")))
crash-handle_example =
    crash-handle record_of text any_mac 0 busy request (Event.released ("run", "note")) (120 ∷ [])
      ("run", "pay") busy-IsDurable no_compaction request-written log-IsCoded note-IsCoded
      (refl, tt) (inr refl)
