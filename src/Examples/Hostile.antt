-- ===== src/Examples/Hostile.antt =====
-- The theorems on the fuzzer, at a campaign with one case of each kind.
use soundgate_paper.Prelude.{
  ◌≡◌, refl, true, none, some, List, [], ◌∷◌, ◌++◌, contains, lookup, insert, count_if, arith,
}
use soundgate_paper.Wire.{submit, ping, cancel}
use soundgate_paper.Gate.Phase.{phase}
use soundgate_paper.Node.Defs.{Node, start, handle, answer}
use soundgate_paper.Gate.Defs.{cancel as gate_cancel}
use soundgate_paper.Node.Invariant.{start-IsDurable, handle-IsDurable}
use soundgate_paper.Node.Phases.{open_door}
use soundgate_paper.Fuzz.Socket.{reply, closed_raw, timeout}
use soundgate_paper.Fuzz.Campaign.{
  Case, decide_unknown, approve_cancelled, double_decide, submit_cancelled, is_fail_open, run_case,
}
use soundgate_paper.Fuzz.Semantic.{gate, Unseen, run_case-false_alarm}
use soundgate_paper.Fuzz.Main.{Stage, malformed, semantic, main, status}
use soundgate_paper.Fuzz.Passes.{main-passes}

abbrev cases : List Case
cases =
    record { kind = decide_unknown; rid = "g1"; key = "k1" }
    ∷ record { kind = approve_cancelled; rid = "g2"; key = "k2" }
    ∷ record { kind = double_decide; rid = "g3"; key = "k3" }
    ∷ record { kind = submit_cancelled; rid = "g4"; key = "k4" }
    ∷ []

abbrev class_f : Stage
class_f = record {
  batch =
      malformed "F" (reply (some "error") ∷ closed_raw ∷ timeout ∷ [])
        (submit "run_x" "k" true ∷ ping ∷ []);
  alive = true;
  returncode = "";
}

abbrev class_h : Stage
class_h = record {
  batch = malformed "H" (reply (some "pong") ∷ reply none ∷ []) (ping ∷ []);
  alive = true;
  returncode = "";
}

cases-Unseen : Unseen 3 start cases
unfolding phase contains start lookup
cases-Unseen = (
  refl,
  (refl, (refl, (refl, tt))),
  (refl, (refl, (refl, tt)), (refl, (refl, tt), (refl, tt, tt))),
)

main-passes_example :
    status (
      main
        (gate 3)
        ((class_f ∷ [])
          ++ record { batch = semantic cases; alive = true; returncode = "" } ∷ class_h ∷ [])
        start)
    ≡ 0
unfolding phase contains start lookup count_if is_fail_open
main-passes_example =
    main-passes 3 (class_f ∷ []) (class_h ∷ []) cases "" start start-IsDurable refl refl
      cases-Unseen ((refl, refl), ((refl, refl), ((refl, refl), ((refl, refl), tt))))
      (
        (
          refl,
          (
            omega arith,
            (refl, (refl, tt)),
            (refl, (refl, tt)),
            (
              (refl, (refl, tt)),
              ((refl, (refl, tt)), ((refl, (refl, tt)), ((refl, (refl, tt)), tt))),
            ),
          ),
        ),
        tt,
      )
      ((refl, (omega arith, (refl, tt), (refl, tt), tt)), tt)

abbrev fenced_node : Node
fenced_node = (handle open_door 3 start (cancel "g2")).0

run_case-false_alarm_example :
    (run_case (gate 3) double_decide "g2" "k9" fenced_node).2 []
    ≡ record {
      oracle = "G";
      what = "double-decide anomaly";
      seen = "refused_cancelled" ∷ "refused_cancelled" ∷ [];
    }
      ∷ []
unfolding phase contains handle answer gate_cancel insert start
run_case-false_alarm_example =
    run_case-false_alarm 3 "g2" "k9" fenced_node []
      (handle-IsDurable open_door 3 start (cancel "g2") start-IsDurable) refl
