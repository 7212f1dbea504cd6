-- ===== src/Probes/LangGraph/Documented.antt =====
-- probes/src/agentprobe/langgraph_probes.py: the verdicts on a framework that keeps to what LangGraph
-- documents.
use soundgate_paper.Prelude.{
  ℕ, ◌+◌, ◌≡◌, refl, ap, ◌∙◌, String, Bool, true, false, [], ◌∷◌, ◌++◌, any, count_if,
  count_if-append, lt→ltb, ◌≤◌, ◌==◌, ==→eq, string_eq, if◌then◌else◌, arith, Bool-cases, inl, inr,
}
use soundgate_paper.Corpus.Classify.{holds}
use soundgate_paper.Probes.Harness.{EventLog, count, has}
use soundgate_paper.Probes.LangGraph.{
  Node, Graph, gate, side_effect, parallel_gate_graph, act_then_gate, Framework, probe_sibling_leak,
  probe_replay,
}

-- The sum of a number over the nodes.
abbrev pub total : (Node → ℕ) → Graph → ℕ
total f [] = 0
total f (n ∷ g) = f n + total f g

-- Nodes of one step all run, an interrupt pauses, and a node that interrupted is run again from its
-- start when it is resumed.
pub record Documented (fw : Framework) : Type 0 where
  pub pauses : (g : Graph) → (fw.invoke g).0 ≡ any (λ (n : Node). n.interrupts) g
  pub runs_all :
      (g : Graph) (tag : String) → count (fw.invoke g).1 tag ≡ total (λ n. count n.before tag) g
  pub restarts :
      (g : Graph) (decision : Bool) (tag : String)
      → count (fw.resume g decision) tag
        ≡ total (λ n. if n.interrupts then count (n.before ++ n.after decision) tag else 0) g

has-count :
    (log : EventLog) (tag : String) → holds tag tag ≡ true → 1 ≤ count log tag → has log tag ≡ true
unfolding count has count_if any
has-count [] tag h le = absurd (omega arith)
has-count (e ∷ log) tag h le = elim (Bool-cases (e == tag)) [
  | inl same ↦ rw (ap (λ (d : String). holds d tag) (==→eq e tag same) ∙ h) refl
  | inr other ↦ ground (arith, other, has-count log tag h)
]

pub count-append : (a b : EventLog) (tag : String) → count (a ++ b) tag ≡ count a tag + count b tag
unfolding count
count-append a b tag = count_if-append (λ (e : String). e == tag) a b

module _ (fw : Framework) (d : Documented fw) where
  sibling-counts :
      (gate_first : Bool)
      → ((fw.invoke (parallel_gate_graph gate_first)).0 ≡ true)
        × (count (fw.invoke (parallel_gate_graph gate_first)).1 "EFFECT:executed" ≡ 1)
        × (count (fw.resume (parallel_gate_graph gate_first) false) "EFFECT:executed" ≡ 0)
  unfolding parallel_gate_graph gate side_effect count count_if any
  sibling-counts true =
      let g : Graph = parallel_gate_graph true in
      (d.pauses g, d.runs_all g "EFFECT:executed", d.restarts g false "EFFECT:executed")
  sibling-counts false =
      let g : Graph = parallel_gate_graph false in
      (d.pauses g, d.runs_all g "EFFECT:executed", d.restarts g false "EFFECT:executed")

  replay-counts :
      (count (fw.invoke (act_then_gate ∷ [])).1 "P2_EFFECT:executed" ≡ 1)
      × (count (fw.resume (act_then_gate ∷ []) true) "P2_EFFECT:executed" ≡ 1)
  unfolding act_then_gate count count_if
  replay-counts =
      let g : Graph = act_then_gate ∷ [] in
      (d.runs_all g "P2_EFFECT:executed", d.restarts g true "P2_EFFECT:executed")

-- On such a framework both sibling probes report a violation, and the sibling's effect stands once after
-- the rejection; and the replay probe reports one, for an effect that is logged once before the approval
-- and once more after it.
pub Documented-Violates :
    (fw : Framework)
    → Documented fw
    → (gate_first : Bool) (label : String)
    → ((probe_sibling_leak fw gate_first label).violation ≡ true)
      × (count
            ((fw.invoke (parallel_gate_graph gate_first)).1
              ++ fw.resume (parallel_gate_graph gate_first) false)
            "EFFECT:executed"
          ≡ 1)
      × ((probe_replay fw).violation ≡ true)
unfolding probe_sibling_leak probe_replay holds
Documented-Violates fw d gate_first label =
    let s = sibling-counts fw d gate_first in
    let r = replay-counts fw d in
    let first : EventLog = (fw.invoke (parallel_gate_graph gate_first)).1 in
    let seen : has first "EFFECT:executed" ≡ true =
      has-count first "EFFECT:executed" refl (omega (arith, s.1)) in
    (
      rw (s.0, seen) refl,
      omega (
        arith,
        s.1,
        s.2,
        count-append first (fw.resume (parallel_gate_graph gate_first) false) "EFFECT:executed",
      ),
      lt→ltb 1 _ (
          omega (
            arith,
            r.0,
            r.1,
            count-append (fw.invoke (act_then_gate ∷ [])).1 (fw.resume (act_then_gate ∷ []) true)
                "P2_EFFECT:executed",
          )),
    )
