-- ===== src/Examples/Tools.antt =====
-- The theorems on the lint, the random graphs, the mutation score and the extraction at small inputs.
use soundgate_paper.Prelude.{
  any, ◌<>◌, ℕ, ◌<◌, ◌≤◌, ◌≡◌, ◌↔◌, refl, String, Bool, true, false, ◌||◌, some, [], ◌∷◌, All, map,
  arith, nat_beq, ◌-◌, contains, string_eq, ◌==◌,
}
use soundgate_paper.Lint.Visit.{
  Node, function_def, call, name, other, end, child, parsed, exit_code,
}
use soundgate_paper.Lint.Sound.{exit_code-IsMediated, IsMediated}
use soundgate_paper.Lint.Fixture.{
  effects, tools_mail, tools_billing, tools_tickets, tools_deploy, tools_storage, tools_chat,
}
use soundgate_paper.Lint.Flags.{lint, lines, lint_fixture}
use soundgate_paper.Graphs.Generate.{Draws, Spec, Relation, gen_one, parent}
use soundgate_paper.Graphs.Depths.{HasDepth}
use soundgate_paper.Graphs.Waves.{doubled}
use soundgate_paper.Graphs.Relations.{Agrees, gen_one-Agrees}
use soundgate_paper.MutationScore.Text.{count, count_from, starts_with, size, replace, replace_from}
use soundgate_paper.MutationScore.Run.{
  Harness, exhaustive, loom, Mutation, mutations, main, phase1, phase2,
}
use soundgate_paper.MutationScore.Verdict.{
  passes, IsAnchored, main-status, main-drifted, dedup_comment,
}

-- A wrapper that calls `pay`, and a call of `pay` outside.
abbrev tree : Node
tree = other (
    child (function_def "gate_effect" (child (call (name "pay") 2 end) end))
      (child (call (name "pay") 4 end) end))

exit_code-IsMediated_example :
    ((exit_code ("pay" ∷ []) "gate_effect" (("a.py", parsed tree) ∷ []) ≡ 0)
      ↔ All (IsMediated ("pay" ∷ []) "gate_effect") (("a.py", parsed tree) ∷ []))
    × (exit_code ("pay" ∷ []) "gate_effect" (("a.py", parsed tree) ∷ []) ≤ 125)
exit_code-IsMediated_example =
    exit_code-IsMediated ("pay" ∷ []) "gate_effect" (("a.py", parsed tree) ∷ [])

lint_fixture_example :
    (lint effects "tools.py" tools_mail
      ≡ lines effects "tools.py" ((52, "send_mail") ∷ (58, "capture_mail") ∷ []))
    × (lint effects "tools.py" tools_billing
        ≡ lines effects "tools.py" ((51, "create_billing") ∷ (57, "delete_billing") ∷ []))
    × (lint effects "tools.py" tools_tickets
        ≡ lines effects "tools.py" ((52, "publish_tickets") ∷ (58, "notify_tickets") ∷ []))
    × (lint effects "tools.py" tools_deploy
        ≡ lines effects "tools.py" ((52, "update_deploy") ∷ (58, "provision_deploy") ∷ []))
    × (lint effects "tools.py" tools_storage ≡ [])
    × (lint effects "tools.py" tools_chat ≡ [])
unfolding effects contains
lint_fixture_example =
    lint_fixture effects "tools.py"
      (refl, (refl, (refl, (refl, (refl, (refl, (refl, (refl, tt))))))))

-- n0 and n2 start; n1 hangs from n0, n3 from n2 and n4 from n3; the gate is n1.
abbrev draws : Draws
draws = record {
  size = 5;
  from_start = λ j. nat_beq j 0 || nat_beq j 2;
  earlier = λ j. j - 1;
  choice = 1;
  sample = 0 ∷ 3 ∷ 4 ∷ [];
}

gen_one-Agrees_example :
    (s : Spec) × (gen_one (doubled 5) draws ≡ some s)
    × (s.depth 1 ≡ some s.gate_wave)
    × ((x : ℕ) → x < 5 → HasDepth (parent draws) s.depth x)
    × (map (λ (p : ℕ × Relation). p.0) s.relations ≡ 0 ∷ 3 ∷ 4 ∷ [])
    × All
        (λ (p : ℕ × Relation). (d : ℕ) × (s.depth p.0 ≡ some d) × Agrees p.1 d s.gate_wave)
        s.relations
gen_one-Agrees_example =
    gen_one-Agrees draws (λ j h. omega (arith, h)) (omega arith)
      (omega arith, (omega arith, (omega arith, tt)))

-- The lines of `submit` in lib.rs at this commit that a mutant of MUTATIONS could replace: the comment on
-- which `dedup_negate` is anchored is not there.
abbrev submit_lines : String
submit_lines =
    "        if self.cancelled.contains(&e.run_id) || self.closed.contains(&e.run_id) {\n"
    <> ("        if self.released.contains(&id) {\n" <> "        if e.needs_approval {\n")

-- The exhaustive harness takes only the text itself, and the concurrent one every text.
abbrev green : Harness → String → Bool
green h s = elim h [ exhaustive ↦ s == submit_lines | loom ↦ true ]

main-status_example :
    ((main green true mutations submit_lines ≡ 2) ↔ ¬ All (IsAnchored green submit_lines) mutations)
    × ((main green true mutations submit_lines ≡ 3)
        ↔ (All (IsAnchored green submit_lines) mutations × (green exhaustive submit_lines ≡ false)))
    × ((main green true mutations submit_lines ≡ 0) ↔ (
        All (IsAnchored green submit_lines) mutations
        × (green exhaustive submit_lines ≡ true)
        × All (λ m. passes green submit_lines true m ≡ true) mutations))
main-status_example = main-status green submit_lines true mutations

no_comment : count submit_lines dedup_comment ≡ 0
unfolding count count_from starts_with size
no_comment = refl

drifted : main green true mutations submit_lines ≡ 2
drifted = main-drifted green submit_lines no_comment true

-- A list of two mutants that are anchored and caught.
abbrev flip : Mutation
flip = record { name = "flip"; prop = "P1"; harness = exhaustive; old = "a && b"; new = "a || b" }

abbrev race : Mutation
race = record { name = "race"; prop = "P4"; harness = loom; old = "c"; new = "d" }

abbrev picky : Harness → String → Bool
picky h s = elim h [ exhaustive ↦ s == "a && b; c" || s == "a && b; d" | loom ↦ s == "a && b; c" ]

caught : main picky true (flip ∷ race ∷ []) "a && b; c" ≡ 0
unfolding main count count_from starts_with size replace replace_from phase1 phase2 any
caught = refl
