-- ===== src/MutationScore/Run.antt =====
-- soundgate/scripts/mutation_score.py, `MUTATIONS` and `main`. A harness is green or not on the text of
-- lib.rs; what it finds there is a parameter, and a run that is broken off is not modelled.
use soundgate_paper.Prelude.{
  ℕ, ◌+◌, String, ◌<>◌, Bool, true, false, not, List, [], ◌∷◌, ◌++◌, length, count_if, any, nat_beq,
  if◌then◌else◌,
}
use soundgate_paper.MutationScore.Text.{count, replace}

pub data Harness : Type 0 where
  exhaustive loom : Harness

pub record Mutation : Type 0 where
  pub name : String
  pub prop : String
  pub harness : Harness
  pub old : String
  pub new : String

abbrev pub is_exhaustive : Mutation → Bool
is_exhaustive m = elim m.harness [ exhaustive ↦ true | loom ↦ false ]

abbrev pub mutations : List Mutation
mutations =
    record {
      name = "verdict_flip";
      prop = "P1/P2 hold-until-decided / reject-cancels";
      harness = exhaustive;
      old =
          ("        if approved {\n"
            <> ("            self.released.insert(id);\n"
                <> ("            Admission::Release\n"
                    <> ("        } else {\n"
                        <> ("            self.rejected.insert(id);\n"
                            <> ("            Admission::RefusedRejected\n" <> "        }"))))));
      new =
          ("        if approved {\n"
            <> ("            self.rejected.insert(id);\n"
                <> ("            Admission::RefusedRejected\n"
                    <> ("        } else {\n"
                        <> ("            self.released.insert(id);\n"
                            <> ("            Admission::Release\n" <> "        }"))))));
    }
    ∷ record {
      name = "dedup_negate";
      prop = "P3 dedup-on-replay";
      harness = exhaustive;
      old =
          ("        // Property 3: never release the same logical effect twice.\n"
            <> "        if self.released.contains(&id) {");
      new =
          ("        // Property 3: never release the same logical effect twice.\n"
            <> "        if !self.released.contains(&id) {");
    }
    ∷ record {
      name = "submit_fence_or_to_and";
      prop = "P4 fence-on-cancel (submit path)";
      harness = exhaustive;
      old = "        if self.cancelled.contains(&e.run_id) || self.closed.contains(&e.run_id) {";
      new = "        if self.cancelled.contains(&e.run_id) && self.closed.contains(&e.run_id) {";
    }
    ∷ record {
      name = "hold_negate";
      prop = "P1 hold-until-decided (approval gating)";
      harness = exhaustive;
      old = "        if e.needs_approval {";
      new = "        if !e.needs_approval {";
    }
    ∷ record {
      name = "decide_fence_or_to_and";
      prop = "P4 fence-on-cancel (decide-after-hold race)";
      harness = loom;
      old =
          "        if self.cancelled.contains(&effect.run_id) || self.closed.contains(&effect.run_id) {";
      new =
          "        if self.cancelled.contains(&effect.run_id) && self.closed.contains(&effect.run_id) {";
    }
    ∷ []

-- What `main` keeps of its runs: lib.rs, and its counters and lists.
pub record Score : Type 0 where
  pub lib : String
  pub exh_caught : ℕ
  pub survivors : List Mutation
  pub loom_total : ℕ
  pub loom_caught : ℕ

abbrev pub fresh_score : String → Score
fresh_score src = record {
  lib = src;
  exh_caught = 0;
  survivors = [];
  loom_total = 0;
  loom_caught = 0;
}

module _ (green : Harness → String → Bool) where
  -- A turn of the first phase.
  abbrev pub turn : String → Mutation → Score → Score
  turn src m sc =
      let mutated = record sc { lib = replace src m.old m.new } in
      let caught = not (green exhaustive mutated.lib) in
      let restored = record mutated { lib = src } in
      let counted =
        if is_exhaustive m
        then record restored { exh_caught = restored.exh_caught + (if caught then 1 else 0) }
        else restored in
      if caught then counted else record counted { survivors = counted.survivors ++ m ∷ [] }

  unfoldable pub phase1 : String → List Mutation → Score → Score
  phase1 src [] sc = sc
  phase1 src (m ∷ ms) sc = phase1 src ms (turn src m sc)

  -- The loop of the second phase, over the survivors.
  unfoldable pub phase2 : String → List Mutation → Score → Score
  unfolding replace
  phase2 src [] sc = sc
  phase2 src (m ∷ ms) sc =
      let mutated = record sc { lib = replace src m.old m.new; loom_total = sc.loom_total + 1 } in
      let caught = not (green loom mutated.lib) in
      phase2 src ms (record mutated {
        lib = src;
        loom_caught = mutated.loom_caught + (if caught then 1 else 0);
      })

  -- `main`, for the given list in place of MUTATIONS: its status. Whatever it is, `finally` leaves
  -- lib.rs as it was.
  unfoldable pub main : Bool → List Mutation → String → ℕ
  unfolding phase1 phase2 count
  main with_loom ms src =
      if any (λ m. not (nat_beq (count src m.old) 1)) ms
      then 2
      else if not (green exhaustive src)
      then 3
      else (let sc1 = phase1 src ms (fresh_score src) in
          let sc2 = if with_loom then phase2 src sc1.survivors sc1 else sc1 in
          let done =
            if with_loom
            then nat_beq (sc2.exh_caught + sc2.loom_caught) (length ms)
            else nat_beq sc2.exh_caught (count_if is_exhaustive ms) in
          if done then 0 else 1)
