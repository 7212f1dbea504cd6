-- ===== src/Exposure/Mock/Plans.antt =====
-- What the runs with the mock provider record.
use soundgate_paper.Prelude.{
  ℕ, suc, ◌%◌, String, ◌<>◌, str, ◌≡◌, refl, ap, ◌∙◌, inl, inr, true, false, some, List, [], ◌∷◌,
  arith, contains, nat_beq, count_if, ◌==◌, eq_iff, string_eq, Bool-cases, Option-cases,
}
use soundgate_paper.Exposure.Tasks.{Tool, Task, consequential_tool}
use soundgate_paper.Exposure.Runner.{
  RunRecord, find_tool, payload, results, go_on, after_turn, turns_from, run_one,
}
use soundgate_paper.Exposure.Mock.{
  benign, task_plan, mock_init, planned, numbered, mock_turn, mock, run_mock, planned_record,
}

-- A benign name is a tool's.
benign-found :
    (ts : List Tool) (b : String)
    → contains (benign ts) b ≡ true
    → (u : Tool) × (find_tool ts b ≡ some u)
unfolding benign contains find_tool
benign-found [] b h = cc
benign-found (t ∷ ts) b h = elim (Bool-cases (contains (benign ts) b)) [
  | inl inside ↦ let (u, e) = benign-found ts b inside in (u, rw e refl)
  | inr outside ↦
      let named : (t.name == b) ≡ true = ground (arith, h, outside) in
      elim (Option-cases (find_tool ts b)) [
        | inr (u, later) ↦ (u, rw later refl)
        | inl last ↦ (t, rw (last, named) refl)
      ]
]

results-one :
    (tools : List Tool) (cid b : String) (u : Tool)
    → find_tool tools b ≡ some u
    → results tools ((cid, b) ∷ []) ≡ inr ((cid, b, payload u) ∷ [])
unfolding results
results-one tools cid b u h = rw h refl

module _ (tools : List Tool) (cons b0 b1 : String) (run_idx l : ℕ) (apart0 : (b0 == cons) ≡ false)
    (apart1 : (b1 == cons) ≡ false) (u0 : Tool) (found0 : find_tool tools b0 ≡ some u0) (u1 : Tool)
    (found1 : find_tool tools b1 ≡ some u1) where
  self : (cons == cons) ≡ true
  self = (eq_iff cons cons).1 refl

  follows :
      (k : ℕ)
      → turns_from mock tools cons run_idx
          (suc (suc l))
          (record { plan = task_plan cons b0 b1 k; turn_i = 0 })
          []
        ≡ planned_record cons b0 b1 k
  unfolding turns_from after_turn go_on mock_turn planned numbered task_plan planned_record contains
      count_if
  follows k = elim (Bool-cases (nat_beq k 0)) [
    | inl zeroth ↦ rw (zeroth, self) refl
    | inr not0 ↦ elim (Bool-cases (nat_beq k 1)) [
      | inl first ↦
          rw
            (
              not0,
              first,
              apart0,
              results-one tools ("call_" <> (str 1 <> ("_" <> str 0))) b0 u0 found0,
              self,
            )
            refl
      | inr not1 ↦ elim (Bool-cases (nat_beq k 2)) [
        | inl second ↦ rw (not0, not1, second, self) refl
        | inr not2 ↦
            rw
              (
                not0,
                not1,
                not2,
                apart1,
                results-one tools ("call_" <> (str 1 <> ("_" <> str 0))) b1 u1 found1,
              )
              refl
      ]
    ]
  ]

-- For a task with a consequential tool and two benign ones of other names, and at least two turns, a
-- run with the mock provider records what its number modulo 4 says: the consequential tool with a
-- sibling in the first turn; alone in the second turn; alone in the first turn; or never, with a final
-- answer in the second turn.
pub run_mock-planned_record :
    (t : Task) (cons b0 b1 : String) (bs : List String) (run_idx l : ℕ)
    → consequential_tool t ≡ some cons
    → benign t.tools ≡ b0 ∷ b1 ∷ bs
    → (b0 == cons) ≡ false
    → (b1 == cons) ≡ false
    → run_mock t run_idx (suc (suc l)) ≡ some (cons, planned_record cons b0 b1 (run_idx % 4))
unfolding run_mock mock_init run_one contains
run_mock-planned_record t cons b0 b1 bs run_idx l has_cons has_benign apart0 apart1 =
    let (u0, found0) =
      benign-found t.tools b0
        (ap (λ (ns : List String). contains ns b0) has_benign ∙ ground (arith, eq_iff b0 b0)) in
    let (u1, found1) =
      benign-found t.tools b1
        (ap (λ (ns : List String). contains ns b1) has_benign ∙ ground (arith, eq_iff b1 b1)) in
    let begun : mock_init (consequential_tool t) (benign t.tools) run_idx
        ≡ some (record { plan = task_plan cons b0 b1 (run_idx % 4); turn_i = 0 }) =
      rw (has_cons, has_benign) refl in
    rw (begun, run_mock, has_cons)
      (ap (λ (r : RunRecord). some (cons, r))
        (follows t.tools cons b0 b1 run_idx l apart0 apart1 u0 found0 u1 found1 (run_idx % 4)))
