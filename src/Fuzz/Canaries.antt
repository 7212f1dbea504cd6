-- ===== src/Fuzz/Canaries.antt =====
-- The canaries of the fuzzer on the gate server: planted, they stay as they are through any requests
-- of other runs.
use soundgate_paper.Prelude.{
  ℕ, String, ◌≡◌, refl, ap, ◌∙◌, Bool, true, false, List, string_eq, pair_eq,
}
use soundgate_paper.Wire.{Request, verdict, submit, cancel}
use soundgate_paper.Gate.Phase.{Phase, fresh, held, done, fenced, phase, submit_verdict}
use soundgate_paper.Node.Defs.{Node, from_admission, handle, answer}
use soundgate_paper.Node.Invariant.{IsDurable, handle-IsDurable}
use soundgate_paper.Node.Rebuilds.{request_next, accepted}
use soundgate_paper.Node.Phases.{open_door, phase-handle, handle-submit}
use soundgate_paper.Fuzz.Campaign.{Failure, plant_canaries, check_canaries}
use soundgate_paper.Fuzz.Semantic.{gate, step}

module _ (threshold : ℕ) where
  -- The canaries as they are meant to be.
  pub record Planted (n : Node) : Type 0 where
    pub durable : IsDurable n
    pub held_canary : phase n.gate ("canary_run", "held_key") ≡ held
    pub released_canary : phase n.gate ("canary_run", "released_key") ≡ done
    pub fenced_canary : phase n.gate ("fenced_run", "any") ≡ fenced

  next :
      (q : Request) (n : Node) (i : String × String) (p r : Phase)
      → IsDurable n
      → phase n.gate i ≡ p
      → request_next (accepted open_door q) q i p ≡ r
      → phase (step threshold q n).gate i ≡ r
  next q n i p r d h e =
      phase-handle open_door threshold n q i d ∙ ap (request_next (accepted open_door q) q i) h ∙ e

  says :
      (run key : String) (needs : Bool) (n : Node) (p : Phase)
      → IsDurable n
      → phase n.gate (run, key) ≡ p
      → verdict (handle open_door threshold n (submit run key needs)).1
        ≡ verdict (from_admission (submit_verdict p needs))
  says run key needs n p d h =
      ap verdict (handle-submit threshold n d run key needs)
      ∙ ap (λ q. verdict (from_admission (submit_verdict q needs))) h

  -- On a durable gate that has not seen the canaries, all three assertions of `plant_canaries` hold,
  -- and the canaries are planted.
  pub plant_canaries-Planted :
      (n : Node)
      → IsDurable n
      → phase n.gate ("canary_run", "held_key") ≡ fresh
      → phase n.gate ("canary_run", "released_key") ≡ fresh
      → ((plant_canaries (gate threshold) n).1 ≡ true)
        × Planted (plant_canaries (gate threshold) n).0
  unfolding plant_canaries verdict handle answer
  plant_canaries-Planted n d h r =
      let q1 : Request = submit "canary_run" "held_key" true in
      let q2 : Request = submit "canary_run" "released_key" false in
      let q3 : Request = cancel "fenced_run" in
      let n1 = step threshold q1 n in
      let d1 = handle-IsDurable open_door threshold n q1 d in
      let h1 = next q1 n ("canary_run", "held_key") fresh held d h refl in
      let r1 = next q1 n ("canary_run", "released_key") fresh fresh d r refl in
      let n2 = step threshold q2 n1 in
      let d2 = handle-IsDurable open_door threshold n1 q2 d1 in
      let h2 = next q2 n1 ("canary_run", "held_key") held held d1 h1 refl in
      let r2 = next q2 n1 ("canary_run", "released_key") fresh done d1 r1 refl in
      (
        rw
            (
              says "canary_run" "released_key" false n1 fresh d1 r1,
              says "canary_run" "held_key" true n fresh d h,
            )
            refl,
        record {
          durable = handle-IsDurable open_door threshold n2 q3 d2;
          held_canary = next q3 n2 ("canary_run", "held_key") held held d2 h2 refl;
          released_canary = next q3 n2 ("canary_run", "released_key") done done d2 r2 refl;
          fenced_canary = next q3 n2 ("fenced_run", "any") _ fenced d2 refl refl;
        },
      )

  -- Planted canaries pass the check, and it leaves them planted.
  pub check_canaries-Planted :
      (at : String) (n : Node) (fs : List Failure)
      → Planted n
      → let (n', fs') = check_canaries (gate threshold) at n fs in Planted n' × (fs' ≡ fs)
  unfolding check_canaries verdict
  check_canaries-Planted at n fs p =
      let q1 : Request = submit "canary_run" "held_key" true in
      let q2 : Request = submit "canary_run" "released_key" false in
      let q3 : Request = submit "fenced_run" "any" false in
      let n1 = step threshold q1 n in
      let d1 = handle-IsDurable open_door threshold n q1 p.durable in
      let n2 = step threshold q2 n1 in
      let d2 = handle-IsDurable open_door threshold n1 q2 d1 in
      let h1 = next q1 n ("canary_run", "held_key") held held p.durable p.held_canary refl in
      let r1 =
        next q1 n ("canary_run", "released_key") done done p.durable p.released_canary refl in
      let f1 = next q1 n ("fenced_run", "any") fenced fenced p.durable p.fenced_canary refl in
      let h2 = next q2 n1 ("canary_run", "held_key") held held d1 h1 refl in
      let r2 = next q2 n1 ("canary_run", "released_key") done done d1 r1 refl in
      let f2 = next q2 n1 ("fenced_run", "any") fenced fenced d1 f1 refl in
      (
        record {
          durable = handle-IsDurable open_door threshold n2 q3 d2;
          held_canary = next q3 n2 ("canary_run", "held_key") held held d2 h2 refl;
          released_canary = next q3 n2 ("canary_run", "released_key") done done d2 r2 refl;
          fenced_canary = next q3 n2 ("fenced_run", "any") fenced fenced d2 f2 refl;
        },
        rw
            (
              says "fenced_run" "any" false n2 fenced d2 f2,
              says "canary_run" "released_key" false n1 done d1 r1,
              says "canary_run" "held_key" true n held p.durable p.held_canary,
            )
            refl,
      )
