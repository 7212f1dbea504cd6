-- ===== src/Fuzz/Passes.antt =====
-- A whole campaign of the fuzzer on the gate server.
use soundgate_paper.Prelude.{
  ℕ, String, ◌<>◌, ◌≡◌, refl, ◌∙◌, true, false, List, [], ◌∷◌, ◌++◌, arith, All, ◌==◌, string_eq,
  pair_eq, eq_iff, count_if,
}
use soundgate_paper.Wire.{Request, submit, cancel, ping, verdict}
use soundgate_paper.Gate.Phase.{fresh, phase}
use soundgate_paper.Node.Defs.{Node, handle, answer}
use soundgate_paper.Node.Invariant.{IsDurable, handle-IsDurable}
use soundgate_paper.Node.Phases.{open_door}
use soundgate_paper.Fuzz.Campaign.{
  Failure, Counts, no_counts, Case, run_G, check_canaries, plant_canaries,
}
use soundgate_paper.Fuzz.Counting.{opened}
use soundgate_paper.Fuzz.Semantic.{gate, step, Unseen, after_case, case-Untouched, run_G-clean}
use soundgate_paper.Fuzz.Canaries.{Planted, plant_canaries-Planted, check_canaries-Planted}
use soundgate_paper.Fuzz.Main.{
  Batch, malformed, semantic, Stage, absorb, campaign, main, status, run_batch, class_name,
}
use soundgate_paper.Fuzz.Noise.{batch-clean, Foreign, foreign_step, absorb-Planted, absorb-Unseen}

-- A server that still has the canaries and has not seen the cases to come.
module _ (threshold : ℕ) where
  -- The run of a case is not a canary's.
  abbrev pub IsApart : Case → Type 0
  IsApart c = (("canary_run" == c.rid) ≡ false) × (("fenced_run" == c.rid) ≡ false)

  record Ready (n : Node) (cs : List Case) : Type 0 where
    planted : Planted threshold n
    unseen : Unseen threshold n cs
    apart : All IsApart cs

  abbrev checks : List Request
  checks =
      ping
      ∷ submit "canary_run" "held_key" true
      ∷ submit "canary_run" "released_key" false
      ∷ submit "fenced_run" "any" false
      ∷ []

  checks-Foreign : (cs : List Case) → All IsApart cs → All (λ (c : Case). Foreign c.rid checks) cs
  checks-Foreign [] a = tt
  checks-Foreign (c ∷ cs) a = (
    (refl, (ground (arith, a.0.0), (ground (arith, a.0.0), (ground (arith, a.0.1), tt)))),
    checks-Foreign cs a.1,
  )

  -- Between two classes: a ping and the canaries, which answer as they should.
  between-Ready :
      (at : String) (n : Node) (cs : List Case)
      → Ready n cs
      → (verdict (handle open_door threshold n ping).1 ≡ "pong")
        × Ready (check_canaries (gate threshold) at (step threshold ping n) []).0 cs
        × ((check_canaries (gate threshold) at (step threshold ping n) []).1 ≡ [])
  unfolding check_canaries absorb handle answer verdict
  between-Ready at n cs r =
      let p1 = absorb-Planted threshold (ping ∷ []) n (refl, tt) (refl, tt) r.planted in
      let (p2, same) = check_canaries-Planted threshold at (step threshold ping n) [] p1 in
      (
        refl,
        record {
          planted = p2;
          unseen =
              absorb-Unseen threshold cs checks n (checks-Foreign cs r.apart) r.planted.durable
                r.unseen;
          apart = r.apart;
        },
        same,
      )

  -- A class of malformed inputs that a server answered with no release and no hold, while it took
  -- only requests of runs that are no canary's and no case's.
  abbrev pub IsCalmBatch : List Case → Batch → Type 0
  IsCalmBatch cs (semantic ds) = ⊥
  IsCalmBatch cs (malformed name raws taken) =
      (count_if opened raws ≡ 0)
      × Foreign "canary_run" taken
      × Foreign "fenced_run" taken
      × All (λ (c : Case). Foreign c.rid taken) cs

  abbrev pub IsCalm : List Case → Stage → Type 0
  IsCalm cs st = (st.alive ≡ true) × IsCalmBatch cs st.batch

  calm_batch :
      (cs : List Case) (b : Batch) (n : Node)
      → IsCalmBatch cs b
      → Ready n cs
      → Ready (run_batch (gate threshold) b n []).0 cs
        × ((run_batch (gate threshold) b n []).2 ≡ [])
  unfolding run_batch
  calm_batch cs (semantic ds) n h r = absurd h
  calm_batch cs (malformed name raws taken) n (closed_all, canary, fence, cases) r = (
    record {
      planted = absorb-Planted threshold taken n canary fence r.planted;
      unseen = absorb-Unseen threshold cs taken n cases r.planted.durable r.unseen;
      apart = r.apart;
    },
    batch-clean name raws no_counts [] closed_all,
  )

  -- What follows a class that leaves the server ready and no failure.
  then_next :
      (cs : List Case) (st : Stage) (sts : List Stage) (n : Node) (stats : List (String × Counts))
      → st.alive ≡ true
      → let (n', c, fs) = run_batch (gate threshold) st.batch n [] in
        Ready n' cs
        → fs ≡ []
        → ((n' : Node) (stats' : List (String × Counts))
            → Ready n' cs
            → status (campaign (gate threshold) sts n' stats' []) ≡ 0)
        → status (campaign (gate threshold) (st ∷ sts) n stats []) ≡ 0
  unfolding campaign verdict
  then_next cs st sts n stats alive r clean k =
      let name = class_name (gate threshold) st.batch in
      let (n', c, fs) = run_batch (gate threshold) st.batch n [] in
      let (pong, r', same) = between-Ready ("after class " <> name) n' cs r in
      rw (alive, clean, pong, same) (k _ _ r')

  calm :
      (cs : List Case) (before sts : List Stage) (n : Node) (stats : List (String × Counts))
      → Ready n cs
      → All (IsCalm cs) before
      → ((n' : Node) (stats' : List (String × Counts))
          → Ready n' cs
          → status (campaign (gate threshold) sts n' stats' []) ≡ 0)
      → status (campaign (gate threshold) (before ++ sts) n stats []) ≡ 0
  calm cs [] sts n stats r h k = k n stats r
  calm cs (st ∷ before) sts n stats r h k =
      let (r', clean) = calm_batch cs st.batch n h.0.1 r in
      then_next cs st (before ++ sts) n stats h.0.0 r' clean
        (λ n' stats' r''. calm cs before sts n' stats' r'' h.1 k)

  calm_to_end :
      (sts : List Stage) (n : Node) (stats : List (String × Counts))
      → Ready n []
      → All (IsCalm []) sts
      → status (campaign (gate threshold) sts n stats []) ≡ 0
  unfolding campaign status
  calm_to_end [] n stats r h = refl
  calm_to_end (st ∷ sts) n stats r h =
      let (r', clean) = calm_batch [] st.batch n h.0.1 r in
      then_next [] st sts n stats h.0.0 r' clean
        (λ n' stats' r''. calm_to_end sts n' stats' r'' h.1)

  run_G-Planted :
      (cs : List Case) (n : Node) (replies : ℕ) (fs : List Failure)
      → All IsApart cs
      → Planted threshold n
      → Planted threshold (run_G (gate threshold) cs n replies fs).0
  unfolding run_G
  run_G-Planted [] n replies fs a p = p
  run_G-Planted (c ∷ cs) n replies fs a p =
      let (d, same) = case-Untouched threshold c n p.durable in
      run_G-Planted cs (after_case threshold c n) _ _ a.1 (record {
        durable = d;
        held_canary =
            same ("canary_run", "held_key")
              (ground (arith, a.0.0, eq_iff c.rid "canary_run", eq_iff "canary_run" c.rid))
            ∙ p.held_canary;
        released_canary =
            same ("canary_run", "released_key")
              (ground (arith, a.0.0, eq_iff c.rid "canary_run", eq_iff "canary_run" c.rid))
            ∙ p.released_canary;
        fenced_canary =
            same ("fenced_run", "any")
              (ground (arith, a.0.1, eq_iff c.rid "fenced_run", eq_iff "fenced_run" c.rid))
            ∙ p.fenced_canary;
      })

  -- The semantic class on a server that is ready, and what follows.
  cases_then :
      (cs : List Case) (code : String) (sts : List Stage) (n : Node)
      (stats : List (String × Counts))
      → Ready n cs
      → ((n' : Node) (stats' : List (String × Counts))
          → Ready n' []
          → status (campaign (gate threshold) sts n' stats' []) ≡ 0)
      → status (
          campaign
            (gate threshold)
            (record { batch = semantic cs; alive = true; returncode = code } ∷ sts)
            n
            stats
            [])
        ≡ 0
  unfolding run_batch
  cases_then cs code sts n stats r k =
      then_next [] _ sts n stats refl
        (record { planted = run_G-Planted cs n 0 [] r.apart r.planted; unseen = tt; apart = tt })
        (run_G-clean threshold cs n 0 [] r.planted.durable r.unseen) k

  pong_lem : (n : Node) → verdict (handle open_door threshold n ping).1 ≡ "pong"
  unfolding handle answer verdict
  pong_lem n = refl

  abbrev plants : List Request
  plants =
      ping
      ∷ submit "canary_run" "held_key" true
      ∷ submit "canary_run" "released_key" false
      ∷ cancel "fenced_run"
      ∷ []

  plants-Foreign : (cs : List Case) → All IsApart cs → All (λ (c : Case). Foreign c.rid plants) cs
  plants-Foreign [] a = tt
  plants-Foreign (c ∷ cs) a = (
    (refl, (ground (arith, a.0.0), (ground (arith, a.0.0), (ground (arith, a.0.1), tt)))),
    plants-Foreign cs a.1,
  )

  planted-Unseen :
      (cs : List Case) (n : Node)
      → All IsApart cs
      → IsDurable n
      → Unseen threshold n cs
      → Unseen threshold (plant_canaries (gate threshold) (step threshold ping n)).0 cs
  unfolding plant_canaries absorb
  planted-Unseen cs n a d u = absorb-Unseen threshold cs plants n (plants-Foreign cs a) d u

  -- On a durable gate server without a secret that has seen neither the canaries nor the runs of the
  -- semantic class, which all differ from each other and from the canaries', the whole campaign
  -- returns 0, if the server outlives each class, answers no malformed input with a release or a hold,
  -- and takes meanwhile only requests of runs other than those.
  pub main-passes :
      (before after : List Stage) (cs : List Case) (code : String) (n : Node)
      → IsDurable n
      → phase n.gate ("canary_run", "held_key") ≡ fresh
      → phase n.gate ("canary_run", "released_key") ≡ fresh
      → Unseen threshold n cs
      → All IsApart cs
      → All (IsCalm cs) before
      → All (IsCalm []) after
      → status (
          main
            (gate threshold)
            (before ++ record { batch = semantic cs; alive = true; returncode = code } ∷ after)
            n)
        ≡ 0
  unfolding main
  main-passes before after cs code n d h r u a calm_before calm_after =
      let n1 = step threshold ping n in
      let d1 = handle-IsDurable open_door threshold n ping d in
      let h1 = foreign_step threshold n ping ("canary_run", "held_key") d refl ∙ h in
      let r1 = foreign_step threshold n ping ("canary_run", "released_key") d refl ∙ r in
      let (planted, p) = plant_canaries-Planted threshold n1 d1 h1 r1 in
      let start : Ready (plant_canaries (gate threshold) n1).0 cs = record {
        planted = p;
        unseen = planted-Unseen cs n a d u;
        apart = a;
      } in
      let goal =
        calm cs before (record { batch = semantic cs; alive = true; returncode = code } ∷ after) _
          [] start calm_before
          (λ n' stats' r'.
            cases_then cs code after n' stats' r'
              (λ n'' stats'' r''. calm_to_end after n'' stats'' r'' calm_after)) in
      rw (pong_lem n, planted) goal
