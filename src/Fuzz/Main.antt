-- ===== src/Fuzz/Main.antt =====
-- soundgate/scripts/fuzz_boundary.py, `main`: the classes of inputs one after another, each followed
-- by a look at the server, a ping and the canaries. What the socket gave for each malformed input,
-- and the requests that the server took from those inputs or from others meanwhile, are data.
use soundgate_paper.Prelude.{
  ℕ, ◌+◌, String, ◌<>◌, Bool, List, [], ◌∷◌, ◌++◌, ◌==◌, string_eq, if◌then◌else◌,
}
use soundgate_paper.Wire.{Request, verdict, ping, Server}
use soundgate_paper.Fuzz.Socket.{Raw}
use soundgate_paper.Fuzz.Campaign.{
  Failure, Counts, no_counts, batch, Case, run_G, ask, plant_canaries, check_canaries,
}
use soundgate_paper.Fuzz.Counting.{inputs}

pub data Batch : Type 0 where
  malformed : String → List Raw → List Request → Batch
  semantic : List Case → Batch

-- A class, and what `srv.poll()` finds after it: the server runs, or its return code.
pub record Stage : Type 0 where
  pub batch : Batch
  pub alive : Bool
  pub returncode : String

-- A failed assertion ends the program; else the counts of each class and the failures are left.
pub data Outcome : Type 0 where
  crashed : Outcome
  finished : List (String × Counts) → List Failure → Outcome

module _ (S : Server) where
  unfoldable pub absorb : List Request → S.State → S.State
  absorb [] s = s
  absorb (q ∷ qs) s = absorb qs (S.call s q).0

  abbrev pub class_name : Batch → String
  class_name (malformed name raws taken) = name
  class_name (semantic cases) = "G"

  unfoldable pub run_batch : Batch → S.State → List Failure → S.State × Counts × List Failure
  unfolding absorb batch run_G
  run_batch (malformed name raws taken) s fs =
      let (c, fs') = batch name raws (no_counts, fs) in (absorb taken s, c, fs')
  run_batch (semantic cases) s fs =
      let (s', replies, fs') = run_G S cases s 0 fs in
      (s', record no_counts { reply = replies }, fs')

  unfoldable pub campaign : List Stage → S.State → List (String × Counts) → List Failure → Outcome
  unfolding run_batch check_canaries verdict
  campaign [] s stats fs = finished stats fs
  campaign (st ∷ sts) s stats fs =
      let name = class_name st.batch in
      let (s1, c, fs1) = run_batch st.batch s fs in
      let stats1 = stats ++ (name, c) ∷ [] in
      let (s2, pong) = ask S s1 ping in
      let (s3, fs3) = check_canaries S ("after class " <> name) s2 fs1 in
      let rest = campaign sts s3 stats1 fs3 in
      if st.alive
      then if pong == "pong" then rest else crashed
      else finished stats1 (
          fs1
          ++ record {
            oracle = "O3";
            what = "server died during class " <> name;
            seen = st.returncode ∷ [];
          }
            ∷ [])

  unfoldable pub main : List Stage → S.State → Outcome
  unfolding campaign plant_canaries verdict
  main stages s =
      let (s1, pong) = ask S s ping in
      let (s2, planted) = plant_canaries S s1 in
      if pong == "pong" then if planted then campaign stages s2 [] [] else crashed else crashed

unfoldable pub total : List (String × Counts) → ℕ
total [] = 0
total ((name, c) ∷ stats) = inputs c + total stats

-- The status that `main` returns; a failed assertion is a traceback, with status 1.
unfoldable pub status : Outcome → ℕ
status crashed = 1
status (finished stats []) = 0
status (finished stats (f ∷ fs)) = 1
