-- ===== src/Fuzz/Campaign.antt =====
-- soundgate/scripts/fuzz_boundary.py, `run_G`, the canaries and `main`: the campaign on a server.
use soundgate_paper.Prelude.{
  ℕ, ◌+◌, String, ◌<>◌, Bool, true, false, not, ◌&&◌, ◌||◌, Option, none, some, List, [], ◌∷◌, ◌++◌,
  ◌==◌, contains, string_eq, if◌then◌else◌,
}
use soundgate_paper.Wire.{Request, verdict, submit, decide, cancel, Server}
use soundgate_paper.Fuzz.Socket.{Raw, reply, closed_raw, timeout, sent}

-- An entry of `failures`: the class or the oracle, what failed, and the verdicts seen.
pub record Failure : Type 0 where
  pub oracle : String
  pub what : String
  pub seen : List String

-- The counts of a class.
pub record Counts : Type 0 where
  pub reply : ℕ
  pub closed : ℕ
  pub timeout : ℕ
  pub sent : ℕ
  pub error : ℕ
  pub fail_open : ℕ

abbrev pub no_counts : Counts
no_counts = record { reply = 0; closed = 0; timeout = 0; sent = 0; error = 0; fail_open = 0 }

unfoldable pub is_fail_open : String → Bool
is_fail_open v = contains ("release" ∷ "held_for_approval" ∷ []) v

-- `stats[cls][kind] += 1`
unfoldable pub count_kind : Raw → Counts → Counts
count_kind (reply v) c = record c { reply = c.reply + 1 }
count_kind closed_raw c = record c { closed = c.closed + 1 }
count_kind timeout c = record c { timeout = c.timeout + 1 }
count_kind sent c = record c { sent = c.sent + 1 }

abbrev pub verdict_in : Raw → Option String
verdict_in (reply v) = v
verdict_in closed_raw = none
verdict_in timeout = none
verdict_in sent = none

-- The oracle O1 on one malformed input.
abbrev pub judge : String → Option String → Counts × List Failure → Counts × List Failure
judge cls none r = r
judge cls (some v) (c, fs) =
    let c1 = if v == "error" then record c { error = c.error + 1 } else c in
    if is_fail_open v
    then (
      record c1 { fail_open = c1.fail_open + 1 },
      fs
          ++ record { oracle = cls; what = "FAIL-OPEN verdict on malformed input"; seen = v ∷ [] }
            ∷ [],
    )
    else (c1, fs)

unfoldable pub batch : String → List Raw → Counts × List Failure → Counts × List Failure
unfolding count_kind is_fail_open
batch cls [] r = r
batch cls (raw ∷ raws) (c, fs) = batch cls raws (judge cls (verdict_in raw) (count_kind raw c, fs))

-- The four kinds of case in `run_G`.
pub data Kind : Type 0 where
  decide_unknown approve_cancelled double_decide submit_cancelled : Kind

pub record Case : Type 0 where
  pub kind : Kind
  pub rid : String
  pub key : String

module _ (S : Server) where
  -- `rt_valid(...)["verdict"]`
  abbrev pub ask : S.State → Request → S.State × String
  ask s q = let (s', r) = S.call s q in (s', verdict r)

  abbrev failed : Bool → String → String → List String → List Failure → List Failure
  failed bad oracle what seen fs =
      if bad then fs ++ record { oracle = oracle; what = what; seen = seen } ∷ [] else fs

  unfoldable pub run_case :
      Kind → String → String → S.State → S.State × ℕ × (List Failure → List Failure)
  unfolding verdict is_fail_open
  run_case decide_unknown rid key s =
      let (s1, v) = ask s (decide rid key true none) in
      (s1, 1, failed (is_fail_open v) "G" "decide-unknown released" (v ∷ []))
  run_case approve_cancelled rid key s =
      let (s1, v0) = ask s (submit rid key true) in
      let (s2, v1) = ask s1 (cancel rid) in
      let (s3, v) = ask s2 (decide rid key true none) in
      (
        s3,
        3,
        failed (not (v == "refused_cancelled")) "G" "approve-after-cancel not fenced" (v ∷ []),
      )
  run_case double_decide rid key s =
      let (s1, v0) = ask s (submit rid key true) in
      let (s2, v1) = ask s1 (decide rid key true none) in
      let (s3, v2) = ask s2 (decide rid key true none) in
      (
        s3,
        3,
        failed (not (v1 == "release") || v2 == "release") "G" "double-decide anomaly"
            (v1 ∷ v2 ∷ []),
      )
  run_case submit_cancelled rid key s =
      let (s1, v0) = ask s (cancel rid) in
      let (s2, v) = ask s1 (submit rid key false) in
      (s2, 2, failed (not (v == "refused_cancelled")) "G" "post-cancel submit not fenced" (v ∷ []))

  -- The server, the replies counted and the failures, after the cases drawn.
  unfoldable pub run_G : List Case → S.State → ℕ → List Failure → S.State × ℕ × List Failure
  unfolding run_case
  run_G [] s replies fs = (s, replies, fs)
  run_G (c ∷ cs) s replies fs =
      let (s', n, add) = run_case c.kind c.rid c.key s in run_G cs s' (replies + n) (add fs)

  abbrev pub can_run : String
  can_run = "canary_run"

  abbrev pub held_key : String
  held_key = "held_key"

  abbrev pub rel_key : String
  rel_key = "released_key"

  abbrev pub fenced_run : String
  fenced_run = "fenced_run"

  -- The server after `plant_canaries`, and whether its three assertions held.
  unfoldable pub plant_canaries : S.State → S.State × Bool
  unfolding verdict
  plant_canaries s =
      let (s1, v1) = ask s (submit can_run held_key true) in
      let (s2, v2) = ask s1 (submit can_run rel_key false) in
      let (s3, v3) = ask s2 (cancel fenced_run) in
      (s3, v1 == "held_for_approval" && (v2 == "release" && v3 == "ack"))

  unfoldable pub check_canaries : String → S.State → List Failure → S.State × List Failure
  unfolding verdict
  check_canaries at s fs =
      let (s1, v1) = ask s (submit can_run held_key true) in
      let (s2, v2) = ask s1 (submit can_run rel_key false) in
      let (s3, v3) = ask s2 (submit fenced_run "any" false) in
      (
        s3,
        failed (not (v3 == "refused_cancelled")) "O2" (at <> ": fence lost") (v3 ∷ []) (
            failed (not (v2 == "refused_duplicate")) "O2"
              (at <> ": released canary not deduplicating") (v2 ∷ [])
              (failed (not (v1 == "held_for_approval")) "O2" (at <> ": held canary state mutated")
                (v1 ∷ []) fs)),
      )
