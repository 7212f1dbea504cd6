-- ===== src/Corpus/Classify.antt =====
-- corpus/classify_corpus.py: the queue of candidates to classify by hand. What GitHub answers for an
-- issue is data; `str.lower` and `str.strip` are parameters.
pub mod Suggest
pub mod Recount
pub mod Entries
use Prim.Native.String.{[] as nil, ◌∷◌ as cons}
use soundgate_paper.Prelude.{
  str, ℕ, zero, suc, ◌+◌, String, ◌<>◌, Bool, true, false, ◌&&◌, ◌||◌, Option, none, some, List, [],
  ◌∷◌, ◌++◌, map, length, any, contains, insert, ltb, ◌==◌, string_eq, nat_eq, pair_eq,
  if◌then◌else◌,
}
use soundgate_paper.MutationScore.Text.{count, starts_with}

-- `HINTS`
abbrev pub hints : List (String × List String)
hints =
    (
      "A1",
      "during pause" ∷ "while paused" ∷ "parallel" ∷ "sibling" ∷ "await approval" ∷ "lost tool call"
          ∷ "loses tool call" ∷ "batch" ∷ [],
    )
    ∷ (
      "A2",
      "resume" ∷ "restart" ∷ "re-execute" ∷ "re-run" ∷ "twice" ∷ "duplicate"
          ∷ "again from the beginning" ∷ "idempoten" ∷ [],
    )
    ∷ ("A3", "cancel" ∷ "stop" ∷ "abort" ∷ "orphan" ∷ "still running" ∷ "not propagate" ∷ [])
    ∷ ("A4", "timeout" ∷ "deadline" ∷ "zombie" ∷ "after the timeout" ∷ [])
    ∷ []

abbrev pub failure_words : List String
failure_words =
    "during the pause" ∷ "while paused" ∷ "executed twice" ∷ "duplicate payment" ∷ "duplicate email"
    ∷ "still ran" ∷ "landed after" ∷ "after cancel" ∷ "after the timeout" ∷ []

-- `w in t`
unfoldable pub holds : String → String → Bool
unfolding starts_with
holds nil w = starts_with w nil
holds (cons c t) w = starts_with w (cons c t) || holds t w

unfoldable pub score : String → List String → ℕ
score t [] = 0
score t (k ∷ kws) = count t k + score t kws

unfoldable pub scores : String → List (String × ℕ)
unfolding score
scores t = map (λ (h : String × List String). (h.0, score t h.1)) hints

-- `max(scores, key=scores.get)`: the first of the largest.
unfoldable pub best : String × ℕ → List (String × ℕ) → String × ℕ
best top [] = top
best top (s ∷ rest) = best (if ltb top.1 s.1 then s else top) rest

unfoldable pub top_axis : List (String × ℕ) → String → String
unfolding best
top_axis [] axis_hint = axis_hint
top_axis (s ∷ rest) axis_hint =
    if any (λ (x : String × ℕ). ltb 0 x.1) (s ∷ rest) then (best s rest).0 else axis_hint

-- A record of the sweep; a field that it lacks has the default that the program gives it.
pub record Candidate : Type 0 where
  pub repo : String
  pub number : ℕ
  pub html_url : String
  pub title : String
  pub axis_hint : String
  pub state : String

abbrev pub IssueKey : Type 0
IssueKey = String × ℕ

abbrev pub issue : Candidate → IssueKey
issue r = (r.repo, r.number)

unfoldable pub unique_from : List IssueKey → List Candidate → List Candidate
unique_from seen [] = []
unique_from seen (r ∷ rows) =
    let old = contains seen (issue r) in
    let rest = unique_from (if old then seen else insert (issue r) seen) rows in
    if old then rest else r ∷ rest

unfoldable pub unique : List Candidate → List Candidate
unfolding unique_from
unique rows = unique_from [] rows

-- An issue as GitHub has it, and what a request comes to. The header of the calls that are left is a
-- number, or none where it is absent or has other characters than digits.
pub record Page : Type 0 where
  pub body : Option String
  pub state : Option String

pub data Response : Type 0 where
  opened : Page → Option ℕ → Response
  http_error : ℕ → String → Response
  broken : String → Response

pub data Fetched : Type 0 where
  page : Page → Fetched
  failed : String → Fetched
  rate_limited : Fetched

module _ (lower : String → String) where
  unfoldable pub suggest : String → String → String × String
  unfolding scores top_axis holds
  suggest text axis_hint =
      let t = lower text in
      (
        top_axis (scores t) axis_hint,
        if any (holds t) failure_words then "direct?" else "adjacent/context?",
      )

  unfoldable pub fetch : Response → Fetched × Option ℕ
  unfolding holds
  fetch (opened p remaining) = (page p, remaining)
  fetch (http_error code text) =
      if code == 403 && holds (lower text) "rate limit"
      then (rate_limited, some 0)
      else (failed ("HTTP " <> str code), none)
  fetch (broken text) = (failed text, none)

-- `s[:n]`, and `s.replace(chr(10), ' ')`.
unfoldable pub first : ℕ → String → String
first zero s = nil
first (suc n) nil = nil
first (suc n) (cons c s) = cons c (first n s)

unfoldable pub one_line : String → String
one_line nil = nil
one_line (cons c s) = if cons c nil == "\n" then " " <> one_line s else cons c (one_line s)

-- What the loop finds for the candidate with number `i`.
pub record Entry : Type 0 where
  pub i : ℕ
  pub candidate : Candidate
  pub body : String
  pub state : String
  pub axis : String
  pub suggestion : String

pub record Queue : Type 0 where
  pub entries : List Entry
  pub stopped : Bool

abbrev or_text : Option String → String → String
or_text none s = s
or_text (some t) s = t

-- Body and state.
unfoldable pub shown : Candidate → Fetched → String × String
unfolding first
shown r (page p) = (first 1500 (or_text p.body ""), or_text p.state r.state)
shown r (failed error) =
    ("[body unavailable: " <> (error <> " -- read the page manually]"), r.state)
shown r rate_limited = ("[body unavailable: rate-limited -- read the page manually]", r.state)

abbrev pub out_of_calls : Option ℕ → Bool
out_of_calls none = false
out_of_calls (some n) = ltb n 2

abbrev pub verdict_line : String
verdict_line = "**VERDICT:** `UNSET`   <!-- set to: direct | adjacent | context -->"

module _ (strip : String → String) where
  unfoldable pub entry_lines : Entry → List String
  unfolding first one_line
  entry_lines e =
      let r = e.candidate in
      ("## "
        <> (str e.i
            <> (". ["
                <> (r.repo
                    <> ("#"
                        <> (str r.number
                            <> ("]("
                                <> (r.html_url
                                    <> (")  axis_hint="
                                        <> (r.axis_hint
                                            <> (" suggest="
                                                <> (e.axis <> (" state=" <> e.state)))))))))))))
      ∷ ("**" <> (r.title <> "**"))
      ∷ ""
      ∷ ("> " <> one_line (first 700 (strip e.body)))
      ∷ ""
      ∷ ("suggestion: **" <> (e.suggestion <> "**   (heuristic only)"))
      ∷ ""
      ∷ verdict_line
      ∷ "**why:** "
      ∷ ""
      ∷ "---"
      ∷ []

  unfoldable pub all_lines : List Entry → List String
  unfolding entry_lines
  all_lines [] = []
  all_lines (e ∷ es) = entry_lines e ++ all_lines es

module _ (lower : String → String) (github : IssueKey → Response) where
  unfoldable pub entry_of : ℕ → Candidate → Fetched → Entry
  unfolding shown suggest
  entry_of i r fetched =
      let (body, state) = shown r fetched in
      let (ax, sug) = suggest lower (r.title <> (" " <> body)) r.axis_hint in
      record { i = i; candidate = r; body = body; state = state; axis = ax; suggestion = sug }

  unfoldable pub queue_from : ℕ → List Candidate → Queue
  unfolding entry_of fetch
  queue_from i [] = record { entries = []; stopped = false }
  queue_from i (r ∷ uniq) =
      let (fetched, remaining) = fetch lower (github (issue r)) in
      let rest = queue_from (i + 1) uniq in
      if out_of_calls remaining
      then record { entries = entry_of i r fetched ∷ []; stopped = true }
      else record { entries = entry_of i r fetched ∷ rest.entries; stopped = rest.stopped }

  unfoldable pub queue : List Candidate → Queue
  unfolding queue_from unique
  queue rows = queue_from 1 (unique rows)

  -- What is written, its texts joined by line ends.
  unfoldable pub document : (String → String) → String → List Candidate → List String
  unfolding all_lines queue
  document strip sweep rows =
      let q = queue rows in
      "# Corpus classification queue -- SET EVERY VERDICT BY HAND"
      ∷ ""
      ∷ ("Generated from "
          <> (sweep
              <> ". Rubric in the script header. Suggestions are heuristic and NOT authoritative; the paper's direct/adjacent/context counts update only after you confirm each."))
      ∷ ""
      ∷ (all_lines strip q.entries
          ++ (if q.stopped
              then ("\n<!-- stopped at "
                  <> (str (length q.entries)
                      <> ("/"
                          <> (str (length (unique rows))
                              <> ": rate limit. Re-run with GITHUB_TOKEN to continue. -->"))))
                ∷ []
              else []))
