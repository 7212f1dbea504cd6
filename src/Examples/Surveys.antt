-- ===== src/Examples/Surveys.antt =====
-- The theorems on the tools of the incident corpus, at small answers of GitHub.
use soundgate_paper.Prelude.{
  not, ◌&&◌, ℕ, ◌≤◌, ◌≡◌, String, false, none, some, List, [], ◌∷◌, map, length, count_if, contains,
  ltb, ◌==◌, string_eq, nat_eq, pair_eq, if◌then◌else◌,
}
use soundgate_paper.Corpus.Incident.{Incident}
use soundgate_paper.Corpus.Early.{incident_1}
use soundgate_paper.Corpus.Late.{incident_20}
use soundgate_paper.Corpus.Enrich.{Answer, Enriched, enrich}
use soundgate_paper.Corpus.Enrich.Counts.{asked, has_issue, enrich-Totals}
use soundgate_paper.Corpus.Sweep as Sweep
use soundgate_paper.Corpus.Sweep.{Item, Search, Hit, run_chunk, pairs}
use soundgate_paper.Corpus.Sweep.Complete as Complete
use soundgate_paper.Corpus.Sweep.Complete.{answered, sweep-Complete}
use soundgate_paper.Corpus.Classify.{
  Candidate, IssueKey, Response, opened, http_error, issue, queue, document,
}
use soundgate_paper.Corpus.Classify.Entries.{occurs, candidates, queue_once}
use soundgate_paper.Corpus.Classify.Recount.{direct, grep_count, set_verdicts, recount-overcounts}

abbrev item : ℕ → Item
item n = record {
  number = n;
  state = some "open";
  created_at = none;
  title = some "resume";
  labels = [];
  html_url = none;
}

-- Some searches answer, and some fail.
abbrev search : Search
search repo words =
    if ltb 0 (count_if (λ (r : String). r == repo) Sweep.repos)
    then some (item 7 ∷ item 8 ∷ item 7 ∷ [])
    else none

abbrev hit : Hit
hit = record { repo = "crewAIInc/crewAI"; axis_hint = "A3"; query = "cancel"; item = item 5 }

sweep-Complete_example :
    Complete.occurs
      ("crewAIInc/crewAI", ("A3", ("cancel", 5)))
      (run_chunk 2 search (run_chunk 1 search (hit ∷ [])))
    ≡ (if ltb 0 (Complete.occurs ("crewAIInc/crewAI", ("A3", ("cancel", 5))) (hit ∷ []))
        then Complete.occurs ("crewAIInc/crewAI", ("A3", ("cancel", 5))) (hit ∷ [])
        else if answered search pairs ("crewAIInc/crewAI", ("A3", ("cancel", 5)))
        then 1
        else 0)
sweep-Complete_example =
    sweep-Complete search (hit ∷ []) ("crewAIInc/crewAI", ("A3", ("cancel", 5)))

abbrev same_text : String → String
same_text s = s

abbrev candidate : ℕ → Candidate
candidate n = record {
  repo = "a/b";
  number = n;
  html_url = "https://github.com/a/b/issues";
  title = "resume runs twice";
  axis_hint = "A2";
  state = "open";
}

-- The first issue opens, and for the second no calls are left.
abbrev github : IssueKey → Response
github (repo, n) =
    if n == 1
    then opened (record { body = some "twice"; state = none }) (some 9)
    else http_error 403 "rate limit"

abbrev swept : List Candidate
swept = candidate 1 ∷ candidate 2 ∷ candidate 1 ∷ []

queue_once_example :
    (occurs ("a/b", 1) (candidates same_text github (queue same_text github swept)) ≤ 1)
    × ((queue same_text github swept).stopped ≡ false
        → occurs ("a/b", 1) (candidates same_text github (queue same_text github swept))
          ≡ (if contains (map issue swept) ("a/b", 1) then 1 else 0))
queue_once_example = queue_once same_text github swept ("a/b", 1)

recount-overcounts_example :
    length (queue same_text github swept).entries
    ≤ grep_count direct
        (set_verdicts ("context" ∷ []) (document same_text github same_text "sweep.jsonl" swept))
recount-overcounts_example =
    recount-overcounts same_text same_text github "sweep.jsonl" swept ("context" ∷ []) direct

abbrev gone : String → ℕ → Answer
gone slug n = Answer.http_error 404

abbrev two : List Incident
two = incident_1 ∷ incident_20 ∷ []

enrich-Totals_example :
    (map (λ (e : Enriched). e.incident) (enrich same_text gone two).rows ≡ two)
    × ((enrich same_text gone two).n_ok ≡ count_if (λ rec. asked rec && has_issue gone rec) two)
    × ((enrich same_text gone two).n_skip ≡ count_if (λ rec. not (asked rec)) two)
    × ((enrich same_text gone two).n_fail
        ≡ count_if (λ rec. asked rec && not (has_issue gone rec)) two)
enrich-Totals_example = enrich-Totals same_text gone two
