-- ===== src/Corpus/Enrich.antt =====
-- corpus/src/corpus/enrich.py: each incident with what GitHub says of it today. GitHub's answers are data;
-- `str.strip` is a parameter.
pub mod Counts
use Prim.Native.String.{[] as nil, ◌∷◌ as cons}
use soundgate_paper.Prelude.{
  ℕ, ◌+◌, String, Bool, true, false, not, ◌&&◌, ◌||◌, Option, none, some, List, [], ◌∷◌, ◌++◌, map,
  is_some, ◌==◌, string_eq, nat_eq, if◌then◌else◌,
}
use soundgate_paper.MutationScore.Text.{starts_with}
use soundgate_paper.Corpus.Incident.{Incident}
use soundgate_paper.Corpus.Classify.{holds}

-- `_repo_slug`
unfoldable pub repo_slug : String → Option String
unfolding holds
repo_slug repo = if holds repo "/" && not (repo == "forum.langchain.com") then some repo else none

pub record Payload : Type 0 where
  pub state : Option String
  pub created_at : Option String
  pub closed_at : Option String
  pub login : Option String
  pub author_association : Option String
  pub labels : List (Option String)
  pub is_pull_request : Bool
  pub title : Option String

-- What a request comes to: an issue, an HTTP error, or an exception by the name of its type.
pub data Answer : Type 0 where
  issue : Payload → Answer
  http_error : ℕ → Answer
  broken : String → Answer

-- `enrich_status`; `http n` and `error name` are the texts f"http_{n}" and f"error:{name}".
pub data Status : Type 0 where
  ok : Status
  not_found : Status
  rate_limited : Status
  http : ℕ → Status
  error : String → Status
  skipped_non_github : Status

unfoldable pub fetch_issue : Answer → Option Payload × Status
fetch_issue (issue p) = (some p, ok)
fetch_issue (http_error code) = (
  none,
  if code == 404 then not_found else if code == 403 || code == 429 then rate_limited else http code,
)
fetch_issue (broken name) = (none, error name)

-- The object `enrich`: its status, and of an answer its payload and its flags.
pub record Enriched : Type 0 where
  pub incident : Incident
  pub status : Status
  pub live : Option Payload
  pub flags : List String

-- Whether a field is there and not empty.
abbrev text_of : Option String → String
text_of none = ""
text_of (some s) = s

pub record Tally : Type 0 where
  pub rows : List Enriched
  pub n_ok : ℕ
  pub n_skip : ℕ
  pub n_fail : ℕ

unfoldable pub tally : Enriched → Tally → Tally
tally e t = by_status e.status
  where
    by_status : Status → Tally
    by_status ok = record t { rows = t.rows ++ e ∷ []; n_ok = t.n_ok + 1 }
    by_status skipped_non_github = record t { rows = t.rows ++ e ∷ []; n_skip = t.n_skip + 1 }
    by_status not_found = record t { rows = t.rows ++ e ∷ []; n_fail = t.n_fail + 1 }
    by_status rate_limited = record t { rows = t.rows ++ e ∷ []; n_fail = t.n_fail + 1 }
    by_status (http n) = record t { rows = t.rows ++ e ∷ []; n_fail = t.n_fail + 1 }
    by_status (error s) = record t { rows = t.rows ++ e ∷ []; n_fail = t.n_fail + 1 }

abbrev pub no_rows : Tally
no_rows = record { rows = []; n_ok = 0; n_skip = 0; n_fail = 0 }

module _ (strip : String → String) where
  unfoldable pub title_mismatch : Option String → Option String → Bool
  title_mismatch seen live =
      not (text_of seen == "")
      && (not (text_of live == "") && not (strip (text_of seen) == strip (text_of live)))

  unfoldable pub date_mismatch : Option String → Option String → Bool
  unfolding starts_with
  date_mismatch seen live =
      not (text_of seen == "")
      && (not (text_of live == "") && not (starts_with (text_of seen) (text_of live)))

  unfoldable pub flags_of : Incident → Payload → List String
  unfolding title_mismatch date_mismatch
  flags_of rec p =
      (if title_mismatch rec.title p.title then "title_mismatch" ∷ [] else [])
      ++ (if date_mismatch rec.created p.created_at then "date_mismatch" ∷ [] else [])

  -- What `fetch_issue` gives.
  unfoldable pub enrich_fetched : Incident → Option Payload × Status → Enriched
  unfolding flags_of
  enrich_fetched rec (none, status) = record {
    incident = rec;
    status = status;
    live = none;
    flags = [];
  }
  enrich_fetched rec (some p, status) = record {
    incident = rec;
    status = status;
    live = some p;
    flags = flags_of rec p;
  }

  unfoldable pub enrich_one : (String → ℕ → Answer) → Incident → Enriched
  unfolding repo_slug fetch_issue enrich_fetched
  enrich_one github rec = by_id (repo_slug rec.repo) rec.id
    where
      skipped : Enriched
      skipped = record { incident = rec; status = skipped_non_github; live = none; flags = [] }

      by_id : Option String → Option ℕ → Enriched
      by_id none id = skipped
      by_id (some slug) none = skipped
      by_id (some slug) (some n) =
          if rec.kind == "issue" then enrich_fetched rec (fetch_issue (github slug n)) else skipped

  unfoldable pub enrich_from : (String → ℕ → Answer) → Tally → List Incident → Tally
  unfolding enrich_one tally
  enrich_from github t [] = t
  enrich_from github t (rec ∷ recs) = enrich_from github (tally (enrich_one github rec) t) recs

  -- `main`, over the incidents.
  unfoldable pub enrich : (String → ℕ → Answer) → List Incident → Tally
  unfolding enrich_from
  enrich github recs = enrich_from github no_rows recs
