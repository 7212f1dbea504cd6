-- ===== src/Corpus/Enrich/Counts.antt =====
-- corpus/src/corpus/enrich.py: the counts of `main`.
use soundgate_paper.Prelude.{
  ℕ, ◌+◌, ◌≡◌, refl, sym, ap, ◌∙◌, String, Bool, true, false, not, ◌&&◌, Option, none, some, List,
  [], ◌∷◌, ◌++◌, map, count_if, is_some, ◌==◌, string_eq, if◌then◌else◌, arith, Bool-cases,
  Option-cases, ◌⊎◌, nat_eq, inl, inr,
}
use mathlib.Core.List.{append_assoc, append-nil, map-append}
use soundgate_paper.Corpus.Incident.{Incident}
use soundgate_paper.Corpus.Enrich.{
  repo_slug, Answer, Status, Enriched, Tally, no_rows, tally, enrich_fetched, fetch_issue,
  enrich_one, enrich_from, enrich,
}

-- Whether the program asks GitHub for an incident: an issue with a number, in a repository of GitHub's.
abbrev pub asked : Incident → Bool
asked rec = is_some (repo_slug rec.repo) && (rec.kind == "issue" && is_some rec.id)

abbrev pub is_issue : Answer → Bool
is_issue (Answer.issue p) = true
is_issue (Answer.http_error n) = false
is_issue (Answer.broken s) = false

-- Whether GitHub has the issue.
abbrev pub has_issue : (String → ℕ → Answer) → Incident → Bool
has_issue github rec = opened rec.id
  where
    opened : Option ℕ → Bool
    opened none = false
    opened (some n) = is_issue (github rec.repo n)

-- Which of the three counters a status moves.
abbrev counter : Status → ℕ
counter Status.ok = 0
counter Status.skipped_non_github = 1
counter Status.not_found = 2
counter Status.rate_limited = 2
counter (Status.http n) = 2
counter (Status.error s) = 2

record Tallied (e : Enriched) (t u : Tally) : Type 0 where
  rows : u.rows ≡ t.rows ++ e ∷ []
  oks : u.n_ok ≡ t.n_ok + (if counter e.status == 0 then 1 else 0)
  skips : u.n_skip ≡ t.n_skip + (if counter e.status == 1 then 1 else 0)
  fails : u.n_fail ≡ t.n_fail + (if counter e.status == 2 then 1 else 0)

tally_lem : (e : Enriched) (t : Tally) → Tallied e t (tally e t)
unfolding tally
tally_lem e t = given e.status
  where
    given : (s : Status) → Tallied (record e { status = s }) t (tally (record e { status = s }) t)
    given Status.ok = record { rows = refl; oks = refl; skips = omega arith; fails = omega arith }
    given Status.skipped_non_github = record {
      rows = refl;
      oks = omega arith;
      skips = refl;
      fails = omega arith;
    }
    given Status.not_found = record {
      rows = refl;
      oks = omega arith;
      skips = omega arith;
      fails = refl;
    }
    given Status.rate_limited = record {
      rows = refl;
      oks = omega arith;
      skips = omega arith;
      fails = refl;
    }
    given (Status.http n) = record {
      rows = refl;
      oks = omega arith;
      skips = omega arith;
      fails = refl;
    }
    given (Status.error n) = record {
      rows = refl;
      oks = omega arith;
      skips = omega arith;
      fails = refl;
    }

repo_slug-cases : (repo : String) → (repo_slug repo ≡ none) ⊎ (repo_slug repo ≡ some repo)
unfolding repo_slug
repo_slug-cases repo = ground arith

abbrev expected : Bool → Bool → ℕ
expected is_asked has = if is_asked then if has then 0 else 2 else 1

module _ (strip : String → String) where
  -- The incident, and the counter that its status moves.
  abbrev Outcome : Incident → ℕ → Enriched → Type 0
  Outcome rec n e = (e.incident ≡ rec) × (counter e.status ≡ n)

  fetched :
      (rec : Incident) (a : Answer)
      → Outcome rec (if is_issue a then 0 else 2) (enrich_fetched strip rec (fetch_issue a))
  unfolding enrich_fetched fetch_issue
  fetched rec (Answer.issue p) = (refl, refl)
  fetched rec (Answer.http_error code) = (refl, ground arith)
  fetched rec (Answer.broken name) = (refl, refl)

  module _ (github : String → ℕ → Answer) where
    enrich_one-Outcome :
        (rec : Incident)
        → Outcome rec (expected (asked rec) (has_issue github rec)) (enrich_one strip github rec)
    unfolding enrich_one
    enrich_one-Outcome rec = elim (repo_slug-cases rec.repo) [
      | inl none_there ↦ rw none_there (refl, refl)
      | inr there ↦ elim (Option-cases rec.id) [
        | inl no_id ↦ rw (there, no_id) (refl, ground arith)
        | inr (n, id) ↦ elim (Bool-cases (rec.kind == "issue")) [
          | inl kind ↦
              rw (there, id, kind) (fetched (record rec { id = some n }) (github rec.repo n))
          | inr kind ↦ rw (there, id, kind) (refl, refl)
        ]
      ]
    ]

    -- The file and the counters grow by what the incidents give.
    record Totals (recs : List Incident) (t u : Tally) : Type 0 where
      rows :
          map (λ (e : Enriched). e.incident) u.rows
          ≡ map (λ (e : Enriched). e.incident) t.rows ++ recs
      oks : u.n_ok ≡ t.n_ok + count_if (λ rec. asked rec && has_issue github rec) recs
      skips : u.n_skip ≡ t.n_skip + count_if (λ rec. not (asked rec)) recs
      fails : u.n_fail ≡ t.n_fail + count_if (λ rec. asked rec && not (has_issue github rec)) recs

    enrich_from-Totals :
        (t : Tally) (recs : List Incident) → Totals recs t (enrich_from strip github t recs)
    unfolding enrich_from count_if
    enrich_from-Totals t [] = record {
      rows = sym (append-nil (map (λ (e : Enriched). e.incident) t.rows));
      oks = omega arith;
      skips = omega arith;
      fails = omega arith;
    }
    enrich_from-Totals t (rec ∷ recs) =
        let e : Enriched = enrich_one strip github rec in
        let o : Outcome rec (expected (asked rec) (has_issue github rec)) e =
          enrich_one-Outcome rec in
        let one : Tallied e t (tally e t) = tally_lem e t in
        let rest : Totals recs (tally e t) (enrich_from strip github (tally e t) recs) =
          enrich_from-Totals (tally e t) recs in
        record {
          rows =
              rest.rows
              ∙ ap (λ (es : List Enriched). map (λ (x : Enriched). x.incident) es ++ recs) one.rows
              ∙ simp (map-append, append_assoc, o.0);
          oks = ground (arith, o.1, one.oks, rest.oks);
          skips = ground (arith, o.1, one.skips, rest.skips);
          fails = ground (arith, o.1, one.fails, rest.fails);
        }

-- Whatever GitHub answers: the file has one row for each incident, in their order, and the three counters
-- are the incidents that GitHub has, those that it is not asked for, and those that it is asked for and
-- does not have.
pub enrich-Totals :
    (strip : String → String) (github : String → ℕ → Answer) (recs : List Incident)
    → (map (λ (e : Enriched). e.incident) (enrich strip github recs).rows ≡ recs)
      × ((enrich strip github recs).n_ok ≡ count_if (λ rec. asked rec && has_issue github rec) recs)
      × ((enrich strip github recs).n_skip ≡ count_if (λ rec. not (asked rec)) recs)
      × ((enrich strip github recs).n_fail
          ≡ count_if (λ rec. asked rec && not (has_issue github rec)) recs)
unfolding enrich
enrich-Totals strip github recs =
    let t = enrich_from-Totals strip github no_rows recs in
    (t.rows, t.oks ∙ omega arith, t.skips ∙ omega arith, t.fails ∙ omega arith)
