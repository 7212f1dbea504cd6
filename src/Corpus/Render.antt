-- ===== src/Corpus/Render.antt =====
-- corpus/src/corpus/render.py: the document, as the list of its lines.
pub mod Counts
use Prim.Native.Nat.{Ordering}
use Prim.Native.Char.{Char}
use Prim.Native.String.{[] as nil, ◌∷◌ as cons, compare}
use soundgate_paper.Prelude.{
  str, ℕ, zero, suc, ◌+◌, ◌/◌, ◌%◌, String, ◌<>◌, Bool, true, false, not, ◌&&◌, ◌||◌, Option, none,
  some, List, [], ◌∷◌, ◌++◌, map, keep, length, count_if, lookup, put, ltb, ◌==◌, string_eq,
  if◌then◌else◌,
}
use soundgate_paper.Corpus.Incident.{Incident}

ends_with : String → String → Bool
ends_with nil end = end == nil
ends_with (cons c s) end = cons c s == end || ends_with s end

-- `_ref`
unfoldable pub ref : Incident → String
unfolding ends_with
ref rec = label rec.id
  where
    numbered : String → ℕ → String
    numbered name n = name <> ("#" <> str n)

    label : Option ℕ → String
    label none = rec.repo
    label (some n) =
        if ends_with rec.repo "langgraph"
        then numbered "langgraph" n
        else if ends_with rec.repo "langgraphjs"
        then numbered "langgraphjs" n
        else if rec.repo == "forum.langchain.com"
        then numbered "forum" n
        else if ends_with rec.repo "crewAI"
        then numbered "crewai" n
        else numbered rec.repo n

-- `rec["created"] or other`
abbrev pub created_or : String → Option String → String
created_or other none = other
created_or other (some d) = if d == "" then other else d

-- `s.replace("|", "\\|")`
unfoldable pub escape_bars : String → String
escape_bars nil = nil
escape_bars (cons c s) =
    if cons c nil == "|" then "\\|" <> escape_bars s else cons c (escape_bars s)

unfoldable pub source_name : String → String
source_name kind =
    if kind == "issue" then "gh issue" else if kind == "discussion" then "gh disc." else kind

abbrev lt : String → String → Bool
lt s t = is_lt (compare s t)
  where
    is_lt : Ordering → Bool
    is_lt Ordering.lt = true
    is_lt Ordering.eq = false
    is_lt Ordering.gt = false

-- The order of a table's rows, which have one evidence strength: by axis, then by date.
unfoldable pub before : Incident → Incident → Bool
before a b =
    lt a.axis b.axis
    || (a.axis == b.axis && lt (created_or "0000" a.created) (created_or "0000" b.created))

-- `sorted(...)`, a stable sort by a strict order.
module _ {A : Type 0} (less : A → A → Bool) where
  unfoldable pub insert_sorted : A → List A → List A
  insert_sorted x [] = x ∷ []
  insert_sorted x (y ∷ ys) = if less y x then y ∷ insert_sorted x ys else x ∷ y ∷ ys

  unfoldable pub sort : List A → List A
  unfolding insert_sorted
  sort [] = []
  sort (x ∷ xs) = insert_sorted x (sort xs)

unfoldable pub row : Incident → String
unfolding ref escape_bars source_name
row r =
    "| ["
    <> (ref r
        <> ("]("
            <> (r.url
                <> (") | "
                    <> (r.axis
                        <> (" | "
                            <> (created_or "VERIFY" r.created
                                <> (" | "
                                    <> (source_name r.kind
                                        <> (" | " <> (escape_bars r.symptom <> " |")))))))))))

unfoldable pub of_strength : String → List Incident → List Incident
of_strength s rs = keep (λ (r : Incident). r.evidence_strength == s) rs

unfoldable pub rows : String → List Incident → List Incident
unfolding before
rows s rs = sort before (of_strength s rs)

unfoldable pub table : List Incident → String → String → List String
table sorted title note =
    ("## " <> title)
    ∷ ""
    ∷ note
    ∷ ""
    ∷ "| ref | axis | date | source | one-line symptom |"
    ∷ "|---|---|---|---|---|"
    ∷ (map row sorted ++ "" ∷ [])

-- `Counter(...)`
unfoldable pub tally : List String → List (String × ℕ)
tally [] = []
tally (x ∷ xs) = count_in (tally xs)
  where
    count_in : List (String × ℕ) → List (String × ℕ)
    count_in counts = put x (seen (lookup counts x) + 1) counts
      where
        seen : Option ℕ → ℕ
        seen none = 0
        seen (some n) = n

unfoldable pub sorted_tally : List String → List (String × ℕ)
sorted_tally xs = sort (λ (a b : String × ℕ). lt a.0 b.0) (tally xs)

abbrev join : String → List String → String
join sep [] = ""
join sep (x ∷ []) = x
join sep (x ∷ y ∷ ys) = x <> (sep <> join sep (y ∷ ys))

abbrev entry : String × ℕ → String
entry (k, n) = k <> (" (" <> (str n <> ")"))

dates : List Incident → List String
dates [] = []
dates (r ∷ rs) =
    if created_or "" r.created == "" then dates rs else created_or "" r.created ∷ dates rs

least : String → List String → String
least m [] = m
least m (d ∷ ds) = least (if lt d m then d else m) ds

greatest : String → List String → String
greatest m [] = m
greatest m (d ∷ ds) = greatest (if lt m d then d else m) ds

span : List String → List String
unfolding least greatest
span [] = []
span (d ∷ ds) = ("- Date span (observed): " <> (least d ds <> (" to " <> greatest d ds))) ∷ []

unfoldable pub counts : List Incident → List String
unfolding sorted_tally dates span
counts rs =
    ("- DIRECT incidents (exhibit a stop-primitive failure): **"
      <> (str (length (of_strength "direct" rs)) <> "**"))
    ∷ ("- ADJACENT (same root cause, no leaked effect shown): **"
        <> (str (length (of_strength "adjacent" rs)) <> "**"))
    ∷ ("- CONTEXT (user questions / practitioner articles): **"
        <> (str (length (of_strength "context" rs)) <> "**"))
    ∷ ("- Distinct sources: "
        <> join ", " (map entry (sorted_tally (map (λ (r : Incident). r.repo) rs))))
    ∷ ("- DIRECT rows by axis: "
        <> join ", "
            (map entry (sorted_tally (map (λ (r : Incident). r.axis) (of_strength "direct" rs)))))
    ∷ (span (dates rs) ++ "" ∷ [])

abbrev intro : List String
intro =
    "# Incident corpus -- agent-framework stop-primitive failures" ∷ ""
    ∷ "Prevalence evidence for the paper. Every row was confirmed by reading the actual issue/thread on 2026-07-02 (see `verified_via`). Rows are grouped by evidence strength so the DIRECT count -- reports that actually exhibit a node/effect re-executing or a parallel-pending effect mishandled -- stands on its own."
    ∷ ""
    ∷ "Generated from `src/corpus/seeds.py` by `corpus-render`. Run `corpus-enrich` to fill authoritative state/labels/dates from the GitHub API (fields left blank below were not directly observed and must be enriched before any claim depends on them)."
    ∷ "" ∷ "## Counts" ∷ "" ∷ []

abbrev scope : List String
scope =
    "> Honest scope: this corpus is LangGraph-dominated because LangGraph has the most-used explicit HITL/interrupt surface and the largest public tracker, so its failures are the most-reported. It is a lower bound on occurrence (an issue means at least one user hit it and filed), not a rate. The keyless probes (probes/results/MATRIX.md) supply the cross-framework universality that the issue corpus alone cannot; the two are complementary. Cancellation/timeout (A3/A4) surfaces mostly as user 'how do I even stop this' threads and cancel-loses-state bugs rather than crisp effect-leak repros -- reported as-is."
    ∷ "" ∷ []

abbrev query_line : String × String → String
query_line (tag, query) = "- `" <> (tag <> ("`: " <> query))

abbrev lead_line : String × String → String
lead_line (lead, note) = "- **" <> (lead <> ("** -- " <> note))

unfoldable pub render_md :
    List Incident → List (String × String) → List (String × String) → List String
unfolding counts table rows
render_md incidents queries leads =
    intro
    ++ (counts incidents
        ++ (scope
            ++ (table (rows "direct" incidents) "Direct incidents"
                  "Each report shows a node/effect re-executing on resume (A2) or a parallel-pending approval/effect mishandled (A1)."
                ++ (table (rows "adjacent" incidents) "Adjacent incidents"
                      "Same underlying cause (no per-interrupt barrier / underspecified cancellation) but the report does not itself demonstrate a leaked side effect."
                    ++ (table (rows "context" incidents) "Context (not bug reports)"
                          "User questions and practitioner write-ups establishing the problem is real and actively worked around in the field."
                        ++ ("## Reproducibility -- verbatim search queries (2026-07-02)"
                            ∷ ""
                            ∷ (map query_line queries
                                ++ (""
                                    ∷ "## Unverified leads (recorded, NOT counted as evidence)"
                                    ∷ ""
                                    ∷ (map lead_line leads ++ "" ∷ [])))))))))
