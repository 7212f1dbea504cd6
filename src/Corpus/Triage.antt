-- ===== src/Corpus/Triage.antt =====
-- corpus/triage_corpus.py: the triage of a classification queue. Python's regular expressions are
-- parameters: whether a pattern is found in a text, and what a pattern takes of a text.
pub mod Groups
use Prim.Native.Char.{Char}
use Prim.Native.String.{[] as nil, ◌∷◌ as cons}
use soundgate_paper.Prelude.{
  ℕ, zero, suc, ◌+◌, ◌-◌, String, ◌<>◌, Bool, true, false, not, ◌&&◌, ◌||◌, Option, none, some,
  List, [], ◌∷◌, ◌++◌, map, keep, length, any, count_if, lookup, is_some, ltb, ◌==◌, string_eq,
  nat_eq, pair_eq, if◌then◌else◌,
}
use soundgate_paper.MutationScore.Text.{starts_with}
use soundgate_paper.Exposure.Tables.{text_less, sorted_items}

-- `OCCUR` and `ADJ`
abbrev a1_rules : List String
a1_rules =
    "lost (every|the|all).{0,20}(tool )?call" ∷ "lose.{0,20}tool call"
    ∷ "executed while.{0,20}(pause|approval)" ∷ "ran during.{0,20}pause"
    ∷ "sibling.{0,30}(executed|ran|fired)" ∷ "both.{0,20}branches.{0,20}ran"
    ∷ "parallel.{0,30}approval.{0,30}(lost|dropped|duplicat|executed)" ∷ []

abbrev a2_rules : List String
a2_rules =
    "restart(s|ed)? (instead of|from)" ∷ "re-?execut" ∷ "re-?run" ∷ "runs? again" ∷ "executed twice"
    ∷ "duplicate (payment|email|tool|call|charge|message)"
    ∷ "resume.{0,30}(again|twice|duplicate|from the (beginning|start))"
    ∷ "tool.{0,20}(runs|executes).{0,20}again" ∷ []

abbrev a3_rules : List String
a3_rules =
    "still (running|executes|runs)" ∷ "orphan" ∷ "not (cancel|stop|propagate|abort)"
    ∷ "keeps (running|executing)" ∷ "continues? (after|to run)"
    ∷ "effect.{0,20}(after|still).{0,20}cancel" ∷ "cancel.{0,30}(no-?op|ignored|doesn'?t)" ∷ []

abbrev a4_rules : List String
a4_rules =
    "after (the )?timeout" ∷ "zombie" ∷ "still.{0,20}(complete|execut|run)"
    ∷ "deadline.{0,30}(ignored|exceeded|still)" ∷ "timeout.{0,30}(still|effect|complete)" ∷ []

abbrev pub occur : List (String × List String)
occur = ("A1", a1_rules) ∷ ("A2", a2_rules) ∷ ("A3", a3_rules) ∷ ("A4", a4_rules) ∷ []

abbrev adj : List String
adj =
    "\\brfc\\b" ∷ "\\bproposal\\b" ∷ "feature request" ∷ "\\[feature\\]"
    ∷ "would (it|be).{0,20}(nice|possible|good)" ∷ "is there a way" ∷ "add (a |support )"
    ∷ "\\bhook\\b.{0,20}(request|proposal)" ∷ "enhancement" ∷ "design (doc|discussion)"
    ∷ "should (we|langgraph|it)" ∷ []

pub record Parsed : Type 0 where
  pub slug : String
  pub url : String
  pub axis : String
  pub title : String
  pub text : String

-- What the patterns of the loop over the blocks take: slug, url and axis; the title; the body.
pub record Patterns : Type 0 where
  pub head : String → Option (String × (String × String))
  pub bold : String → Option String
  pub quoted : String → Option String
  pub lower : String → String
  -- `re.search(r"#(\d+)", s)`, its group.
  pub hash_number : String → Option String
  -- Whether `re.search` finds a pattern in a text.
  pub search : String → String → Bool

-- `re.split(r"\n## ", md)`; `skip` counts the characters of a separator that are left.
unfoldable pub split_from : ℕ → String → List String
unfolding starts_with
split_from skip nil = nil ∷ []
split_from (suc skip) (cons c s) = split_from skip s
split_from zero (cons c s) =
    let here = starts_with "\n## " (cons c s) in
    let rest = split_from (if here then 3 else 0) s in if here then nil ∷ rest else onto c rest
  where
    onto : Char → List String → List String
    onto c [] = cons c nil ∷ []
    onto c (b ∷ bs) = cons c b ∷ bs

-- The blocks after the first.
unfoldable pub blocks : String → List String
unfolding split_from
blocks md = tail (split_from 0 md)
  where
    tail : List String → List String
    tail [] = []
    tail (b ∷ bs) = bs

abbrev or_nothing : Option String → String
or_nothing none = ""
or_nothing (some s) = s

pub data Triage : Type 0 where
  direct : Triage
  adjacent : Triage
  context : Triage

unfoldable pub order : Triage → ℕ
order direct = 0
order adjacent = 1
order context = 2

abbrev pub Triaged : Type 0
Triaged = Parsed × Triage

-- A line of the shortlist or of the map, with the repository and the number of its slug.
pub record MapRow : Type 0 where
  pub repo : String
  pub num : String
  pub entry : Parsed
  pub triage : Triage

-- `s.split("#")[0]`
unfoldable pub before_hash : String → String
before_hash nil = nil
before_hash (cons c s) = if cons c nil == "#" then nil else cons c (before_hash s)

unfoldable pub sort_less : ℕ × String → ℕ × String → Bool
unfolding text_less
sort_less (a, s) (b, t) = ltb a b || (a == b && text_less s t)

unfoldable pub sort_key : Triaged → ℕ × String
unfolding order
sort_key (e, t) = (order t, e.slug)

unfoldable pub sort_entries : List Triaged → List Triaged
unfolding sort_less sort_key sorted_items
sort_entries es =
    map (λ (x : (ℕ × String) × Triaged). x.1)
      (sorted_items sort_less (map (λ (e : Triaged). (sort_key e, e)) es))

module _ (re : Patterns) where
  unfoldable pub parse_block : String → Option Parsed
  parse_block block = parsed (re.head block)
    where
      parsed : Option (String × (String × String)) → Option Parsed
      parsed none = none
      parsed (some (slug, (url, axis))) =
          let title = or_nothing (re.bold block) in
          let body = or_nothing (re.quoted block) in
          some (record {
            slug = slug;
            url = url;
            axis = axis;
            title = title;
            text = re.lower (title <> (" " <> body));
          })

  unfoldable pub parse_blocks : List String → List Parsed
  unfolding parse_block
  parse_blocks [] = []
  parse_blocks (b ∷ bs) = elim (parse_block b) [
    | none ↦ parse_blocks bs
    | some e ↦ e ∷ parse_blocks bs
  ]

  -- Whether a rule of the entry's axis is found, or of any axis where it has none of the four.
  unfoldable pub occurred : Parsed → Bool
  occurred e = found (lookup occur e.axis)
    where
      found : Option (List String) → Bool
      found none =
          any (λ (rules : String × List String). any (λ p. re.search p e.text) rules.1) occur
      found (some rules) = any (λ p. re.search p e.text) rules

  unfoldable pub classify : Parsed → Triage
  unfolding occurred
  classify e =
      let o = occurred e in
      let is_adj = any (λ p. re.search p e.text) adj in
      if o && not is_adj then direct else if o || is_adj then adjacent else context

  unfoldable pub triage : String → List Triaged
  unfolding blocks parse_blocks classify sort_entries
  triage md = sort_entries (map (λ (e : Parsed). (e, classify e)) (parse_blocks (blocks md)))

  -- A slug without a number is an exception.
  unfoldable pub map_row : Triaged → Option MapRow
  unfolding before_hash
  map_row (e, t) = elim (re.hash_number e.slug) [
    | none ↦ none
    | some num ↦ some (record { repo = before_hash e.slug; num = num; entry = e; triage = t })
  ]

  unfoldable pub map_rows : List Triaged → Option (List MapRow)
  unfolding map_row
  map_rows [] = some []
  map_rows (e ∷ es) = elim (map_row e) [
    | none ↦ none
    | some r ↦ elim (map_rows es) [ none ↦ none | some rs ↦ some (r ∷ rs) ]
  ]
