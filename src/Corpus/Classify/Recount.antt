-- ===== src/Corpus/Classify/Recount.antt =====
-- corpus/classify_corpus.py: the verdicts set by hand, and the recount by the commands that `main` prints.
use Prim.Native.String.{[] as nil, ◌∷◌ as cons}
use soundgate_paper.Prelude.{
  ℕ, zero, suc, ◌+◌, ◌≤◌, ◌≡◌, refl, ap, ◌∙◌, ==→eq, String, ◌<>◌, Bool, true, false, ◌&&◌, ◌||◌,
  List, [], ◌∷◌, ◌++◌, length, count_if, count_if-append, ◌==◌, string_eq, if◌then◌else◌, arith,
  Bool-cases, or_true, inl, inr,
}
use Prim.Native.Char.{Char}
use native.Mathlib.Nat.{le_trans}
use text.Mathlib.TextLemmas.{nil-append, cons-append}
use soundgate_paper.MutationScore.Text.{starts_with, replace}
use soundgate_paper.Corpus.Classify.{
  Entry, Candidate, IssueKey, Response, holds, verdict_line, entry_lines, all_lines, queue,
  document,
}

unfoldable pub skip : ℕ → String → String
skip zero s = s
skip (suc n) nil = nil
skip (suc n) (cons c s) = skip n s

-- Whether `grep 'VERDICT:.*word'` takes a line.
unfoldable pub grep_verdict : String → String → Bool
unfolding starts_with holds skip
grep_verdict word nil = false
grep_verdict word (cons c s) =
    (starts_with "VERDICT:" (cons c s) && holds (skip 8 (cons c s)) word) || grep_verdict word s

-- The reader replaces UNSET by the next verdict at each line for one.
unfoldable pub set_verdicts : List String → List String → List String
unfolding replace
set_verdicts vs [] = []
set_verdicts [] (l ∷ ls) = l ∷ set_verdicts [] ls
set_verdicts (v ∷ vs) (l ∷ ls) =
    if l == verdict_line
    then replace l "UNSET" v ∷ set_verdicts vs ls
    else l ∷ set_verdicts (v ∷ vs) ls

holds-append : (s t w : String) → holds t w ≡ true → holds (s <> t) w ≡ true
unfolding holds
holds-append nil t w h = rw (nil-append t) h
holds-append (cons c s) t w h =
    rw (cons-append c s t) (rw (holds-append s t w h) (or_true (starts_with w (cons c (s <> t)))))

-- The three verdicts, as the commands spell them.
pub data Verdict : Type 0 where
  direct : Verdict
  adjacent : Verdict
  context : Verdict

unfoldable pub word : Verdict → String
word direct = "direct"
word adjacent = "adjacent"
word context = "context"

grep-later : (c : Char) (s w : String) → grep_verdict w s ≡ true → grep_verdict w (cons c s) ≡ true
unfolding grep_verdict
grep-later c s w h =
    rw h (or_true (starts_with "VERDICT:" (cons c s) && holds (skip 8 (cons c s)) w))

grep-here :
    (c : Char) (s w : String)
    → starts_with "VERDICT:" (cons c s) ≡ true
    → holds (skip 8 (cons c s)) w ≡ true
    → grep_verdict w (cons c s) ≡ true
unfolding grep_verdict
grep-here c s w v h = rw (v, h) refl

abbrev rest_of_line : String
rest_of_line = "`   <!-- set to: direct | adjacent | context -->"

-- A line for a verdict is taken whatever verdict was set, and also before one is.
holds-later : (c : Char) (t w : String) → holds t w ≡ true → holds (cons c t) w ≡ true
unfolding holds
holds-later c t w h = rw h (or_true (starts_with w (cons c t)))

abbrev colon_on : String → String
colon_on v = cons "*" (cons "*" (cons " " (cons "`" (v <> rest_of_line))))

abbrev verdict_on : String → String
verdict_on v =
    cons "E" (cons "R" (cons "D" (cons "I" (cons "C" (cons "T" (cons ":" (colon_on v)))))))

set_line :
    (v : String) → replace verdict_line "UNSET" v ≡ cons "*" (cons "*" (cons "V" (verdict_on v)))
unfolding replace
set_line v = refl

colon_on-holds : (w v : String) → holds rest_of_line w ≡ true → holds (colon_on v) w ≡ true
colon_on-holds w v h =
    let t : String = v <> rest_of_line in
    holds-later "*" (cons "*" (cons " " (cons "`" t))) w (
      holds-later "*" (cons " " (cons "`" t)) w
        (holds-later " " (cons "`" t) w (holds-later "`" t w (holds-append v rest_of_line w h))))

-- A line for a verdict is taken whatever verdict was set, and also before one is.
set-taken :
    (w v : String)
    → holds rest_of_line w ≡ true
    → grep_verdict w (replace verdict_line "UNSET" v) ≡ true
unfolding starts_with skip
set-taken w v h =
    ap (grep_verdict w) (set_line v)
    ∙ grep-later "*" (cons "*" (cons "V" (verdict_on v))) w (
        grep-later "*" (cons "V" (verdict_on v)) w
          (grep-here "V" (verdict_on v) w refl (colon_on-holds w v h)))

word-holds : (w : Verdict) → holds rest_of_line (word w) ≡ true
unfolding holds word
word-holds direct = refl
word-holds adjacent = refl
word-holds context = refl

unset-taken : (w : Verdict) → grep_verdict (word w) verdict_line ≡ true
unfolding grep_verdict word
unset-taken direct = refl
unset-taken adjacent = refl
unset-taken context = refl

abbrev is_verdict_line : String → Bool
is_verdict_line l = l == verdict_line

-- What the printed command counts in a file.
unfoldable pub grep_count : Verdict → List String → ℕ
unfolding grep_verdict word
grep_count w ls = count_if (grep_verdict (word w)) ls

unset_line :
    (w : Verdict) (l : String) → (l == verdict_line) ≡ true → grep_verdict (word w) l ≡ true
unset_line w l same = ap (grep_verdict (word w)) (==→eq l verdict_line same) ∙ unset-taken w

counted :
    {m n : ℕ} (taken is_line : Bool)
    → (is_line ≡ true → taken ≡ true)
    → m ≤ n
    → (if is_line then 1 else 0) + m ≤ (if taken then 1 else 0) + n
counted taken is_line h le = ground (arith, h)

set_verdicts-count :
    (w : Verdict) (vs ls : List String)
    → count_if is_verdict_line ls ≤ grep_count w (set_verdicts vs ls)
unfolding set_verdicts grep_count count_if
set_verdicts-count w [] [] = omega arith
set_verdicts-count w (v ∷ vs) [] = omega arith
set_verdicts-count w [] (l ∷ ls) =
    counted (grep_verdict (word w) l) (l == verdict_line) (unset_line w l)
      (set_verdicts-count w [] ls)
set_verdicts-count w (v ∷ vs) (l ∷ ls) = elim (Bool-cases (l == verdict_line)) [
  | inl same ↦ rw same (
      counted (grep_verdict (word w) (replace l "UNSET" v)) true
        (λ h.
          ap (λ m. grep_verdict (word w) (replace m "UNSET" v)) (==→eq l verdict_line same)
          ∙ set-taken (word w) v (word-holds w))
        (set_verdicts-count w vs ls))
  | inr other ↦ rw other (
      counted (grep_verdict (word w) l) false (λ h. absurd (cc)) (set_verdicts-count w (v ∷ vs) ls))
]

all_lines-count :
    (strip : String → String) (es : List Entry)
    → length es ≤ count_if is_verdict_line (all_lines strip es)
unfolding all_lines entry_lines count_if
all_lines-count strip [] = omega arith
all_lines-count strip (e ∷ es) = more _ _ _ _ (all_lines-count strip es)
  where
    more :
        {m n : ℕ} (a b c d : ℕ)
        → m ≤ n
        → suc m ≤ a + (b + (0 + (c + (0 + (d + (0 + (1 + (0 + (0 + (0 + n))))))))))
    more a b c d h = omega (arith, h)

within-count {ℓ} :
    {A : Type ℓ} (p : A → Bool) (a b c d : A) (xs ys : List A)
    → count_if p xs ≤ count_if p (a ∷ b ∷ c ∷ d ∷ (xs ++ ys))
unfolding count_if
within-count p a b c d xs ys = omega (arith, count_if-append p xs ys)

document-count :
    (lower strip : String → String) (github : IssueKey → Response) (sweep : String)
    (rows : List Candidate)
    → length (queue lower github rows).entries
      ≤ count_if is_verdict_line (document lower github strip sweep rows)
unfolding document
document-count lower strip github sweep rows =
    le_trans (all_lines-count strip (queue lower github rows).entries)
      (within-count is_verdict_line _ _ _ _ (all_lines strip (queue lower github rows).entries) _)

-- Whatever the answers of GitHub, the sweep, and the verdicts that are set by hand, of the three printed
-- commands each counts at least as many lines as the queue has entries.
pub recount-overcounts :
    (lower strip : String → String) (github : IssueKey → Response) (sweep : String)
    (rows : List Candidate) (verdicts : List String) (w : Verdict)
    → length (queue lower github rows).entries
      ≤ grep_count w (set_verdicts verdicts (document lower github strip sweep rows))
recount-overcounts lower strip github sweep rows verdicts w =
    le_trans (document-count lower strip github sweep rows)
      (set_verdicts-count w verdicts (document lower github strip sweep rows))
