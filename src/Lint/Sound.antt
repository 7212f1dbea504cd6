-- ===== src/Lint/Sound.antt =====
-- The lint against a description without a stack: the calls of effects that no enclosing function of
-- the wrapper's name covers.
use mathlib.Core.List.{append_assoc, append-nil}
use soundgate_paper.Prelude.{
  ℕ, ◌<>◌, ◌≤◌, String, ◌≡◌, refl, sym, ap, ◌∙◌, inl, inr, Bool-cases, Bool, false, not, ◌&&◌, ◌||◌,
  Option, none, some, List, [], ◌∷◌, ◌++◌, map, contains, length, ◌==◌, ◌↔◌, All, arith, string_eq,
  if◌then◌else◌, length-append,
}
use soundgate_paper.Lint.Visit.{
  call_name, Node, function_def, call, other, Nodes, end, child, Visitor, finding, report, visit,
  generic_visit, push, pop, Parsed, unparseable, parsed, lint_file, lint_all, exit_code,
}

module _ (effects : List String) (wrapper : String) where
  own_site : Bool → Option String → ℕ → List (ℕ × String)
  own_site covered none lineno = []
  own_site covered (some n) lineno =
      if contains effects n && not covered then (lineno, n) ∷ [] else []

  -- The calls of effects outside the wrapper, where `covered` says whether a function of the
  -- wrapper's name is around the node.
  unfoldable mutual
    unfolding own_site

    pub sites : Bool → Node → List (ℕ × String)
    sites covered (function_def n body) = all_sites (n == wrapper || covered) body
    sites covered (call f lineno children) =
        own_site covered (call_name f) lineno ++ all_sites covered children
    sites covered (other children) = all_sites covered children

    pub all_sites : Bool → Nodes → List (ℕ × String)
    all_sites covered end = []
    all_sites covered (child n ns) = sites covered n ++ all_sites covered ns

  module _ (path : String) where
    abbrev line : ℕ × String → String
    line (lineno, n) = finding path effects wrapper lineno n

    map-append : (xs ys : List (ℕ × String)) → map line (xs ++ ys) ≡ map line xs ++ map line ys
    map-append [] ys = refl
    map-append (x ∷ xs) ys = ap (λ (zs : List String). line x ∷ zs) (map-append xs ys)

    found : Visitor → List (ℕ × String) → Visitor
    found v ss = record v { findings = v.findings ++ map line ss }

    found-append :
        (v : Visitor) (xs ys : List (ℕ × String)) → found (found v xs) ys ≡ found v (xs ++ ys)
    unfolding found
    found-append v xs ys =
        ap (λ (fs : List String). record v { findings = fs })
          (append_assoc v.findings (map line xs) (map line ys)
            ∙ ap (λ (zs : List String). v.findings ++ zs) (sym (map-append xs ys)))

    found-nil : (v : Visitor) → found v [] ≡ v
    unfolding found
    found-nil v = ap (λ (fs : List String). record v { findings = fs }) (append-nil v.findings)

    report-found :
        (o : Option String) (lineno : ℕ) (v : Visitor)
        → report path effects wrapper o lineno v
          ≡ found v (own_site (contains v.stack wrapper) o lineno)
    unfolding report own_site found
    report-found none lineno v = sym (found-nil v)
    report-found (some n) lineno v =
        elim (Bool-cases (contains effects n && not (contains v.stack wrapper))) [
          | inl out ↦ rw out refl
          | inr fine ↦ rw fine (sym (found-nil v))
        ]

    mutual
      unfolding visit sites found contains

      visit-found :
          (n : Node) (v : Visitor)
          → visit path effects wrapper n v ≡ found v (sites (contains v.stack wrapper) n)
      visit-found (function_def n body) v = ap pop (generic_visit-found body (push n v))
      visit-found (call f lineno children) v =
          let own = own_site (contains v.stack wrapper) (call_name f) lineno in
          ap (generic_visit path effects wrapper children) (report-found (call_name f) lineno v)
          ∙ generic_visit-found children (found v own)
          ∙ found-append v own (all_sites (contains v.stack wrapper) children)
      visit-found (other children) v = generic_visit-found children v

      generic_visit-found :
          (ns : Nodes) (v : Visitor)
          → generic_visit path effects wrapper ns v
            ≡ found v (all_sites (contains v.stack wrapper) ns)
      generic_visit-found end v = sym (found-nil v)
      generic_visit-found (child n ns) v =
          let own = sites (contains v.stack wrapper) n in
          ap (generic_visit path effects wrapper ns) (visit-found n v)
          ∙ generic_visit-found ns (found v own)
          ∙ found-append v own (all_sites (contains v.stack wrapper) ns)

  -- A line for each of the sites, or for a file that does not parse.
  unfoldable pub expected : String → Parsed → List String
  expected path (unparseable e) = (path <> (": unparseable (" <> (e <> "); review manually"))) ∷ []
  expected path (parsed tree) = map (line path) (sites false tree)

  -- The lint reports of a file one line for each call of an effect that no function of the wrapper's
  -- name encloses, in the order of the visit, and one line if the file does not parse.
  pub lint_file-expected :
      (path : String) (p : Parsed) → lint_file effects wrapper path p ≡ expected path p
  unfolding lint_file expected found contains
  lint_file-expected path (unparseable e) = refl
  lint_file-expected path (parsed tree) =
      ap (λ (v : Visitor). v.findings)
        (visit-found path tree (record { stack = []; findings = [] }))

  -- A file that parses, and in which every call of an effect stands inside the wrapper.
  abbrev pub IsMediated : String × Parsed → Type 0
  IsMediated (path, unparseable e) = ⊥
  IsMediated (path, parsed tree) = sites false tree ≡ []

  length-map : (path : String) (ss : List (ℕ × String)) → length (map (line path) ss) ≡ length ss
  length-map path [] = refl
  length-map path (s ∷ ss) = omega (arith, length-map path ss)

  no_sites : (ss : List (ℕ × String)) → (length ss ≡ 0) ↔ (ss ≡ [])
  no_sites [] = (λ h. refl, λ h. refl)
  no_sites (s ∷ ss) = (λ h. absurd (omega (arith, h)), λ h. cc)

  length-lint_file :
      (path : String) (p : Parsed)
      → (length (lint_file effects wrapper path p) ≡ 0) ↔ IsMediated (path, p)
  unfolding expected
  length-lint_file path (unparseable e) = (
    λ h. absurd (omega (arith, h, ap length (lint_file-expected path (unparseable e)))),
    λ bad. absurd bad,
  )
  length-lint_file path (parsed tree) =
      let same =
        ap length (lint_file-expected path (parsed tree)) ∙ length-map path (sites false tree) in
      (
        λ h. (no_sites (sites false tree)).0 (sym same ∙ h),
        λ h. same ∙ (no_sites (sites false tree)).1 h,
      )

  length-lint_all :
      (files : List (String × Parsed))
      → (length (lint_all effects wrapper files) ≡ 0) ↔ All IsMediated files
  unfolding lint_all
  length-lint_all [] = (λ h. tt, λ h. refl)
  length-lint_all ((path, p) ∷ files) =
      let own = length-lint_file path p in
      let more = length-lint_all files in
      let both =
        length-append (lint_file effects wrapper path p) (lint_all effects wrapper files) in
      (
        λ h. (own.0 (omega (arith, h, both)), more.0 (omega (arith, h, both))),
        λ h. omega (arith, both, own.1 h.0, more.1 h.1),
      )

  -- The exit code is 0 exactly if every file parses and has every call of an effect inside a function
  -- of the wrapper's name; it is at most 125.
  pub exit_code-IsMediated :
      (files : List (String × Parsed))
      → ((exit_code effects wrapper files ≡ 0) ↔ All IsMediated files)
        × (exit_code effects wrapper files ≤ 125)
  unfolding exit_code
  exit_code-IsMediated files =
      let clean = length-lint_all files in
      ((λ h. clean.0 (omega (arith, h)), λ h. omega (arith, clean.1 h)), omega arith)
