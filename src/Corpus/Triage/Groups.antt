-- ===== src/Corpus/Triage/Groups.antt =====
-- corpus/triage_corpus.py: the order of the entries, and the shortlist.
use mathlib.Core.Path.{subst}
use soundgate_paper.Prelude.{
  ℕ, ◌+◌, ◌≤◌, ◌<◌, ◌≡◌, refl, ap, String, Bool, true, false, List, [], ◌∷◌, ◌++◌, map, keep,
  count_if, All, ◌==◌, nat_eq, if◌then◌else◌, arith, Bool-cases, inl, inr,
}
use soundgate_paper.Exposure.Tables.{insert_item, sorted_items}
use soundgate_paper.Corpus.Triage.{
  Parsed, Patterns, direct, adjacent, context, order, Triaged, sort_less, sort_key, sort_entries,
  parse_blocks, blocks, classify, triage,
}

abbrev Item : Type 0
Item = (ℕ × String) × Triaged

-- Sorted by the number that stands first in the key.
abbrev IsSorted : List Item → Type 0
IsSorted [] = Unit
IsSorted (x ∷ xs) = All (λ (y : Item). x.0.0 ≤ y.0.0) xs × IsSorted xs

abbrev Below : ℕ → Item → Type 0
Below n y = n ≤ y.0.0

insert-All :
    (n : ℕ) (x : Item) (ys : List Item)
    → n ≤ x.0.0
    → All (Below n) ys
    → All (Below n) (insert_item sort_less x ys)
unfolding insert_item
insert-All n x [] h all = (h, tt)
insert-All n x (y ∷ ys) h all = elim (Bool-cases (sort_less y.0 x.0)) [
  | inl less ↦ rw less (all.0, insert-All n x ys h all.1)
  | inr more ↦ rw more (h, all)
]

All-mono : (m n : ℕ) (ys : List Item) → m ≤ n → All (Below n) ys → All (Below m) ys
All-mono m n [] le all = tt
All-mono m n (y ∷ ys) le all = (omega (arith, all.0), All-mono m n ys le all.1)

less-le : (k j : ℕ × String) → sort_less k j ≡ true → k.0 ≤ j.0
unfolding sort_less
less-le k j h = ground arith

not-less-le : (k j : ℕ × String) → sort_less k j ≡ false → j.0 ≤ k.0
unfolding sort_less
not-less-le k j h = ground arith

insert-IsSorted : (x : Item) (ys : List Item) → IsSorted ys → IsSorted (insert_item sort_less x ys)
unfolding insert_item
insert-IsSorted x [] s = (tt, tt)
insert-IsSorted x (y ∷ ys) s = elim (Bool-cases (sort_less y.0 x.0)) [
  | inl less ↦ rw less (insert-All y.0.0 x ys (less-le y.0 x.0 less) s.0, insert-IsSorted x ys s.1)
  | inr more ↦
      let le : x.0.0 ≤ y.0.0 = not-less-le y.0 x.0 more in
      rw more ((le, All-mono x.0.0 y.0.0 ys le s.0), s)
]

sorted_items-IsSorted : (xs : List Item) → IsSorted (sorted_items sort_less xs)
unfolding sorted_items
sorted_items-IsSorted [] = tt
sorted_items-IsSorted (x ∷ xs) =
    insert-IsSorted x (sorted_items sort_less xs) (sorted_items-IsSorted xs)

-- Items carry the key of their entry.
abbrev IsKeyed : List Item → Type 0
IsKeyed xs = All (λ (x : Item). x.0 ≡ sort_key x.1) xs

insert-IsKeyed :
    (x : Item) (ys : List Item)
    → x.0 ≡ sort_key x.1
    → IsKeyed ys
    → IsKeyed (insert_item sort_less x ys)
unfolding insert_item
insert-IsKeyed x [] h all = (h, tt)
insert-IsKeyed x (y ∷ ys) h all = elim (Bool-cases (sort_less y.0 x.0)) [
  | inl less ↦ rw less (all.0, insert-IsKeyed x ys h all.1)
  | inr more ↦ rw more (h, all)
]

abbrev keyed : List Triaged → List Item
keyed es = map (λ (e : Triaged). (sort_key e, e)) es

sorted-IsKeyed : (es : List Triaged) → IsKeyed (sorted_items sort_less (keyed es))
unfolding sorted_items
sorted-IsKeyed [] = tt
sorted-IsKeyed (e ∷ es) =
    insert-IsKeyed (sort_key e, e) (sorted_items sort_less (keyed es)) refl (sorted-IsKeyed es)

-- Sorting keeps how many pass a test.
abbrev entries : List Item → List Triaged
entries xs = map (λ (x : Item). x.1) xs

insert-count :
    (p : Triaged → Bool) (x : Item) (ys : List Item)
    → count_if p (entries (insert_item sort_less x ys))
      ≡ (if p x.1 then 1 else 0) + count_if p (entries ys)
unfolding insert_item count_if
insert-count p x [] = refl
insert-count p x (y ∷ ys) = elim (Bool-cases (sort_less y.0 x.0)) [
  | inl less ↦ rw less (omega (arith, insert-count p x ys))
  | inr more ↦ rw more refl
]

pub sort_entries-count :
    (p : Triaged → Bool) (es : List Triaged) → count_if p (sort_entries es) ≡ count_if p es
unfolding sort_entries sorted_items count_if
sort_entries-count p [] = refl
sort_entries-count p (e ∷ es) = omega (
  arith,
  insert-count p (sort_key e, e) (sorted_items sort_less (keyed es)),
  sort_entries-count p es,
)

-- The entries of one kind.
abbrev of_kind : ℕ → Triaged → Bool
of_kind n e = order e.1 == n

ne_test : (a b : ℕ) → b < a → (a == b) ≡ false
ne_test a b h = ground arith

none-of-kind :
    (n m : ℕ) (xs : List Item)
    → n < m
    → All (Below m) xs
    → IsKeyed xs
    → keep (of_kind n) (entries xs) ≡ []
unfolding keep order sort_key
none-of-kind n m [] lt all k = refl
none-of-kind n m ((key, (e, t)) ∷ xs) lt all k =
    let le : m ≤ order t = subst (λ (j : ℕ × String). m ≤ j.0) (k.0) all.0 in
    rw (ne_test (order t) n (omega (arith, le))) (none-of-kind n m xs lt all.1 k.1)

abbrev Grouped : List Triaged → Type 0
Grouped es = es ≡ keep (of_kind 0) es ++ (keep (of_kind 1) es ++ keep (of_kind 2) es)

group : (xs : List Item) → IsSorted xs → IsKeyed xs → Grouped (entries xs)
unfolding keep order sort_key
group [] s k = refl
group ((key, (e, direct)) ∷ xs) s k = ap (λ (t : List Triaged). (e, direct) ∷ t) (group xs s.1 k.1)
group ((key, (e, adjacent)) ∷ xs) s k =
    let none0 : keep (of_kind 0) (entries xs) ≡ [] =
      none-of-kind 0 1 xs (omega arith) (subst (λ (j : ℕ × String). All (Below j.0) xs) k.0 s.0)
        k.1 in
    rw none0 (ap (λ (t : List Triaged). (e, adjacent) ∷ t) (rw none0 at (group xs s.1 k.1)))
group ((key, (e, context)) ∷ xs) s k =
    let later : All (Below 2) xs = subst (λ (j : ℕ × String). All (Below j.0) xs) k.0 s.0 in
    let none0 : keep (of_kind 0) (entries xs) ≡ [] = none-of-kind 0 2 xs (omega arith) later k.1 in
    let none1 : keep (of_kind 1) (entries xs) ≡ [] = none-of-kind 1 2 xs (omega arith) later k.1 in
    rw (none0, none1)
      (ap (λ (t : List Triaged). (e, context) ∷ t) (rw (none0, none1) at (group xs s.1 k.1)))

-- Whatever the queue and what the patterns take: the entries of the triage are those of the queue, each
-- as often, and stand in three groups, the shortlist first, then the adjacent ones, then the rest.
triage-Grouped :
    (re : Patterns) (md : String)
    → ((p : Triaged → Bool)
        → count_if p (triage re md)
          ≡ count_if p (map (λ (e : Parsed). (e, classify re e)) (parse_blocks re (blocks md))))
      × (triage re md
          ≡ keep (of_kind 0) (triage re md)
            ++ (keep (of_kind 1) (triage re md) ++ keep (of_kind 2) (triage re md)))
unfolding triage sort_entries
triage-Grouped re md =
    let es : List Triaged =
      map (λ (e : Parsed). (e, classify re e)) (parse_blocks re (blocks md)) in
    (
      λ p. sort_entries-count p es,
      group (sorted_items sort_less (keyed es)) (sorted_items-IsSorted (keyed es))
          (sorted-IsKeyed es),
    )
