-- ===== src/Node/Bytes/Lines.antt =====
-- soundgate/src/main.rs, `recovery_barrier`: the lines of the log's bytes.
use soundgate_paper.Prelude.{
  take-append, drop-append, ℕ, suc, ◌+◌, ◌≡◌, refl, ap, ◌∙◌, false, Option, none, some, List, [],
  ◌∷◌, ◌++◌, length, length-append, All, ◌==◌, nat_eq, arith, Bool-cases, ==→eq, inl, inr,
}
use mathlib.Core.List.{append_assoc}
use soundgate_paper.Node.Bytes.{
  Bytes, newline, is_blank, complete_len, onto, split, Read, unparsable, events, record_or,
  read_lines, repaired, recovery_barrier,
}

-- Bytes of one line.
abbrev pub OneLine : Bytes → Type 0
OneLine bs = All (λ b. (b == newline) ≡ false) bs

-- Lines, each with its newline.
unfoldable pub flat : List Bytes → Bytes
flat [] = []
flat (l ∷ ls) = l ++ newline ∷ flat ls

pub flat-append : (ls ms : List Bytes) → flat (ls ++ ms) ≡ flat ls ++ flat ms
unfolding flat
flat-append [] ms = refl
flat-append (l ∷ ls) ms = simp (flat-append ls ms, append_assoc)

complete_len-line :
    (l r : Bytes) → complete_len (l ++ newline ∷ r) ≡ length l + suc (complete_len r)
unfolding complete_len
complete_len-line [] r = ground arith
complete_len-line (b ∷ l) r = ground (arith, complete_len-line l r)

complete_len-tail : (t : Bytes) → OneLine t → complete_len t ≡ 0
unfolding complete_len
complete_len-tail [] h = refl
complete_len-tail (b ∷ t) h = rw (complete_len-tail t h.1) (rw (h.0) refl)

complete_len-flat :
    (ls : List Bytes) (t : Bytes) → OneLine t → complete_len (flat ls ++ t) ≡ length (flat ls)
unfolding flat
complete_len-flat [] t h = complete_len-tail t h
complete_len-flat (l ∷ ls) t h =
    ap complete_len (append_assoc l (newline ∷ flat ls) t)
    ∙ complete_len-line l (flat ls ++ t)
    ∙ omega (arith, complete_len-flat ls t h, length-append l (newline ∷ flat ls))

split-line : (l r : Bytes) → OneLine l → split (l ++ newline ∷ r) ≡ l ∷ split r
unfolding split
split-line [] r h = refl
split-line (b ∷ l) r h = rw (h.0) (ap (onto b) (split-line l r h.1))

split-flat : (ls : List Bytes) → All OneLine ls → split (flat ls) ≡ ls ++ [] ∷ []
unfolding flat
split-flat [] h = unfold split in refl
split-flat (l ∷ ls) h =
    split-line l (flat ls) h.0 ∙ ap (λ (t : List Bytes). l ∷ t) (split-flat ls h.1)

-- Any bytes are lines and a tail.
pub record Parts (bytes : Bytes) : Type 0 where
  pub lines : List Bytes
  pub tail : Bytes
  pub joined : bytes ≡ flat lines ++ tail
  pub one_line : All OneLine lines
  pub tail_line : OneLine tail

pub parts : (bytes : Bytes) → Parts bytes
unfolding flat
parts [] = record { lines = []; tail = []; joined = refl; one_line = tt; tail_line = tt }
parts (b ∷ bs) = elim (Bool-cases (b == newline)) [
  | inl ends ↦ line_end (==→eq b newline ends) (parts bs)
  | inr goes_on ↦ longer goes_on (parts bs)
]
  where
    line_end : b ≡ newline → Parts bs → Parts (b ∷ bs)
    line_end e p = record {
      lines = [] ∷ p.lines;
      tail = p.tail;
      joined = λ i. e i ∷ p.joined i;
      one_line = (tt, p.one_line);
      tail_line = p.tail_line;
    }

    by_lines :
        (ls : List Bytes) (t : Bytes)
        → (b == newline) ≡ false
        → bs ≡ flat ls ++ t
        → All OneLine ls
        → OneLine t
        → Parts (b ∷ bs)
    by_lines [] t h j all one = record {
      lines = [];
      tail = b ∷ t;
      joined = ap (λ (r : Bytes). b ∷ r) j;
      one_line = tt;
      tail_line = (h, one);
    }
    by_lines (l ∷ ls) t h j all one = record {
      lines = (b ∷ l) ∷ ls;
      tail = t;
      joined = ap (λ (r : Bytes). b ∷ r) j;
      one_line = ((h, all.0), all.1);
      tail_line = one;
    }

    longer : (b == newline) ≡ false → Parts bs → Parts (b ∷ bs)
    longer h p = by_lines p.lines p.tail h p.joined p.one_line p.tail_line

module _ {Ev : Type 0} (parse : Bytes → Option Ev) where
  read_lines-end :
      (i : ℕ) (ls : List Bytes) → read_lines parse i (ls ++ [] ∷ []) ≡ read_lines parse i ls
  unfolding read_lines
  read_lines-end i [] = unfold is_blank in refl
  read_lines-end i (l ∷ ls) = rw (read_lines-end (i + 1) ls) refl

  -- What the recovery does with lines and a tail.
  pub recovery-parts :
      (ls : List Bytes) (t : Bytes)
      → All OneLine ls
      → OneLine t
      → recovery_barrier parse (flat ls ++ t) ≡ repaired parse (read_lines parse 0 ls) (flat ls) t
  unfolding recovery_barrier
  recovery-parts ls t all one =
      rw
        (
          complete_len-flat ls t one,
          take-append (flat ls) t,
          drop-append (flat ls) t,
          split-flat ls all,
          read_lines-end 0 ls,
        )
        refl

  -- More events after those that are read.
  abbrev then_events : List Ev → Read Ev → Read Ev
  then_events fs (unparsable i) = unparsable i
  then_events fs (events es) = events (es ++ fs)

  record_or-then :
      (o : Option Ev) (i : ℕ) (fs : List Ev) (r : Read Ev)
      → record_or o i (then_events fs r) ≡ then_events fs (record_or o i r)
  record_or-then none i fs r = refl
  record_or-then (some ev) i fs (unparsable j) = refl
  record_or-then (some ev) i fs (events es) = refl

  read_lines-then :
      (i : ℕ) (ls ms : List Bytes) (fs : List Ev)
      → ((j : ℕ) → read_lines parse j ms ≡ events fs)
      → read_lines parse i (ls ++ ms) ≡ then_events fs (read_lines parse i ls)
  unfolding read_lines
  read_lines-then i [] ms fs all = all i
  read_lines-then i (l ∷ ls) ms fs all = elim (Bool-cases (is_blank l)) [
    | inl blank ↦ rw blank (read_lines-then (i + 1) ls ms fs all)
    | inr written ↦ rw (written) (
        ap (record_or (parse l) i) (read_lines-then (i + 1) ls ms fs all)
        ∙ record_or-then (parse l) i fs (read_lines parse (i + 1) ls))
  ]

  -- Reading lines one after another.
  pub read_lines-append :
      (ls ms : List Bytes) (es fs : List Ev)
      → read_lines parse 0 ls ≡ events es
      → ((j : ℕ) → read_lines parse j ms ≡ events fs)
      → read_lines parse 0 (ls ++ ms) ≡ events (es ++ fs)
  read_lines-append ls ms es fs h all = read_lines-then 0 ls ms fs all ∙ ap (then_events fs) h
