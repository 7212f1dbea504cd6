-- ===== src/Node/Bytes.antt =====
-- soundgate/src/main.rs, `recovery_barrier`: how the bytes of the log are read and its tail is repaired.
-- `serde_json` is a parameter: whether a line's bytes are a record. An I/O error ends the process.
pub mod Lines
pub mod Repairs
pub mod Durable
use soundgate_paper.Prelude.{
  take, drop, ℕ, zero, suc, ◌+◌, Bool, true, false, ◌&&◌, ◌||◌, Option, none, some, List, [], ◌∷◌,
  ◌++◌, length, ltb, ◌==◌, nat_eq, if◌then◌else◌,
}

abbrev pub Bytes : Type 0
Bytes = List ℕ

-- b'\n', and the bytes that `is_ascii_whitespace` takes.
abbrev pub newline : ℕ
newline = 10

abbrev is_whitespace : ℕ → Bool
is_whitespace b = b == 32 || (b == 9 || (b == 10 || (b == 12 || b == 13)))

unfoldable pub is_blank : Bytes → Bool
is_blank [] = true
is_blank (b ∷ bs) = is_whitespace b && is_blank bs

-- The length up to the last newline, that included.
unfoldable pub complete_len : Bytes → ℕ
complete_len [] = 0
complete_len (b ∷ bs) =
    let n = complete_len bs in if ltb 0 n then suc n else if b == newline then 1 else 0

-- `split(|&b| b == b'\n')`
abbrev pub onto : ℕ → List Bytes → List Bytes
onto b [] = (b ∷ []) ∷ []
onto b (l ∷ ls) = (b ∷ l) ∷ ls

unfoldable pub split : Bytes → List Bytes
split [] = [] ∷ []
split (b ∷ bs) = let rest = split bs in if b == newline then [] ∷ rest else onto b rest

-- The events of the lines, or the number of the first line that is no record.
pub data Read (Ev : Type 0) : Type 0 where
  unparsable : ℕ → Read Ev
  events : List Ev → Read Ev

abbrev pub and_event : {Ev : Type 0} → Ev → Read Ev → Read Ev
and_event ev (unparsable i) = unparsable i
and_event ev (events evs) = events (ev ∷ evs)

-- The process refuses to start, or has these events and this file.
pub data Recovered (Ev : Type 0) : Type 0 where
  refused : ℕ → Recovered Ev
  started : List Ev → Bytes → Recovered Ev

abbrev pub record_or : {Ev : Type 0} → Option Ev → ℕ → Read Ev → Read Ev
record_or none i rest = unparsable (i + 1)
record_or (some ev) i rest = and_event ev rest

abbrev pub complete_tail : {Ev : Type 0} → Option Ev → List Ev → Bytes → Bytes → Recovered Ev
complete_tail (some ev) evs complete tail =
    started (evs ++ ev ∷ []) (complete ++ (tail ++ newline ∷ []))
complete_tail none evs complete tail = started evs complete

module _ {Ev : Type 0} (parse : Bytes → Option Ev) where
  unfoldable pub read_lines : ℕ → List Bytes → Read Ev
  unfolding is_blank
  read_lines i [] = events []
  read_lines i (l ∷ ls) =
      let rest = read_lines (i + 1) ls in if is_blank l then rest else record_or (parse l) i rest

  unfoldable pub repair_tail : List Ev → Bytes → Bytes → Recovered Ev
  unfolding is_blank
  repair_tail evs complete [] = started evs complete
  repair_tail evs complete (b ∷ bs) =
      if is_blank (b ∷ bs)
      then started evs complete
      else complete_tail (parse (b ∷ bs)) evs complete (b ∷ bs)

  unfoldable pub repaired : Read Ev → Bytes → Bytes → Recovered Ev
  unfolding repair_tail
  repaired (unparsable i) complete tail = refused i
  repaired (events evs) complete tail = repair_tail evs complete tail

  unfoldable pub recovery_barrier : Bytes → Recovered Ev
  unfolding complete_len split read_lines repaired
  recovery_barrier bytes =
      let n = complete_len bytes in
      repaired (read_lines 0 (split (take n bytes))) (take n bytes) (drop n bytes)
