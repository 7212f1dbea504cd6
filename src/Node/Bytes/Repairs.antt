-- ===== src/Node/Bytes/Repairs.antt =====
-- soundgate/src/main.rs, `recovery_barrier`: recovery after recovery.
use soundgate_paper.Prelude.{
  ℕ, ◌+◌, ◌≡◌, refl, sym, ap, ◌∙◌, true, false, Option, none, some, List, [], ◌∷◌, ◌++◌, map, All,
  All-append, ◌⊎◌, Bool-cases, Option-cases, inl, inr,
}
use mathlib.Core.Path.{subst}
use mathlib.Core.List.{append_assoc}
use soundgate_paper.Node.Bytes.{
  Bytes, newline, is_blank, Read, unparsable, events, read_lines, repair_tail, repaired, Recovered,
  refused, started, recovery_barrier,
}
use soundgate_paper.Node.Bytes.Lines.{
  OneLine, flat, flat-append, Parts, parts, recovery-parts, read_lines-append,
}

-- What the code relies on of `serde_json`, for a record: its text is one line and not blank, and is read back.
pub record IsCoded {Ev : Type 0} (parse : Bytes → Option Ev) (encode : Ev → Bytes) (ev : Ev)
    : Type 0 where
  pub one_line : OneLine (encode ev)
  pub not_blank : is_blank (encode ev) ≡ false
  pub reads_back : parse (encode ev) ≡ some ev

module _ {Ev : Type 0} (parse : Bytes → Option Ev) where
  -- A file of whole lines with these events.
  record IsWhole (evs : List Ev) (file : Bytes) : Type 0 where
    lines : List Bytes
    one_line : All OneLine lines
    joined : file ≡ flat lines
    reads : read_lines parse 0 lines ≡ events evs

  line_read :
      (l : Bytes) (ev : Ev)
      → is_blank l ≡ false
      → parse l ≡ some ev
      → (j : ℕ) → read_lines parse j (l ∷ []) ≡ events (ev ∷ [])
  unfolding read_lines
  line_read l ev written whole j = rw (written, whole) refl

  -- A recovery's file is whole.
  abbrev Good : Recovered Ev → Type 0
  Good (refused i) = Unit
  Good (started evs file) = IsWhole evs file

  tail-Good :
      (ls : List Bytes) (t : Bytes) (es : List Ev)
      → All OneLine ls
      → OneLine t
      → read_lines parse 0 ls ≡ events es
      → Good (repair_tail parse es (flat ls) t)
  unfolding repair_tail flat
  tail-Good ls [] es all one r = record { lines = ls; one_line = all; joined = refl; reads = r }
  tail-Good ls (b ∷ bs) es all one r = elim (Bool-cases (is_blank (b ∷ bs))) [
    | inl blank ↦ rw blank (record { lines = ls; one_line = all; joined = refl; reads = r })
    | inr written ↦ elim (Option-cases (parse (b ∷ bs))) [
      | inl torn ↦
          rw (written, torn) (record { lines = ls; one_line = all; joined = refl; reads = r })
      | inr (ev, whole) ↦
          rw (written, whole)
            (record {
              lines = ls ++ (b ∷ bs) ∷ [];
              one_line = All-append OneLine ls ((b ∷ bs) ∷ []) all (one, tt);
              joined = sym (flat-append ls ((b ∷ bs) ∷ []));
              reads =
                  read_lines-append parse ls ((b ∷ bs) ∷ []) es (ev ∷ []) r
                    (λ j. line_read (b ∷ bs) ev written whole j);
            })
    ]
  ]

  recovery-Good : (bytes : Bytes) → Good (recovery_barrier parse bytes)
  unfolding repaired
  recovery-Good bytes =
      let p : Parts bytes = parts bytes in
      subst Good
        (sym (
          ap (recovery_barrier parse) p.joined
          ∙ recovery-parts parse p.lines p.tail p.one_line p.tail_line))
        (read (read_lines parse 0 p.lines) refl)
    where
      read :
          (r : Read Ev)
          → read_lines parse 0 (parts bytes).lines ≡ r
          → Good (repaired parse r (flat (parts bytes).lines) (parts bytes).tail)
      read (unparsable i) h = tt
      read (events es) h =
          tail-Good (parts bytes).lines (parts bytes).tail es (parts bytes).one_line
            (parts bytes).tail_line h

  torn-cut :
      (es : List Ev) (f t : Bytes)
      → (is_blank t ≡ true) ⊎ (parse t ≡ none)
      → repair_tail parse es f t ≡ started es f
  unfolding repair_tail
  torn-cut es f [] lost = refl
  torn-cut es f (b ∷ bs) (inl blank) = rw blank refl
  torn-cut es f (b ∷ bs) (inr none_there) = elim (Bool-cases (is_blank (b ∷ bs))) [
    | inl blank ↦ rw blank refl
    | inr written ↦ rw (written, none_there) refl
  ]

  whole-kept :
      (es : List Ev) (f : Bytes) (ev : Ev) (t : Bytes)
      → is_blank t ≡ false
      → parse t ≡ some ev
      → repair_tail parse es f t ≡ started (es ++ ev ∷ []) (f ++ (t ++ newline ∷ []))
  unfolding repair_tail is_blank
  whole-kept es f ev [] written whole = absurd (cc)
  whole-kept es f ev (b ∷ bs) written whole = rw (written, whole) refl

  module _ (encode : Ev → Bytes) where
    -- The bytes of appended records.
    abbrev appended : List Ev → Bytes
    appended evs = flat (map encode evs)

    encoded-read :
        (evs : List Ev)
        → All (IsCoded parse encode) evs
        → (j : ℕ) → read_lines parse j (map encode evs) ≡ events evs
    unfolding read_lines
    encoded-read [] cs j = refl
    encoded-read (ev ∷ evs) (c, cs) j =
        rw (c.not_blank, c.reads_back, encoded-read evs cs (j + 1)) refl

    encoded-OneLine :
        (evs : List Ev) → All (IsCoded parse encode) evs → All OneLine (map encode evs)
    encoded-OneLine [] cs = tt
    encoded-OneLine (ev ∷ evs) (c, cs) = (c.one_line, encoded-OneLine evs cs)

    -- Recovery of a whole file with more records and a tail.
    recovery-appended :
        (evs more : List Ev) (file t : Bytes)
        → IsWhole evs file
        → All (IsCoded parse encode) more
        → OneLine t
        → recovery_barrier parse (file ++ (appended more ++ t))
          ≡ repair_tail parse (evs ++ more) (file ++ appended more) t
    unfolding repaired
    recovery-appended evs more file t w cs one =
        let all : List Bytes = w.lines ++ map encode more in
        let bytes : flat all ≡ file ++ appended more =
          flat-append w.lines (map encode more)
          ∙ ap (λ (f : Bytes). f ++ appended more) (sym w.joined) in
        let joined : file ++ (appended more ++ t) ≡ flat all ++ t =
          sym (append_assoc file (appended more) t) ∙ ap (λ (f : Bytes). f ++ t) (sym bytes) in
        ap (recovery_barrier parse) joined
        ∙ recovery-parts parse all t
            (All-append OneLine w.lines (map encode more) w.one_line (encoded-OneLine more cs)) one
        ∙ ap (λ (r : Read Ev). repaired parse r (flat all) t)
            (read_lines-append parse w.lines (map encode more) evs more w.reads
              (encoded-read more cs))
        ∙ ap (λ (f : Bytes). repair_tail parse (evs ++ more) f t) bytes

    -- From any bytes on which the process starts, if the codec reads the records back: after more records,
    -- and a crash that leaves a line's bytes that are blank or no record, the next recovery has the events
    -- of the first and those records, and cuts the rest off; and a whole record without its newline is kept
    -- and completed.
    pub restart_again :
        (bytes file : Bytes) (evs more : List Ev) (torn : Bytes) (ev : Ev)
        → recovery_barrier parse bytes ≡ started evs file
        → All (IsCoded parse encode) more
        → IsCoded parse encode ev
        → OneLine torn
        → (is_blank torn ≡ true) ⊎ (parse torn ≡ none)
        → (recovery_barrier parse (file ++ (flat (map encode more) ++ torn))
            ≡ started (evs ++ more) (file ++ flat (map encode more)))
          × (recovery_barrier parse (file ++ (flat (map encode more) ++ encode ev))
              ≡ started
                  ((evs ++ more) ++ ev ∷ [])
                  ((file ++ flat (map encode more)) ++ (encode ev ++ newline ∷ [])))
    restart_again bytes file evs more torn ev h cs c one lost =
        let w : IsWhole evs file = subst Good h (recovery-Good bytes) in
        (
          recovery-appended evs more file torn w cs one
              ∙ torn-cut (evs ++ more) (file ++ appended more) torn lost,
          recovery-appended evs more file (encode ev) w cs c.one_line
              ∙ whole-kept (evs ++ more) (file ++ appended more) ev (encode ev) c.not_blank
                  c.reads_back,
        )
