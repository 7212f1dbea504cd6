-- ===== src/Node/Bytes/Durable.antt =====
-- soundgate/src/main.rs: a crash while `handle` waits for its record to be written, and `recovery_barrier`.
use soundgate_paper.Prelude.{
  ℕ, String, ◌≡◌, refl, sym, ap, ◌∙◌, Bool, true, false, Option, none, some, List, [], ◌∷◌, ◌++◌,
  map, All, All-append, ◌⊎◌, inl,
}
use mathlib.Core.Path.{subst}
use mathlib.Core.List.{append-nil, map-append}
use soundgate_paper.Wire.{Request, close}
use soundgate_paper.Gate.Defs.{EffectId, Event, empty, replay}
use soundgate_paper.Gate.Phase.{phase, durable}
use soundgate_paper.Node.Defs.{Node, event_for, answer, is_due, append_event, handle}
use soundgate_paper.Node.Invariant.{IsDurable, handle-IsDurable}
use soundgate_paper.Node.Bytes.{
  Bytes, newline, is_blank, complete_len, split, read_lines, repair_tail, repaired, started,
  recovery_barrier,
}
use soundgate_paper.Node.Bytes.Lines.{OneLine, flat, flat-append}
use soundgate_paper.Node.Bytes.Repairs.{IsCoded, restart_again}

-- Without a compaction, the log gets the record of the request.
log-handle :
    (mac_ok : String → String → Bool → Option String → Bool) (threshold : ℕ) (n : Node)
    (q : Request)
    → is_due threshold n ≡ false
    → (handle mac_ok threshold n q).0.log
      ≡ append_event (event_for q (answer mac_ok n.gate q).1) n.log
unfolding handle answer
log-handle mac_ok threshold n (close run) no_compaction = rw no_compaction refl
log-handle mac_ok threshold n q no_compaction = refl

module _ (parse : Bytes → Option Event) (encode : Event → Bytes) where
  -- The bytes of the log.
  abbrev pub file : Node → Bytes
  file n = flat (map encode n.log)

  empty-started : recovery_barrier parse [] ≡ started [] []
  unfolding recovery_barrier complete_len split read_lines repaired repair_tail is_blank
  empty-started = refl

  flat-snoc :
      (evs : List Event) (ev : Event)
      → flat (map encode (evs ++ ev ∷ [])) ≡ flat (map encode evs) ++ (encode ev ++ newline ∷ [])
  unfolding flat
  flat-snoc evs ev =
      ap flat (map-append encode evs (ev ∷ [])) ∙ flat-append (map encode evs) (encode ev ∷ [])

  whole-read :
      (evs : List Event) (ev : Event)
      → All (IsCoded parse encode) evs
      → IsCoded parse encode ev
      → recovery_barrier parse (flat (map encode evs)) ≡ started evs (flat (map encode evs))
  unfolding is_blank
  whole-read evs ev cs c =
      ap (recovery_barrier parse) (sym (append-nil (flat (map encode evs))))
      ∙ (restart_again parse encode [] [] [] evs [] ev empty-started cs c tt (inl refl)).0

  -- A request whose record is written, where no compaction is due and the log is exact, with a codec that
  -- reads the records back. A crash that leaves a blank or torn piece of the record recovers the log and
  -- file from before the request; one that leaves the record, with its newline or without, those from after
  -- it. Either log rebuilds the phases of its gate, its holds apart.
  pub crash-handle :
      (mac_ok : String → String → Bool → Option String → Bool) (threshold : ℕ) (n : Node)
      (q : Request) (ev : Event) (torn : Bytes) (i : EffectId)
      → IsDurable n
      → is_due threshold n ≡ false
      → event_for q (answer mac_ok n.gate q).1 ≡ some ev
      → All (IsCoded parse encode) n.log
      → IsCoded parse encode ev
      → OneLine torn
      → (is_blank torn ≡ true) ⊎ (parse torn ≡ none)
      → let n' = (handle mac_ok threshold n q).0 in
        (recovery_barrier parse (file n ++ torn) ≡ started n.log (file n))
        × (recovery_barrier parse (file n ++ encode ev) ≡ started n'.log (file n'))
        × (recovery_barrier parse (file n') ≡ started n'.log (file n'))
        × (phase (replay empty n.log) i ≡ durable (phase n.gate i))
        × (phase (replay empty n'.log) i ≡ durable (phase n'.gate i))
  crash-handle mac_ok threshold n q ev torn i d no_compaction written cs c one lost =
      let n' = (handle mac_ok threshold n q).0 in
      let log : n'.log ≡ n.log ++ ev ∷ [] =
        log-handle mac_ok threshold n q no_compaction ∙ ap (λ e. append_event e n.log) written in
      let (before, after) =
        restart_again parse encode [] [] [] n.log torn ev empty-started cs c one lost in
      let bytes : file n' ≡ file n ++ (encode ev ++ newline ∷ []) =
        ap (λ evs. flat (map encode evs)) log ∙ flat-snoc n.log ev in
      (
        before,
        after ∙ (λ k. started (sym log k) (sym bytes k)),
        subst
            (λ evs.
              recovery_barrier parse (flat (map encode evs)) ≡ started evs (flat (map encode evs)))
            (sym log)
            (whole-read (n.log ++ ev ∷ []) ev
              (All-append (IsCoded parse encode) n.log (ev ∷ []) cs (c, tt)) c),
        d.rebuilds.exact i,
        (handle-IsDurable mac_ok threshold n q d).rebuilds.exact i,
      )
