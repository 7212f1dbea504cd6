-- ===== src/Soak/Segments.antt =====
-- soundgate/scripts/soak_wal.py, the loop of `main` over its segments, for the runs of one worker; the
-- time that a segment took, and whether a restarted server answered in time, are data.
use soundgate_paper.Node.Auth.{Digest}
use soundgate_paper.Prelude.{
  ℕ, ◌+◌, String, ◌≡◌, refl, Bool, true, false, ◌&&◌, List, [], ◌∷◌, All, ltb, nat_beq, Bool-cases,
  inl, inr, if◌then◌else◌,
}
use soundgate_paper.Wire.{Server}
use soundgate_paper.Wire.Laws.{IsSafe}
use soundgate_paper.Soak.Shared.{Stats, violation, never_answered}
use soundgate_paper.Soak.Worker.{Plan, Fault}
use soundgate_paper.Soak.Run.{worker}
use soundgate_paper.Soak.Run.Safe.{worker-sampled}

pub record Segment : Type 0 where
  pub runs : List (String × Plan × List (List Fault))
  pub elapsed : ℕ
  pub answers : Bool

-- The condition of the loop, and of a restart after a segment.
unfoldable pub goes_on : ℕ → ℕ → Stats → Bool
goes_on limit elapsed st = ltb elapsed limit && nat_beq st.violation_count 0

-- `restart(...)`, what it does to the statistics.
unfoldable pub restarted_stats : Bool → Stats → Stats
unfolding violation
restarted_stats answers st = if answers then st else violation never_answered st

module _ (S : Server) (hmac : Digest) (secret : String) (randrange : ℕ → ℕ) where
  -- What a segment leaves: the server is killed, and restarted unless the loop ends.
  unfoldable pub run_segment : ℕ → ℕ → Segment → S.State → Stats → S.State × Stats
  unfolding goes_on restarted_stats worker
  run_segment limit elapsed seg s st =
      let (s1, reconnects, st1) = worker S hmac secret randrange seg.runs s 0 st in
      if goes_on limit (elapsed + seg.elapsed) st1
      then (S.restart s1, restarted_stats seg.answers st1)
      else (s1, st1)

  unfoldable pub run_segments : ℕ → ℕ → List Segment → S.State → Stats → S.State × Stats
  unfolding run_segment
  run_segments limit elapsed [] s st = (s, st)
  run_segments limit elapsed (seg ∷ segs) s st =
      let (s1, st1) = run_segment limit elapsed seg s st in
      let rest = run_segments limit (elapsed + seg.elapsed) segs s1 st1 in
      if goes_on limit elapsed st then rest else (s, st)

  module _ {Inv : S.State → Type 0} {dead : S.State → String × String → Bool}
      (safe : IsSafe S Inv dead) where
    abbrev Sampled : S.State → Stats → Type 0
    Sampled s st = Inv s × All (λ i. dead s i ≡ true) st.reservoir

    over_restart :
        (is : List (String × String)) (s : S.State)
        → Inv s
        → All (λ i. dead s i ≡ true) is
        → All (λ i. dead (S.restart s) i ≡ true) is
    over_restart [] s inv h = tt
    over_restart (i ∷ is) s inv h = (safe.dead_restarts s i inv h.0, over_restart is s inv h.1)

    same_reservoir :
        (answers : Bool) (st : Stats) → (restarted_stats answers st).reservoir ≡ st.reservoir
    unfolding restarted_stats violation
    same_reservoir true st = refl
    same_reservoir false st = refl

    run_segment-Sampled :
        (limit elapsed : ℕ) (seg : Segment) (s : S.State) (st : Stats)
        → Sampled s st
        → let (s', st') = run_segment limit elapsed seg s st in Sampled s' st'
    unfolding run_segment
    run_segment-Sampled limit elapsed seg s st (inv, h) =
        let (s1, reconnects, st1) = worker S hmac secret randrange seg.runs s 0 st in
        let (inv1, h1) = worker-sampled S safe hmac secret randrange seg.runs s 0 st inv h in
        elim (Bool-cases (goes_on limit (elapsed + seg.elapsed) st1)) [
          | inl more ↦ rw more (
            safe.restart-Inv s1 inv1,
            rw (same_reservoir seg.answers st1) (over_restart st1.reservoir s1 inv1 h1),
          )
          | inr last ↦ rw last (inv1, h1)
        ]

    -- Over any segments of a safe server in its invariant, the sample holds dead identities only, if it
    -- did so before.
    pub run_segments-Sampled :
        (limit elapsed : ℕ) (segs : List Segment) (s : S.State) (st : Stats)
        → Inv s
        → All (λ i. dead s i ≡ true) st.reservoir
        → let (s', st') = run_segments limit elapsed segs s st in
          Inv s' × All (λ i. dead s' i ≡ true) st'.reservoir
    unfolding run_segments
    run_segments-Sampled limit elapsed [] s st inv h = (inv, h)
    run_segments-Sampled limit elapsed (seg ∷ segs) s st inv h =
        elim (Bool-cases (goes_on limit elapsed st)) [
          | inl more ↦
              let (s1, st1) = run_segment limit elapsed seg s st in
              let (inv1, h1) = run_segment-Sampled limit elapsed seg s st (inv, h) in
              rw more (run_segments-Sampled limit (elapsed + seg.elapsed) segs s1 st1 inv1 h1)
          | inr over ↦ rw over (inv, h)
        ]
