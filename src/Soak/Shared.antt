-- ===== src/Soak/Shared.antt =====
-- soundgate/scripts/soak_wal.py, `Shared` and the statistics `st` that it updates. A violation is
-- what its text says; the random generator's `randrange(n)` is the parameter `randrange`.
use soundgate_paper.Prelude.{
  ℕ, ◌+◌, min, String, ◌≡◌, Bool, true, false, List, [], ◌∷◌, ◌++◌, arith, length, All, ltb, set,
  length-set, length-append, All-set, All-append, Bool-cases, inl, inr, if◌then◌else◌,
}
use soundgate_paper.Wire.{Reply}

pub data Violation : Type 0 where
  double_release release_after_reject release_in_fenced re_released : String → String → Violation
  strict : String → Reply → Reply → Violation
  never_answered : Violation

-- The oracles O1, O2 and O3.
abbrev pub is_oracle : Violation → Bool
is_oracle (double_release run key) = true
is_oracle (release_after_reject run key) = true
is_oracle (release_in_fenced run key) = true
is_oracle (re_released run key) = false
is_oracle (strict what got want) = false
is_oracle never_answered = false

pub record Stats : Type 0 where
  pub ops : ℕ
  pub runs : ℕ
  pub runs_strict : ℕ
  pub runs_spanning_restart : ℕ
  pub runs_cancelled : ℕ
  pub reconnects : ℕ
  pub explained : ℕ  -- strict_mismatch_explained_by_restart
  pub identities_released : ℕ
  pub reservoir : List (String × String)
  pub reservoir_seen : ℕ
  pub violations : List Violation
  pub violation_count : ℕ

abbrev pub no_stats : Stats
no_stats = record {
  ops = 0;
  runs = 0;
  runs_strict = 0;
  runs_spanning_restart = 0;
  runs_cancelled = 0;
  reconnects = 0;
  explained = 0;
  identities_released = 0;
  reservoir = [];
  reservoir_seen = 0;
  violations = [];
  violation_count = 0;
}

unfoldable pub violation : Violation → Stats → Stats
violation v st = record st {
  violations = (if ltb (length st.violations) 50 then st.violations ++ v ∷ [] else st.violations);
  violation_count = st.violation_count + 1;
}

abbrev pub capacity : ℕ
capacity = 2000

module _ (randrange : ℕ → ℕ) where
  sample : String × String → List (String × String) → ℕ → List (String × String)
  sample i reservoir seen =
      if ltb (length reservoir) capacity
      then reservoir ++ i ∷ []
      else if ltb (randrange seen) capacity
      then set reservoir (randrange seen) i
      else reservoir

  unfoldable pub released : String → String → Stats → Stats
  unfolding sample
  released run key st = record st {
    identities_released = st.identities_released + 1;
    reservoir_seen = st.reservoir_seen + 1;
    reservoir = sample (run, key) st.reservoir (st.reservoir_seen + 1);
  }

  -- The reservoir holds the first identities that were released, up to its capacity, and is full
  -- from then on.
  abbrev pub IsSampled : Stats → Type 0
  IsSampled st = length st.reservoir ≡ min capacity st.reservoir_seen

  -- A release keeps the reservoir at the number of identities seen, up to its capacity.
  pub released-IsSampled :
      (run key : String) (st : Stats) → IsSampled st → IsSampled (released run key st)
  unfolding released
  released-IsSampled run key st h = ground (
    arith,
    h,
    length-append st.reservoir ((run, key) ∷ []),
    length-set st.reservoir (randrange (st.reservoir_seen + 1)) (run, key),
  )

  sample-All :
      (P : String × String → Type 0) (i : String × String) (reservoir : List (String × String))
      (seen : ℕ)
      → All P reservoir
      → P i
      → All P (sample i reservoir seen)
  unfolding sample
  sample-All P i reservoir seen h p = elim (Bool-cases (ltb (length reservoir) capacity)) [
    | inl room ↦ rw room (All-append P reservoir (i ∷ []) h (p, tt))
    | inr full ↦ rw full (elim (Bool-cases (ltb (randrange seen) capacity)) [
      | inl replaced ↦ rw replaced (All-set P reservoir (randrange seen) i h p)
      | inr left_out ↦ rw left_out h
    ])
  ]

  -- What holds of every sampled identity and of the one released now holds of the new sample.
  pub released-All :
      (P : String × String → Type 0) (run key : String) (st : Stats)
      → All P st.reservoir
      → P (run, key)
      → All P (released run key st).reservoir
  unfolding released
  released-All P run key st h p = sample-All P (run, key) st.reservoir (st.reservoir_seen + 1) h p
