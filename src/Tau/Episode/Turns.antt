-- ===== src/Tau/Episode/Turns.antt =====
-- What a recorded batch of tool calls says: its counts and its flags agree.
use soundgate_paper.Prelude.{ℕ, ◌+◌, ◌≤◌, ◌≡◌, true, Option, List, length, string_eq, pair_eq, All}
use soundgate_paper.Tau.Tools.{Domain}
use soundgate_paper.Tau.Meter.{Meter}
use soundgate_paper.Tau.Episode.{
  Reply, Message, Turn, Environment, Json, Ended, finished, budget_exceeded, failed, Loop,
}

-- A batch has a call; its consequential and benign calls are different ones; the distinct
-- consequential calls are among the consequential ones; and the flags follow from each other.
pub record IsTurn {Args : Type 0} (t : Turn Args) : Type 0 where
  pub some_tool : 1 ≤ t.n_tools
  pub apart : t.n_cons + t.n_benign ≤ t.n_tools
  pub distinct_le : t.distinct_cons ≤ t.n_cons
  pub cons_flag : t.cons_sibling ≡ true → t.any_sibling ≡ true
  pub benign_flag : t.benign_sibling ≡ true → t.any_sibling ≡ true
  pub any_flag : t.any_sibling ≡ true → t.is_cons_batch ≡ true

module _ (J : Json) (E : Environment J.Args) {M : Type 0}
    (complete : M → List Message → Option (M × Reply)) (env : Domain) where
  abbrev AllTurns : ℕ → Ended J.Args → Type 0
  AllTurns bound (finished ts) = All IsTurn ts × (length ts ≤ bound)
  AllTurns bound budget_exceeded = Unit
  AllTurns bound failed = Unit

  abbrev Next : Type 0
  Next = Loop J E complete env → Meter × Ended J.Args

  abbrev Steady : ℕ → Next → Type 0
  Steady n next =
      (l : Loop J E complete env) → All IsTurn l.turns → AllTurns (n + length l.turns) (next l).1
