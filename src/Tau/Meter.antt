-- ===== src/Tau/Meter.antt =====
-- soundgate/e2e/taubench_exposure.py, `BudgetMeter`: the cap on the agent model's tokens.
use soundgate_paper.Prelude.{ℕ, ◌+◌, ◌≡◌, refl, Bool, false, Option, none, some, arith, leb}

pub record Usage : Type 0 where
  pub prompt_tokens : ℕ
  pub completion_tokens : ℕ

pub record Meter : Type 0 where
  pub cap : Option ℕ
  pub prompt : ℕ
  pub completion : ℕ

unfoldable pub add : Usage → Meter → Meter
add u m = record m {
  prompt = m.prompt + u.prompt_tokens;
  completion = m.completion + u.completion_tokens;
}

abbrev pub total : Meter → ℕ
total m = m.prompt + m.completion

unfoldable pub exceeded : Meter → Bool
exceeded m = reached m.cap
  where
    reached : Option ℕ → Bool
    reached none = false
    reached (some c) = leb c (total m)

-- `if usage: meter.add(usage)`, where a missing or an empty usage adds nothing.
unfoldable pub charge : Option Usage → Meter → Meter
unfolding add
charge none m = m
charge (some u) m = add u m

abbrev pub cost : Option Usage → ℕ
cost none = 0
cost (some u) = u.prompt_tokens + u.completion_tokens

pub total-charge : (u : Option Usage) (m : Meter) → total (charge u m) ≡ total m + cost u
unfolding charge add
total-charge none m = omega arith
total-charge (some u) m = omega arith

pub cap-charge : (u : Option Usage) (m : Meter) → (charge u m).cap ≡ m.cap
unfolding charge add
cap-charge none m = refl
cap-charge (some u) m = refl
