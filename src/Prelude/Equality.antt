-- ===== src/Prelude/Equality.antt =====
-- Equality tests as an interface, with instances for numbers, texts and pairs.
use Prim.Native.Nat.{ℕ}
use Prim.Native.String.{String}
use mathlib.Core.Path.{◌≡◌, refl}
use mathlib.Core.Logic.{◌↔◌}
use mathlib.Core.Bool.{Bool, true, false, ◌&&◌}
use mathlib.Core.Option.{Option, none, some}
use native.Mathlib.Omega.{arith}
use text.Mathlib.Text.{◌==◌ as str_eq}
use text.Mathlib.TextEquality.{eq_iff}
use soundgate_paper.Prelude.Tests.{nat_beq, nat_beq_iff}

-- A type whose members a test tells apart.
pub record Eq {κ} (K : Type κ) : Type κ where
  pub same : K → K → Bool
  pub same_iff : (x y : K) → (same x y ≡ true) ↔ (x ≡ y)

instance abbrev pub string_eq : Eq String
string_eq = record { same = str_eq; same_iff = eq_iff }

abbrev pub ◌==◌ {κ} : {K : Type κ} ⦃d : Eq K⦄ → K → K → Bool
◌==◌ ⦃d⦄ x y = d.same x y

infix 50 ◌==◌
abbrev pair_same {ℓ κ} : {A : Type ℓ} {B : Type κ} ⦃e : Eq A⦄ ⦃f : Eq B⦄ → A × B → A × B → Bool
pair_same (a, b) (c, d) = a == c && b == d

pub pair_same_iff {ℓ κ} :
    {A : Type ℓ} {B : Type κ} ⦃e : Eq A⦄ ⦃f : Eq B⦄ (p q : A × B) → (pair_same p q ≡ true) ↔ (p ≡ q)
pair_same_iff ⦃e⦄ ⦃f⦄ (a, b) (c, d) = ground (arith, e.same_iff a c, f.same_iff b d)

instance abbrev pub pair_eq {ℓ κ} : {A : Type ℓ} {B : Type κ} ⦃e : Eq A⦄ ⦃f : Eq B⦄ → Eq (A × B)
pair_eq = record { same = pair_same; same_iff = pair_same_iff }

abbrev option_same {ℓ} : {A : Type ℓ} ⦃e : Eq A⦄ → Option A → Option A → Bool
option_same none none = true
option_same (some a) (some b) = a == b
option_same none (some b) = false
option_same (some a) none = false

pub option_same_iff {ℓ} :
    {A : Type ℓ} ⦃e : Eq A⦄ (o p : Option A) → (option_same o p ≡ true) ↔ (o ≡ p)
option_same_iff none none = ground arith
option_same_iff ⦃e⦄ (some a) (some b) = ground (arith, e.same_iff a b)
option_same_iff none (some b) = ground arith
option_same_iff (some a) none = ground arith

instance abbrev pub option_eq {ℓ} : {A : Type ℓ} ⦃e : Eq A⦄ → Eq (Option A)
option_eq = record { same = option_same; same_iff = option_same_iff }

instance abbrev pub nat_eq : Eq ℕ
nat_eq = record { same = nat_beq; same_iff = nat_beq_iff }

module _ {ℓ} {A : Type ℓ} ⦃e : Eq A⦄ where
  pub ==_refl : (a : A) → (a == a) ≡ true
  ==_refl a = (e.same_iff a a).1 refl

  pub ==_sym : (a b : A) → (a == b) ≡ (b == a)
  ==_sym a b = ground (arith, e.same_iff a b, e.same_iff b a)

  pub ==→eq : (a b : A) → (a == b) ≡ true → a ≡ b
  ==→eq a b h = (e.same_iff a b).0 h
