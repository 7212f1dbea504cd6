-- ===== src/Prelude/Maps.antt =====
-- Dictionaries as association lists: `lookup` is `get`, `put` is assignment to a key.
use mathlib.Core.Path.{◌≡◌, refl}
use mathlib.Core.Bool.{Bool, true, false, not}
use mathlib.Core.List.{List, [], ◌∷◌}
use mathlib.Core.Option.{Option, none, some}
use native.Mathlib.Omega.{arith}
use soundgate_paper.Prelude.Tests.{if◌then◌else◌}
use soundgate_paper.Prelude.Equality.{Eq, ◌==◌}
use soundgate_paper.Prelude.Sets.{keep}
use soundgate_paper.Prelude.Lists.{length}
use Prim.Native.Nat.{suc}

abbrev pub is_some {ℓ} : {A : Type ℓ} → Option A → Bool
is_some none = false
is_some (some a) = true

module _ {ℓ κ} {K : Type ℓ} {V : Type κ} ⦃e : Eq K⦄ where
  unfoldable pub lookup : List (K × V) → K → Option V
  lookup [] k = none
  lookup ((j, v) ∷ m) k = if j == k then some v else lookup m k

  -- A key keeps its place when its value is replaced, and a new key goes last.
  unfoldable pub put : K → V → List (K × V) → List (K × V)
  put k v [] = (k, v) ∷ []
  put k v ((j, w) ∷ m) = if j == k then (j, v) ∷ m else (j, w) ∷ put k v m

  -- The entries whose keys pass a test.
  unfoldable pub keep_keys : (K → Bool) → List (K × V) → List (K × V)
  keep_keys p m = keep (λ (entry : K × V). p entry.0) m

  unfoldable pub erase : K → List (K × V) → List (K × V)
  erase k m = keep_keys (λ j. not (j == k)) m

  pub lookup-put :
      (k j : K) (v : V) (m : List (K × V))
      → lookup (put k v m) j ≡ (if k == j then some v else lookup m j)
  unfolding lookup put
  lookup-put k j v [] = refl
  lookup-put k j v ((i, w) ∷ m) =
      ground (arith, e.same_iff k j, e.same_iff i k, e.same_iff i j, lookup-put k j v m)

  pub length-put :
      (k : K) (v : V) (m : List (K × V))
      → is_some (lookup m k) ≡ false
      → length (put k v m) ≡ suc (length m)
  unfolding lookup put
  length-put k v [] new = refl
  length-put k v ((j, w) ∷ m) new = ground (arith, length-put k v m)

  pub lookup-keep_keys :
      (p : K → Bool) (j : K) (m : List (K × V))
      → lookup (keep_keys p m) j ≡ (if p j then lookup m j else none)
  unfolding lookup keep_keys keep
  lookup-keep_keys p j [] = ground arith
  lookup-keep_keys p j ((i, w) ∷ m) = ground (arith, e.same_iff i j, lookup-keep_keys p j m)

  pub lookup-erase :
      (k j : K) (m : List (K × V)) → lookup (erase k m) j ≡ (if j == k then none else lookup m j)
  unfolding erase
  lookup-erase k j m = ground (arith, lookup-keep_keys (λ i. not (i == k)) j m)
