-- ===== src/Common/Dict.antt =====
-- JavaScript's `Map` with text keys: entries in insertion order; `set` on a present key replaces
-- the value in place.
pub mod Values
use mathlib.Core.Path.{◌≡◌, refl}
use mathlib.Core.Bool.{Bool, false}
use mathlib.Core.Option.{Option, none, some}
use mathlib.Core.List.{List, [], ◌∷◌}
use Prim.Native.String.{String}
use Prim.Native.Nat.{ℕ}
use native.Mathlib.Omega.{arith}
use text.Mathlib.Text.{◌==◌}
use text.Mathlib.TextEquality.{eq_iff}
use sentinel_vault.Common.Tests.{if◌then◌else◌, is_some}
use sentinel_vault.Common.Lists.{length, any}

abbrev pub Dict {ℓ} : Type ℓ → Type ℓ
Dict V = List (String × V)

module _ {ℓ} {V : Type ℓ} where
  -- `m.get(k)`
  unfoldable pub get : Dict V → String → Option V
  get [] k = none
  get ((j, v) ∷ m) k = if j == k then some v else get m k

  -- `m.has(k)`
  abbrev pub has : Dict V → String → Bool
  has m k = is_some (get m k)

  -- `m.set(k, v)`
  unfoldable pub set : Dict V → String → V → Dict V
  set [] k v = (k, v) ∷ []
  set ((j, w) ∷ m) k v = if j == k then (k, v) ∷ m else (j, w) ∷ set m k v

  -- `m.delete(k)`; a key stands at most once, so dropping every occurrence drops the one
  unfoldable pub delete : Dict V → String → Dict V
  delete [] k = []
  delete ((j, w) ∷ m) k = let rest = delete m k in if j == k then rest else (j, w) ∷ rest

  -- `[...m.values()]`
  unfoldable pub values : Dict V → List V
  values [] = []
  values ((j, v) ∷ m) = v ∷ values m

  -- `m.size`
  abbrev pub size : Dict V → ℕ
  size m = length m

module _ {ℓ} {V : Type ℓ} where
  pub get-set :
      (m : Dict V) (k j : String) (v : V) → get (set m k v) j ≡ (if k == j then some v else get m j)
  unfolding get set
  get-set [] k j v = refl
  get-set ((i, w) ∷ m) k j v = ground (arith, eq_iff k j, eq_iff i k, eq_iff i j, get-set m k j v)

  pub get-delete :
      (m : Dict V) (k j : String) → get (delete m k) j ≡ (if k == j then none else get m j)
  unfolding get delete
  get-delete [] k j = ground arith
  get-delete ((i, w) ∷ m) k j = ground (arith, eq_iff k j, eq_iff i k, eq_iff i j, get-delete m k j)

  -- What no value satisfies, no value under a key satisfies.
  pub get-any :
      (p : V → Bool) (m : Dict V) (k : String) (v : V)
      → any p (values m) ≡ false
      → get m k ≡ some v
      → p v ≡ false
  unfolding get values
  get-any p [] k v h e = ground arith
  get-any p ((j, w) ∷ m) k v h e = ground (arith, get-any p m k v)
