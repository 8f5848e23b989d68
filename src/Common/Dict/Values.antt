-- ===== src/Common/Dict/Values.antt =====
-- Searching the values of a `Map`, whose keys are distinct.
use mathlib.Core.Path.{◌≡◌, refl, sym, ◌∙◌}
use mathlib.Core.Logic.{inl, inr}
use mathlib.Core.Bool.{Bool, true, false, false≢true}
use mathlib.Core.Option.{none, some}
use mathlib.Core.List.{[], ◌∷◌}
use Prim.Native.String.{String}
use native.Mathlib.Omega.{arith}
use text.Mathlib.Text.{◌==◌}
use text.Mathlib.TextEquality.{eq_iff}
use text.Mathlib.TextPositions.{eq_refl}
use sentinel_vault.Common.Tests.{Bool-cases}
use sentinel_vault.Common.Lists.{any, find}
use sentinel_vault.Common.Dict.{Dict, get, set, values}

module _ {ℓ} {V : Type ℓ} where
  abbrev pub has_key : String → Dict V → Bool
  has_key k m = any (λ e. e.0 == k) m

  abbrev pub DistinctKeys : Dict V → Type 0
  DistinctKeys [] = Unit
  DistinctKeys ((k, v) ∷ m) = (has_key k m ≡ false) × DistinctKeys m

  has_key-set :
      (m : Dict V) (k j : String) (v : V) → k == j ≡ false → has_key j (set m k v) ≡ has_key j m
  unfolding set
  has_key-set [] k j v h = ground arith
  has_key-set ((i, w) ∷ m) k j v h =
      ground (arith, has_key-set m k j v h, eq_iff i k, eq_iff i j, eq_iff k j)

  pub set-DistinctKeys :
      (m : Dict V) (k : String) (v : V) → DistinctKeys m → DistinctKeys (set m k v)
  unfolding set
  set-DistinctKeys [] k v d = (refl, tt)
  set-DistinctKeys ((i, w) ∷ m) k v d = elim (Bool-cases (i == k)) [
    | inl same ↦ rw same (rw ((eq_iff i k).0 same) at d.0, d.1)
    | inr other ↦ rw other (
      has_key-set m k i v (ground (arith, eq_iff i k, eq_iff k i)) ∙ d.0,
      set-DistinctKeys m k v d.1,
    )
  ]

  get-has_key : (m : Dict V) (k : String) (v : V) → get m k ≡ some v → has_key k m ≡ true
  unfolding get
  get-has_key [] k v h = cc
  get-has_key ((i, w) ∷ m) k v h = ground (arith, get-has_key m k v)

  -- The value that a search finds stands under a key.
  pub find-get :
      (p : V → Bool) (m : Dict V) (v : V)
      → DistinctKeys m
      → find p (values m) ≡ some v
      → (k : String) × (get m k ≡ some v) × (p v ≡ true)
  unfolding get values
  find-get p [] v d h = cc
  find-get p ((j, w) ∷ m) v d h = elim (Bool-cases (p w)) [
    | inl hit ↦
        let same : (w ≡ v) = ground (arith, h, hit) in
        (j, rw eq_refl (rw same refl), rw same at hit)
    | inr miss ↦
        let (k, there, found) = find-get p m v d.1 (rw miss at h) in
        let other : j == k ≡ false = elim (Bool-cases (j == k)) [
          | inl same ↦
              let e = (eq_iff j k).0 same in
              let has = get-has_key m k v there in absurd (false≢true (sym (rw e at d.0) ∙ has))
          | inr apart ↦ apart
        ] in
        (k, rw other there, found)
  ]

  -- A search that finds nothing passed over the value of each key.
  pub find-none :
      (p : V → Bool) (m : Dict V) (k : String) (v : V)
      → find p (values m) ≡ none
      → get m k ≡ some v
      → p v ≡ false
  unfolding get values
  find-none p [] k v h e = cc
  find-none p ((j, w) ∷ m) k v h e = ground (arith, find-none p m k v)
