-- ===== src/Common/Exec.antt =====
-- A handler mutates the service's state and may throw a NestJS `HttpException`. What was written
-- before a throw stays written, so the state comes back beside the error too. An exception is its
-- class (its HTTP status); the message texts are not modelled.
use sentinel_vault.Common.Tests.{if◌then◌else◌}
use mathlib.Core.Path.{◌≡◌, refl, ap}
use mathlib.Core.Bool.{Bool, true, false}
use mathlib.Core.Option.{Option, none, some}

-- 400, 401, 403, 404, 409, 410, 423, 500
pub data HttpError : Type 0 where
  bad_request unauthorized forbidden not_found conflict gone locked internal_error : HttpError

pub data Result {ℓ} (A : Type ℓ) : Type ℓ where
  ok : A → Result A
  err : HttpError → Result A

abbrev pub Exec {ℓ κ} : Type ℓ → Type κ → Type (ℓ ⊔ κ)
Exec S A = S → Result A × S

module _ {ℓ κ} {S : Type ℓ} {A : Type κ} where
  abbrev pub pure : A → Exec S A
  pure a s = (ok a, s)

  -- `throw`
  abbrev pub raise : HttpError → Exec S A
  raise e s = (err e, s)

  abbrev pub gets : (S → A) → Exec S A
  gets f s = (ok (f s), s)

  -- `if (!x) throw`
  abbrev pub or_raise : Option A → HttpError → Exec S A
  or_raise none e = raise e
  or_raise (some a) e = pure a

module _ {ℓ} {S : Type ℓ} where
  abbrev pub raise_if : Bool → HttpError → Exec S (Unit {0})
  raise_if c e s = (if c then err e else ok tt, s)

  abbrev pub modify : (S → S) → Exec S (Unit {0})
  modify f s = (ok tt, f s)

module _ {ℓ κ μ} {S : Type ℓ} {A : Type κ} {B : Type μ} where
  infixl 5 ◌>>=◌ ◌>>◌
  abbrev pub ◌>>=◌ : Exec S A → (A → Exec S B) → Exec S B
  ◌>>=◌ m f s = let (r, s') = m s in elim r [ ok a ↦ f a s' | err e ↦ (err e, s') ]

  abbrev pub ◌>>◌ : Exec S A → Exec S B → Exec S B
  m >> k = m >>= λ _. k

module _ {ℓ κ μ} {S : Type ℓ} {A : Type κ} {B : Type μ} where
  -- A function of what a handler returns leaves the handler's state.
  pub bind-pure : (m : Exec S A) (f : A → B) (s : S) → ((m >>= λ a. pure (f a)) s).1 ≡ (m s).1
  bind-pure m f s = go (m s).0 (m s).1
    where
      go :
          (r : Result A) (s' : S)
          → (elim r as (λ _. Result B × S) [ ok a ↦ (ok (f a), s') | err e ↦ (err e, s') ]).1 ≡ s'
      go (ok a) s' = refl
      go (err e) s' = refl

  pub bind-ok :
      (m : Exec S A) (k : A → Exec S B) (s s' : S) (a : A) → m s ≡ (ok a, s') → (m >>= k) s ≡ k a s'
  bind-ok m k s s' a e =
      ap
        (λ (p : Result A × S). elim p.0 as (λ _. Result B × S) [
          | ok a ↦ k a p.1
          | err e ↦ (err e, p.1)
        ])
        e

-- Whether a handler returned.
abbrev pub succeeds {ℓ} : {A : Type ℓ} → Result A → Bool
succeeds (ok a) = true
succeeds (err e) = false
