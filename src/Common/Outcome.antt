-- ===== src/Common/Outcome.antt =====
-- What a handler does on every branch: `Outcome Q E` says that a handler which returns leaves a
-- result and a state with `Q`, and one that throws leaves an error and a state with `E`. `Keeps P`
-- says that a handler keeps `P`, whether it returns or throws, with one rule for each way to build
-- a handler.
use mathlib.Core.Path.{◌≡◌, refl, subst}
use mathlib.Core.Bool.{Bool, true, false}
use mathlib.Core.Option.{Option, none, some}
use sentinel_vault.Common.Tests.{if◌then◌else◌}
use sentinel_vault.Common.Exec.{
  Exec, HttpError, Result, ok, err, pure, raise, gets, modify, or_raise, raise_if, ◌>>=◌,
}

abbrev pub Either {ℓ κ μ} :
    {S : Type ℓ} {A : Type κ} → (A → S → Type μ) → (HttpError → S → Type μ) → Result A × S → Type μ
Either Q E (ok a, s) = Q a s
Either Q E (err e, s) = E e s

pub record Outcome {ℓ κ μ} {S : Type ℓ} {A : Type κ} (Q : A → S → Type μ)
    (E : HttpError → S → Type μ) (m : Exec S A) (s : S) : Type μ where
  pub holds : Either Q E (m s)

module _ {ℓ κ μ} {S : Type ℓ} {A : Type κ} {Q : A → S → Type μ} {E : HttpError → S → Type μ} where
  pub Outcome-pure : (a : A) (s : S) → Q a s → Outcome Q E (pure a) s
  Outcome-pure a s q = record { holds = q }

  pub Outcome-gets : (f : S → A) (s : S) → Q (f s) s → Outcome Q E (gets f) s
  Outcome-gets f s q = record { holds = q }

  pub Outcome-or_raise :
      (o : Option A) (e : HttpError) (s : S)
      → ((a : A) → o ≡ some a → Q a s)
      → (o ≡ none → E e s)
      → Outcome Q E (or_raise o e) s
  Outcome-or_raise none e s q f = record { holds = f refl }
  Outcome-or_raise (some a) e s q f = record { holds = q a refl }

module _ {ℓ μ} {S : Type ℓ} {Q : Unit {0} → S → Type μ} {E : HttpError → S → Type μ} where
  pub Outcome-raise_if :
      (c : Bool) (e : HttpError) (s : S)
      → (c ≡ false → Q tt s)
      → (c ≡ true → E e s)
      → Outcome Q E (raise_if c e) s
  Outcome-raise_if true e s q f = record { holds = f refl }
  Outcome-raise_if false e s q f = record { holds = q refl }

  pub Outcome-modify : (f : S → S) (s : S) → Q tt (f s) → Outcome Q E (modify f) s
  Outcome-modify f s q = record { holds = q }

module _ {ℓ κ ν μ} {S : Type ℓ} {A : Type κ} {B : Type ν} {Q : B → S → Type μ}
    {E : HttpError → S → Type μ} where
  pub Outcome-bind :
      (m : Exec S A) (f : A → Exec S B) (s : S)
      → Outcome (λ a s'. Outcome Q E (f a) s') E m s
      → Outcome Q E (m >>= f) s
  Outcome-bind m f s h = record { holds = go (m s) h.holds }
    where
      go :
          (r : Result A × S)
          → Either (λ a s'. Outcome Q E (f a) s') E r
          → Either Q E (elim r.0 as (λ _. Result B × S) [ ok a ↦ f a r.1 | err e ↦ (err e, r.1) ])
      go (ok a, s') h = h.holds
      go (err e, s') h = h

pub ruleset outcome_rules =
    (Outcome-pure, Outcome-gets, Outcome-or_raise, Outcome-raise_if, Outcome-modify, Outcome-bind)

module _ {ℓ κ μ} {S : Type ℓ} {A : Type κ} where
  returned :
      (Q : A → S → Type μ) (E : HttpError → S → Type μ) (r : Result A × S) (a : A)
      → Either Q E r
      → r.0 ≡ ok a
      → Q a r.1
  returned Q E (ok b, s) a h e = let same : (b ≡ a) = cc in subst (λ c. Q c s) same h
  returned Q E (err x, s) a h e = cc

  thrown :
      (Q : A → S → Type μ) (E : HttpError → S → Type μ) (r : Result A × S) (x : HttpError)
      → Either Q E r
      → r.0 ≡ err x
      → E x r.1
  thrown Q E (ok b, s) x h e = cc
  thrown Q E (err y, s) x h e = let same : (y ≡ x) = cc in subst (λ c. E c s) same h

module _ {ℓ κ μ} {S : Type ℓ} {A : Type κ} {Q : A → S → Type μ} {E : HttpError → S → Type μ} where
  -- What follows when the result is known.
  pub Outcome-ok : (m : Exec S A) (s : S) (a : A) → Outcome Q E m s → (m s).0 ≡ ok a → Q a (m s).1
  Outcome-ok m s a h e = returned Q E (m s) a h.holds e

  pub Outcome-err :
      (m : Exec S A) (s : S) (x : HttpError) → Outcome Q E m s → (m s).0 ≡ err x → E x (m s).1
  Outcome-err m s x h e = thrown Q E (m s) x h.holds e

module _ {ℓ κ μ ν} {S : Type ℓ} {A : Type κ} {Q : A → S → Type μ} {E : HttpError → S → Type μ} where
  either :
      (P : S → Type ν) (r : Result A × S)
      → ((a : A) (s : S) → Q a s → P s)
      → ((e : HttpError) (s : S) → E e s → P s)
      → Either Q E r
      → P r.1
  either P (ok a, s) f g h = f a s h
  either P (err e, s) f g h = g e s h

  -- What follows of the state on either branch.
  pub Outcome-state :
      (P : S → Type ν) (m : Exec S A) (s : S)
      → ((a : A) (s' : S) → Q a s' → P s')
      → ((e : HttpError) (s' : S) → E e s' → P s')
      → Outcome Q E m s
      → P (m s).1
  Outcome-state P m s f g h = either P (m s) f g h.holds

pub record Keeps {ℓ κ μ} {S : Type ℓ} {A : Type κ} (P : S → Type μ) (m : Exec S A)
    : Type (ℓ ⊔ μ) where
  pub at : (s : S) → P s → P (m s).1

module _ {ℓ κ μ} {S : Type ℓ} {A : Type κ} {P : S → Type μ} where
  pub Keeps-pure : (a : A) → Keeps P (pure a)
  Keeps-pure a = record { at = λ s h. h }

  pub Keeps-raise : (e : HttpError) → Keeps P (raise {A = A} e)
  Keeps-raise e = record { at = λ s h. h }

  pub Keeps-gets : (f : S → A) → Keeps P (gets f)
  Keeps-gets f = record { at = λ s h. h }

  pub Keeps-or_raise : (o : Option A) (e : HttpError) → Keeps P (or_raise o e)
  Keeps-or_raise none e = record { at = λ s h. h }
  Keeps-or_raise (some a) e = record { at = λ s h. h }

  pub Keeps-if : (b : Bool) (m n : Exec S A) → Keeps P m → Keeps P n → Keeps P (if b then m else n)
  Keeps-if true m n km kn = km
  Keeps-if false m n km kn = kn

module _ {ℓ μ} {S : Type ℓ} {P : S → Type μ} where
  pub Keeps-raise_if : (c : Bool) (e : HttpError) → Keeps P (raise_if c e)
  Keeps-raise_if c e = record { at = λ s h. h }

  pub Keeps-modify : (f : S → S) → ((s : S) → P s → P (f s)) → Keeps P (modify f)
  Keeps-modify f keep = record { at = keep }

module _ {ℓ κ ν μ} {S : Type ℓ} {A : Type κ} {B : Type ν} {P : S → Type μ} where
  pub Keeps-bind :
      (m : Exec S A) (f : A → Exec S B) → Keeps P m → ((a : A) → Keeps P (f a)) → Keeps P (m >>= f)
  Keeps-bind m f km kf = record { at = λ s h. go (m s) (km.at s h) }
    where
      go :
          (r : Result A × S)
          → P r.1
          → P (elim r.0 as (λ _. Result B × S) [ ok a ↦ f a r.1 | err e ↦ (err e, r.1) ]).1
      go (ok a, s') p = (kf a).at s' p
      go (err e, s') p = p

pub ruleset keeps_rules =
    (Keeps-pure, Keeps-raise, Keeps-gets, Keeps-or_raise, Keeps-raise_if, Keeps-modify, Keeps-bind)
