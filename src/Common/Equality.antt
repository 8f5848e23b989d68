-- ===== src/Common/Equality.antt =====
-- Keys with a Boolean equality: a text, or a pair of keys for a composite primary key.
use mathlib.Core.Path.{◌≡◌, ap}
use mathlib.Core.Logic.{◌↔◌}
use mathlib.Core.Bool.{Bool, true, ◌&&◌}
use Prim.Native.String.{String}
use native.Mathlib.Omega.{arith}
use text.Mathlib.Text.{◌==◌}
use text.Mathlib.TextEquality.{eq_iff}

pub record Eq {ℓ} (K : Type ℓ) : Type ℓ where
  pub same_key : K → K → Bool
  pub same_key_iff : (a b : K) → (same_key a b ≡ true) ↔ (a ≡ b)

instance abbrev pub string_eq : Eq String
string_eq = record { same_key = ◌==◌; same_key_iff = eq_iff }

module _ {ℓ κ} {A : Type ℓ} {B : Type κ} ⦃e : Eq A⦄ ⦃f : Eq B⦄ where
  abbrev pub same_pair : A × B → A × B → Bool
  same_pair p q = e.same_key p.0 q.0 && f.same_key p.1 q.1

  pub same_pair_iff : (p q : A × B) → (same_pair p q ≡ true) ↔ (p ≡ q)
  same_pair_iff (a, b) (c, d) = (
    λ h.
        let one = (e.same_key_iff a c).0 (ground arith) in
        let two = (f.same_key_iff b d).0 (ground arith) in λ i. (one i, two i),
    λ h.
        let one = (e.same_key_iff a c).1 (ap (λ (p : A × B). p.0) h) in
        let two = (f.same_key_iff b d).1 (ap (λ (p : A × B). p.1) h) in ground arith,
  )

  instance abbrev pub pair_eq : Eq (A × B)
  pair_eq = record { same_key = same_pair; same_key_iff = same_pair_iff }
