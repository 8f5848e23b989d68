-- ===== src/Auth/Totp/Decoding.antt =====
-- What the bytes of a base32 secret are.
use sentinel_vault.Common.{
  ℕ, zero, suc, ◌+◌, ◌-◌, ◌*◌, ◌/◌, ◌%◌, ◌^◌, ◌<◌, String, ◌≡◌, ◌⊎◌, inl, inr, refl, subst, ap, ◌∙◌,
  none, some, List, [], ◌∷◌, length, All, leb, arith, Bool-cases, Option-cases,
}
use Prim.Native.Char.{code}
use sentinel_vault.Auth.Srp.{Buffer, value_from, buffer_to_big_int}
use sentinel_vault.Auth.Totp.{
  decode_symbols, shift_in, symbols, decode_base32, strip_padding, index_of,
}

-- The number that characters write in base 32, after `acc`.
abbrev pub symbols_value : ℕ → List ℕ → ℕ
symbols_value acc [] = acc
symbols_value acc (v ∷ vals) = symbols_value (acc * 32 + v) vals

keep :
    (A b v bits : ℕ)
    → v < 32
    → bits < 3
    → (A * 2 ^ bits + b % 2 ^ bits) * 32 + v ≡ A * 2 ^ (bits + 5) + shift_in b v % 2 ^ (bits + 5)
keep A b v zero valid small = omega arith
keep A b v (suc zero) valid small = omega arith
keep A b v (suc (suc zero)) valid small = omega arith
keep A b v (suc (suc (suc bits))) valid small = absurd (omega arith)

emit :
    (A b v s : ℕ)
    → v < 32
    → s < 5
    → (A * 2 ^ (s + 3) + b % 2 ^ (s + 3)) * 32 + v
      ≡ (A * 256 + shift_in b v / 2 ^ s % 256) * 2 ^ s + shift_in b v % 2 ^ s
emit A b v zero valid small = omega arith
emit A b v (suc zero) valid small = omega arith
emit A b v (suc (suc zero)) valid small = omega arith
emit A b v (suc (suc (suc zero))) valid small = omega arith
emit A b v (suc (suc (suc (suc zero)))) valid small = omega arith
emit A b v (suc (suc (suc (suc (suc s))))) valid small = absurd (omega arith)

below : (b bits : ℕ) → bits < 8 → b % 2 ^ bits < 2 ^ bits
below b zero h = omega arith
below b (suc zero) h = omega arith
below b (suc (suc zero)) h = omega arith
below b (suc (suc (suc zero))) h = omega arith
below b (suc (suc (suc (suc zero)))) h = omega arith
below b (suc (suc (suc (suc (suc zero))))) h = omega arith
below b (suc (suc (suc (suc (suc (suc zero)))))) h = omega arith
below b (suc (suc (suc (suc (suc (suc (suc zero))))))) h = omega arith
below b (suc (suc (suc (suc (suc (suc (suc (suc bits)))))))) h = absurd (omega arith)

pub decode_symbols-value :
    (vals : List ℕ) (A buffer bits : ℕ)
    → All (λ v. v < 32) vals
    → bits < 8
    → (r rest : ℕ) × (r < 8)
      × (rest < 2 ^ r)
      × (8 * length (decode_symbols vals buffer bits) + r ≡ bits + 5 * length vals)
      × (symbols_value (A * 2 ^ bits + buffer % 2 ^ bits) vals
          ≡ value_from A (decode_symbols vals buffer bits) * 2 ^ r + rest)
unfolding decode_symbols
decode_symbols-value [] A buffer bits valid small =
    (bits, buffer % 2 ^ bits, small, below buffer bits small, omega arith, refl)
decode_symbols-value (v ∷ vals) A buffer bits valid small = elim (Bool-cases (leb 8 (bits + 5))) [
  | inl full ↦
      let s = bits + 5 - 8 in
      let back : (s + 3 ≡ bits) = ground arith in
      let byte = shift_in buffer v / 2 ^ s % 256 in
      let (r, rest, r8, rr, size, value) =
        decode_symbols-value vals (A * 256 + byte) (shift_in buffer v) s valid.1 (omega arith) in
      let first = emit A buffer v s valid.0 (omega arith) in
      let first' : ((A * 2 ^ bits + buffer % 2 ^ bits) * 32 + v
          ≡ (A * 256 + byte) * 2 ^ s + shift_in buffer v % 2 ^ s) =
        subst
          (λ b.
            (A * 2 ^ b + buffer % 2 ^ b) * 32 + v
            ≡ (A * 256 + byte) * 2 ^ s + shift_in buffer v % 2 ^ s)
          back first in
      rw full (r, rest, r8, rr, omega arith, ap (λ a. symbols_value a vals) first' ∙ value)
  | inr short ↦
      let (r, rest, r8, rr, size, value) =
        decode_symbols-value vals A (shift_in buffer v) (bits + 5) valid.1 (ground arith) in
      let first = keep A buffer v bits valid.0 (ground arith) in
      rw short (r, rest, r8, rr, omega arith, ap (λ a. symbols_value a vals) first ∙ value)
]

-- A character that is not of the alphabet.
abbrev pub Foreign : String → Type 0
Foreign String.[] = ⊥
Foreign (String.◌∷◌ c s) = (index_of (code c) ≡ none) ⊎ Foreign s

-- The characters' values, one by one.
abbrev pub Spells : List ℕ → String → Type 0
Spells [] String.[] = Unit {0}
Spells [] (String.◌∷◌ c s) = ⊥
Spells (v ∷ vals) String.[] = ⊥
Spells (v ∷ vals) (String.◌∷◌ c s) = (index_of (code c) ≡ some v) × Spells vals s

index-small : (c v : ℕ) → index_of c ≡ some v → v < 32
index-small c v h = ground arith

symbols-cases :
    (s : String)
    → (Foreign s × (symbols s ≡ none))
      ⊎ ((vals : List ℕ) × Spells vals s × All (λ v. v < 32) vals × (symbols s ≡ some vals))
unfolding symbols
symbols-cases String.[] = inr ([], tt, tt, refl)
symbols-cases (String.◌∷◌ c s) = elim (Option-cases (index_of (code c))) [
  | inl foreign ↦ inl (inl foreign, rw foreign refl)
  | inr (v, valid) ↦ elim (symbols-cases s) [
    | inl (foreign, fails) ↦ inl (inr foreign, rw valid (rw fails refl))
    | inr (vals, spells, small, read) ↦
        inr (
          v ∷ vals,
          (valid, spells),
          (index-small (code c) v valid, small),
          rw valid (rw read refl),
        )
  ]
]

-- Without its padding, a secret either has a character that is not of the alphabet, and decoding
-- fails, or its characters have values `vals` below 32 and decoding gives bytes that are the
-- number which `vals` write in base 32, less the last `r` bits, where `r < 8` and the bytes' bits
-- and `r` are five bits for each character.
pub decode_base32-cases :
    (upper : String → String) (base32 : String)
    → let clean = strip_padding (upper base32) in
      (Foreign clean × (decode_base32 upper base32 ≡ none))
      ⊎ ((vals : List ℕ) × (bytes : Buffer) × (r : ℕ) × (rest : ℕ) × Spells vals clean
          × (decode_base32 upper base32 ≡ some bytes)
          × (r < 8)
          × (rest < 2 ^ r)
          × (8 * length bytes + r ≡ 5 * length vals)
          × (symbols_value 0 vals ≡ buffer_to_big_int bytes * 2 ^ r + rest))
unfolding decode_base32
decode_base32-cases upper base32 = elim (symbols-cases (strip_padding (upper base32))) [
  | inl (foreign, fails) ↦ inl (foreign, rw fails refl)
  | inr (vals, spells, small, read) ↦
      let (r, rest, r8, rr, size, value) = decode_symbols-value vals 0 0 0 small (omega arith) in
      inr (vals, decode_symbols vals 0 0, r, rest, spells, rw read refl, r8, rr, omega arith, value)
]
