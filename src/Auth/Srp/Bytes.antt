-- ===== src/Auth/Srp/Bytes.antt =====
-- Numbers as buffers of a fixed size.
use sentinel_vault.Common.{
  ℕ, zero, suc, ◌+◌, ◌-◌, ◌*◌, ◌/◌, ◌%◌, ◌^◌, ◌≤◌, ◌<◌, false, ◌≡◌, inl, inr, refl, subst, ap, ◌∙◌,
  [], ◌∷◌, ◌++◌, length, eqb, ltb, arith, Bool-cases,
}
use native.Mathlib.Nat.{native_laws}
use sentinel_vault.Auth.Srp.{
  Buffer, digits, hex_bytes, zeros, big_int_to_buffer, value_from, buffer_to_big_int,
}

value-digits :
    (fuel n : ℕ) (acc : Buffer) → n ≤ fuel → value_from 0 (digits fuel n acc) ≡ value_from n acc
unfolding digits
value-digits zero n acc h = let z : (n ≡ 0) = omega arith in rw z refl
value-digits (suc fuel) zero acc h = refl
value-digits (suc fuel) (suc n) acc h =
    value-digits fuel (suc n / 256) (suc n % 256 ∷ acc) (omega arith)
    ∙ ap (λ m. value_from m acc) (omega arith)

value-hex_bytes : (n : ℕ) → value_from 0 (hex_bytes n) ≡ n
value-hex_bytes zero = refl
value-hex_bytes (suc n) = value-digits (suc n) (suc n) [] (omega arith)

none_below : (n : ℕ) → suc n < 256 ^ 0 → ⊥
none_below n h = omega arith

one_byte_less : (n p : ℕ) → n < p * 256 → n / 256 < p
one_byte_less n p h = omega arith

length-digits :
    (fuel n size : ℕ) (acc : Buffer)
    → n < 256 ^ size
    → length (digits fuel n acc) ≤ size + length acc
unfolding digits
length-digits zero n size acc h = omega arith
length-digits (suc fuel) zero size acc h = omega arith
length-digits (suc fuel) (suc n) zero acc h = absurd (none_below n h)
length-digits (suc fuel) (suc n) (suc size) acc h =
    let smaller : (suc n / 256 < 256 ^ size) =
      one_byte_less (suc n) (256 ^ size)
        (subst (λ p. suc n < p) (native_laws.pow-suc 256 size) h) in
    let rest = length-digits fuel (suc n / 256) size (suc n % 256 ∷ acc) smaller in omega arith

value-zeros : (n : ℕ) (bytes : Buffer) → value_from 0 (zeros n ++ bytes) ≡ value_from 0 bytes
value-zeros zero bytes = refl
value-zeros (suc n) bytes = value-zeros n bytes

length-zeros : (n : ℕ) (bytes : Buffer) → length (zeros n ++ bytes) ≡ n + length bytes
length-zeros zero bytes = omega arith
length-zeros (suc n) bytes = let rest = length-zeros n bytes in omega arith

hex_bytes_short : (n size : ℕ) → n < 256 ^ suc size → length (hex_bytes n) ≤ suc size
hex_bytes_short zero size h = omega arith
hex_bytes_short (suc n) size h =
    let b = length-digits (suc n) (suc n) (suc size) [] h in omega arith

no_size : 1 ≤ 0 → ⊥
no_size h = omega arith

-- A number below `256 ^ size`, for a size of at least one byte, is written in exactly `size` bytes
-- and read back unchanged.
pub buffer_round_trip :
    (n size : ℕ)
    → 1 ≤ size
    → n < 256 ^ size
    → (length (big_int_to_buffer n size) ≡ size)
      × (buffer_to_big_int (big_int_to_buffer n size) ≡ n)
unfolding big_int_to_buffer
buffer_round_trip n zero one h = absurd (no_size one)
buffer_round_trip n (suc size) one h = elim (Bool-cases (eqb (length (hex_bytes n)) (suc size))) [
  | inl exact ↦ rw exact (ground arith, value-hex_bytes n)
  | inr shorter ↦
      let short = hex_bytes_short n size h in
      let fits : (ltb (suc size) (length (hex_bytes n)) ≡ false) = ground arith in
      rw (shorter, fits)
        (
          length-zeros (suc size - length (hex_bytes n)) (hex_bytes n) ∙ omega arith,
          value-zeros (suc size - length (hex_bytes n)) (hex_bytes n) ∙ value-hex_bytes n,
        )
]
