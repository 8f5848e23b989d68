-- ===== src/Auth/Srp/Tests.antt =====
-- The SRP functions on small numbers.
use sentinel_vault.Common.{◌%◌, ◌^◌, true, ◌≡◌, refl, [], ◌∷◌, arith}
use sentinel_vault.Auth.Srp.{
  Buffer, digits, big_int_to_buffer, mod_pow, mod_pow_loop, xor_bits, generate_server_ephemeral,
  multiplier_k, calculate_u, premaster_secret, session_key_of, expected_m1, verify_session,
}
use sentinel_vault.Auth.Srp.Power.{mod_pow_lem}
use sentinel_vault.Auth.Srp.Agreement.{
  client_public, verifier, client_secret, verified, honest_client,
}

-- Opens what the tests compute with.
srp_open : Unit {0}
unfolding digits big_int_to_buffer mod_pow mod_pow_loop generate_server_ephemeral multiplier_k
    calculate_u premaster_secret expected_m1 verify_session
srp_open = tt

powers : (mod_pow 3 13 1000 ≡ 323) × (mod_pow 7 0 5 ≡ 1) × (mod_pow 7 3 0 ≡ 0)
unfolding srp_open
powers = (refl, refl, refl)

buffers :
    (big_int_to_buffer 258 4 ≡ 0 ∷ 0 ∷ 1 ∷ 2 ∷ [])
    × (big_int_to_buffer 258 1 ≡ 2 ∷ [])
    × (xor_bits 8 172 83 ≡ 255)
unfolding srp_open
buffers = (refl, refl, refl)

mod_pow_example : mod_pow 3 13 1000 ≡ (3 ^ 13) % 1000
mod_pow_example = mod_pow_lem 3 13 1000 (omega arith)

-- A hash function for the examples, and the modulus 23.
abbrev hash : Buffer → Buffer
hash [] = 7 ∷ []
hash (b ∷ bytes) = 1 ∷ b ∷ []

scrambled :
    calculate_u hash 23
      (client_public hash 23 5)
      (generate_server_ephemeral hash 23 (verifier hash 23 9) (6 ∷ [])).1
    ≡ 256
unfolding srp_open
scrambled = refl

honest_client_example :
    let (b, big_b) = generate_server_ephemeral hash 23 (verifier hash 23 9) (6 ∷ []) in
    let u = calculate_u hash 23 (client_public hash 23 5) big_b in
    let key = session_key_of hash 23 (client_secret hash 23 big_b 5 9 u) in
    verified hash 23 (
      verify_session hash 23
        (97 ∷ [])
        (1 ∷ [])
        (client_public hash 23 5)
        big_b
        (verifier hash 23 9)
        b
        (expected_m1 hash 23 (97 ∷ []) (1 ∷ []) (client_public hash 23 5) big_b key))
    ≡ true
honest_client_example =
    honest_client hash 23 (97 ∷ []) (1 ∷ []) (6 ∷ []) 5 9 (omega arith) (λ e. omega arith)
      (λ e. ground (arith, scrambled))
