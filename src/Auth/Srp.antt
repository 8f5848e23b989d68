-- ===== src/Auth/Srp.antt =====
-- The server of the SRP-6a login (backend/auth-service/src/auth/srp.ts). A `Buffer` is a list of
-- bytes, most significant first where it stands for a number; no number is negative. SHA-256 is a
-- parameter. `timingSafeEqual` throws on arguments of different lengths, so that a verification
-- is `none` where it throws.
pub mod Power
pub mod Bytes
pub mod Agreement
mod Tests
use sentinel_vault.Common.{
  ℕ, zero, suc, ◌+◌, ◌-◌, ◌*◌, ◌/◌, ◌%◌, ◌^◌, Bool, true, false, ◌&&◌, Option, none, some, List, [],
  ◌∷◌, ◌++◌, length, ltb, eqb, if◌then◌else◌,
}

abbrev pub Buffer : Type 0
Buffer = List ℕ

-- The bytes of a number before those in `acc`; none for zero. `fuel` is no less than the number.
pub digits : ℕ → ℕ → Buffer → Buffer
digits zero n acc = acc
digits (suc fuel) zero acc = acc
digits (suc fuel) (suc n) acc = digits fuel (suc n / 256) (suc n % 256 ∷ acc)

-- `Buffer.from(hex, 'hex')` of the digits of a number, of an even number of them; zero has one byte.
abbrev pub hex_bytes : ℕ → Buffer
hex_bytes zero = 0 ∷ []
hex_bytes (suc n) = digits (suc n) (suc n) []

-- `Buffer.alloc`
abbrev pub zeros : ℕ → Buffer
zeros zero = []
zeros (suc n) = 0 ∷ zeros n

-- `subarray(n)`
abbrev drop : ℕ → Buffer → Buffer
drop zero bytes = bytes
drop (suc n) [] = []
drop (suc n) (b ∷ bytes) = drop n bytes

abbrev fit : Buffer → ℕ → Buffer
fit bytes size =
    if eqb (length bytes) size
    then bytes
    else if ltb size (length bytes)
    then drop (length bytes - size) bytes
    else zeros (size - length bytes) ++ bytes

pub big_int_to_buffer : ℕ → ℕ → Buffer
unfolding digits
big_int_to_buffer num size = fit (hex_bytes num) size

-- The number whose more significant digits are `acc`.
abbrev pub value_from : ℕ → Buffer → ℕ
value_from acc [] = acc
value_from acc (b ∷ bytes) = value_from (acc * 256 + b) bytes

abbrev pub buffer_to_big_int : Buffer → ℕ
buffer_to_big_int bytes = value_from 0 bytes

-- `g`
abbrev pub generator : ℕ
generator = 2

-- The loop of `modPow`; `fuel` is no less than the exponent.
pub mod_pow_loop : ℕ → ℕ → ℕ → ℕ → ℕ → ℕ
mod_pow_loop zero result b e m = result
mod_pow_loop (suc fuel) result b zero m = result
mod_pow_loop (suc fuel) result b (suc e) m =
    mod_pow_loop fuel (if eqb (suc e % 2) 1 then (result * b) % m else result) ((b * b) % m)
      (suc e / 2) m

pub mod_pow : ℕ → ℕ → ℕ → ℕ
unfolding mod_pow_loop
mod_pow base exp m = if eqb m 0 then 0 else mod_pow_loop exp 1 ((base % m + m) % m) exp m

-- `a ^ b` on bytes, the lowest `bits` bits
abbrev pub xor_bits : ℕ → ℕ → ℕ → ℕ
xor_bits zero a b = 0
xor_bits (suc bits) a b = (a % 2 + b % 2) % 2 + 2 * xor_bits bits (a / 2) (b / 2)

-- The loop that fills `hXor`.
abbrev xor_bytes : ℕ → Buffer → Buffer → Buffer
xor_bytes zero xs ys = []
xor_bytes (suc n) [] [] = 0 ∷ xor_bytes n [] []
xor_bytes (suc n) [] (y ∷ ys) = y ∷ xor_bytes n [] ys
xor_bytes (suc n) (x ∷ xs) [] = x ∷ xor_bytes n xs []
xor_bytes (suc n) (x ∷ xs) (y ∷ ys) = xor_bits 8 x y ∷ xor_bytes n xs ys

abbrev pub same_bytes : Buffer → Buffer → Bool
same_bytes [] [] = true
same_bytes [] (y ∷ ys) = false
same_bytes (x ∷ xs) [] = false
same_bytes (x ∷ xs) (y ∷ ys) = eqb x y && same_bytes xs ys

-- `crypto.timingSafeEqual`
abbrev pub timing_safe_equal : Buffer → Buffer → Option Bool
timing_safe_equal xs ys = if eqb (length xs) (length ys) then some (same_bytes xs ys) else none

pub record Verification : Type 0 where
  pub success : Bool
  pub server_evidence : Option Buffer
  pub session_key : Option Buffer

abbrev pub failed : Verification
failed = record { success = false; server_evidence = none; session_key = none }

-- `modulus` is `N`.
module _ (sha256 : Buffer → Buffer) (modulus : ℕ) where
  pub multiplier_k : ℕ
  multiplier_k =
      buffer_to_big_int (sha256 (big_int_to_buffer modulus 256 ++ big_int_to_buffer generator 256))

  -- `b` and `B`
  pub generate_server_ephemeral : ℕ → Buffer → ℕ × ℕ
  generate_server_ephemeral v random_bytes =
      let b = buffer_to_big_int random_bytes % modulus in
      let gb = mod_pow generator b modulus in
      let kv = (multiplier_k * v) % modulus in (b, (kv + gb) % modulus)

  unfoldable pub calculate_u : ℕ → ℕ → ℕ
  calculate_u a b = buffer_to_big_int (sha256 (big_int_to_buffer a 256 ++ big_int_to_buffer b 256))

  -- `S`
  pub premaster_secret : ℕ → ℕ → ℕ → ℕ → ℕ
  premaster_secret a v u b = mod_pow ((a * mod_pow v u modulus) % modulus) b modulus

  abbrev pub session_key_of : ℕ → Buffer
  session_key_of secret = sha256 (big_int_to_buffer secret 256)

  -- `expectedM1`; the name comes as its UTF-8 bytes
  unfoldable pub expected_m1 : Buffer → Buffer → ℕ → ℕ → Buffer → Buffer
  expected_m1 username salt a b key =
      let hn = sha256 (big_int_to_buffer modulus 256) in
      let hg = sha256 (big_int_to_buffer generator 256) in
      sha256 (
        xor_bytes 32 hn hg
        ++ (sha256 username
            ++ (salt ++ (big_int_to_buffer a 256 ++ (big_int_to_buffer b 256 ++ key)))))

  abbrev pub judge : ℕ → Buffer → Buffer → Option Bool → Option Verification
  judge a m1 key none = none
  judge a m1 key (some false) = some failed
  judge a m1 key (some true) = some (record {
    success = true;
    server_evidence = some (sha256 (big_int_to_buffer a 256 ++ (m1 ++ key)));
    session_key = some key;
  })

  unfoldable pub verify_session : Buffer → Buffer → ℕ → ℕ → ℕ → ℕ → Buffer → Option Verification
  verify_session username salt a big_b v b evidence =
      if eqb (a % modulus) 0
      then some failed
      else (let u = calculate_u a big_b in
          if eqb u 0
          then some failed
          else (let key = session_key_of (premaster_secret a v u b) in
              let m1 = expected_m1 username salt a big_b key in
              judge a m1 key (timing_safe_equal evidence m1)))
