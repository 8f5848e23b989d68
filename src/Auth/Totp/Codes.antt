-- ===== src/Auth/Totp/Codes.antt =====
-- `TotpHelper.generateCode` and `TotpHelper.verifyCode` of backend/auth-service/src/auth/totp.ts.
-- `hmac` is the HMAC with SHA-1 of a key and a message, `upper` is `toUpperCase`.
use sentinel_vault.Common.{
  ℕ, zero, suc, ◌+◌, ◌-◌, ◌*◌, ◌/◌, ◌%◌, ◌^◌, String, Bool, true, false, Option, none, some, [],
  ◌∷◌, length, leb, eqb, if◌then◌else◌, ◌==◌,
}
use sentinel_vault.Auth.Srp.{Buffer}
use sentinel_vault.Auth.Totp.{decode_base32}
use Prim.Native.Char.{Char}

-- `buffer[i] = Number(temp & 0xffn); temp >>= 8n`, from the last byte to the first.
unfoldable pub counter_loop : ℕ → ℕ → Buffer → Buffer
counter_loop zero temp buffer = buffer
counter_loop (suc n) temp buffer = counter_loop n (temp / 256) (temp % 256 ∷ buffer)

abbrev pub counter_bytes : ℕ → Buffer
counter_bytes step = counter_loop 8 step []

-- `hash[i]` as an operand of `&`: out of range it counts as 0.
abbrev pub byte_at : Buffer → ℕ → ℕ
byte_at [] i = 0
byte_at (b ∷ bytes) zero = b
byte_at (b ∷ bytes) (suc i) = byte_at bytes i

-- The parts of `binary` have no bit in common, so that `|` adds them.
abbrev pub truncated : Buffer → ℕ
truncated hash =
    let offset = byte_at hash (length hash - 1) % 16 in
    byte_at hash offset % 128 * 2 ^ 24
    + byte_at hash (offset + 1) % 256 * 2 ^ 16
    + byte_at hash (offset + 2) % 256 * 2 ^ 8
    + byte_at hash (offset + 3) % 256

abbrev pub digit : ℕ → Char
digit n =
    if eqb n 0
    then "0"
    else if eqb n 1
    then "1"
    else if eqb n 2
    then "2"
    else if eqb n 3
    then "3"
    else if eqb n 4
    then "4"
    else if eqb n 5
    then "5"
    else if eqb n 6
    then "6"
    else if eqb n 7
    then "7"
    else if eqb n 8
    then "8"
    else "9"

-- `n.toString().padStart(6, '0')` for `n < 1000000`
abbrev pub pad_six : ℕ → String
pad_six n = String.◌∷◌ (digit (n / 100000)) (
    String.◌∷◌ (digit (n / 10000 % 10)) (
      String.◌∷◌ (digit (n / 1000 % 10)) (
        String.◌∷◌ (digit (n / 100 % 10))
          (String.◌∷◌ (digit (n / 10 % 10)) (String.◌∷◌ (digit (n % 10)) "")))))

unfoldable pub code_at : (Buffer → Buffer → Buffer) → Buffer → ℕ → String
code_at hmac key step = pad_six (truncated (hmac key (counter_bytes step)) % 1000000)

module _ (hmac : Buffer → Buffer → Buffer) (upper : String → String) where
  abbrev pub code_of : ℕ → Option Buffer → Option String
  code_of step none = none
  code_of step (some key) = some (code_at hmac key step)

  -- `none` is the error that `decodeBase32` throws.
  abbrev pub generate_code : String → ℕ → Option String
  generate_code secret step = code_of step (decode_base32 upper secret)

  -- `currentStep + i - window`, a negative step as the counter of 64 bits that it is written to.
  abbrev pub step_at : ℕ → ℕ → ℕ → ℕ
  step_at current window i =
      if leb window (current + i) then current + i - window else 2 ^ 64 - (window - (current + i))

  abbrev pub matches_or : Option String → String → Option Bool → Option Bool
  matches_or none code rest = none
  matches_or (some c) code rest = if c == code then some true else rest

  -- The `n` rounds from the `i`-th on.
  unfoldable pub verify_loop : String → String → ℕ → ℕ → ℕ → ℕ → Option Bool
  verify_loop secret code current window zero i = some false
  verify_loop secret code current window (suc n) i =
      let rest = verify_loop secret code current window n (i + 1) in
      matches_or (generate_code secret (step_at current window i)) code rest

  -- At `now` milliseconds.
  unfoldable pub verify_code : ℕ → String → String → ℕ → Option Bool
  verify_code now secret code window =
      verify_loop secret code (now / 1000 / 30) window (window + window + 1) 0
