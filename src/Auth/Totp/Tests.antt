-- ===== src/Auth/Totp/Tests.antt =====
-- Base32 secrets with and without padding.
use sentinel_vault.Common.{ℕ, String, ◌≡◌, ◌⊎◌, refl, true, false, arith, ◌/◌, none, some, [], ◌∷◌}
use sentinel_vault.Auth.Srp.{Buffer}
use sentinel_vault.Auth.Totp.{
  decode_symbols, symbols, strip_padding, decode_base32, generate_secret,
}
use sentinel_vault.Auth.Totp.Codes.{counter_loop, code_at, verify_loop, verify_code}
use sentinel_vault.Auth.Totp.Window.{InWindow, verify_code-cases}

-- Opens what the tests compute with.
totp_open : Unit {0}
unfolding decode_symbols symbols strip_padding decode_base32 generate_secret counter_loop code_at
    verify_loop verify_code
totp_open = tt

abbrev same_case : String → String
same_case s = s

foobar : decode_base32 same_case "MZXW6YTBOI======" ≡ some (102 ∷ 111 ∷ 111 ∷ 98 ∷ 97 ∷ 114 ∷ [])
unfolding totp_open
foobar = refl

not_base32 : decode_base32 same_case "MZ1W" ≡ none
unfolding totp_open
not_base32 = refl

inner_padding : decode_base32 same_case "MZ=XW6" ≡ none
unfolding totp_open
inner_padding = refl

-- A hash of twenty bytes that ends in the step.
abbrev last_byte : Buffer → ℕ
last_byte [] = 0
last_byte (b ∷ []) = b
last_byte (b ∷ bytes) = last_byte bytes

abbrev hash : Buffer → Buffer → Buffer
hash key message =
    0
    ∷ 1
    ∷ last_byte message
    ∷ 3
    ∷ 4
    ∷ 5
    ∷ 6
    ∷ 7
    ∷ 8
    ∷ 9
    ∷ 10
    ∷ 11
    ∷ 12
    ∷ 13
    ∷ 14
    ∷ 15
    ∷ 16
    ∷ 17
    ∷ 18
    ∷ 0
    ∷ []

-- Step 2, from 60 to 89 seconds: 1 * 65536 + 2 * 256 + 3.
code_of_two : code_at hash [] 2 ≡ "066051"
unfolding totp_open
code_of_two = refl

accepts_late : verify_code hash same_case 119999 "MZXW6===" "066051" 1 ≡ some true
unfolding totp_open
accepts_late = refl

refuses_later : verify_code hash same_case 120000 "MZXW6===" "066051" 1 ≡ some false
unfolding totp_open
refuses_later = refl

foo : decode_base32 same_case "MZXW6===" ≡ some (102 ∷ 111 ∷ 111 ∷ [])
unfolding totp_open
foo = refl

verify_code-cases_example :
    (InWindow hash (102 ∷ 111 ∷ 111 ∷ []) "066051" (100000 / 1000 / 30) 1
      × (verify_code hash same_case 100000 "MZXW6===" "066051" 1 ≡ some true))
    ⊎ (¬ InWindow hash (102 ∷ 111 ∷ 111 ∷ []) "066051" (100000 / 1000 / 30) 1
        × (verify_code hash same_case 100000 "MZXW6===" "066051" 1 ≡ some false))
verify_code-cases_example =
    verify_code-cases hash same_case 100000 1 "MZXW6===" "066051" (102 ∷ 111 ∷ 111 ∷ []) foo
      (omega arith)

-- The bytes 0, 33 and 95 give the indices 0, 1 and 31.
secret : generate_secret (0 ∷ 33 ∷ 95 ∷ []) ≡ "AB7"
unfolding totp_open
secret = refl
