-- ===== src/Auth/Totp.antt =====
-- `TotpHelper.decodeBase32` of backend/auth-service/src/auth/totp.ts.
use sentinel_vault.Common.{
  ℕ, zero, suc, ◌+◌, ◌-◌, ◌*◌, ◌/◌, ◌%◌, ◌^◌, String, Bool, Option, none, some, [], ◌∷◌, leb, eqb,
  if◌then◌else◌, List, ◌&&◌,
}
use sentinel_vault.Common.Text.{is_empty}
use sentinel_vault.Auth.Srp.{Buffer}
use Prim.Native.Char.{Char, code}
pub mod Codes
pub mod Decoding
pub mod Secrets
pub mod Window
pub mod Tests

-- `alphabet.indexOf(c)`, of a code unit: `none` is -1.
abbrev pub index_of : ℕ → Option ℕ
index_of c =
    if leb 65 c && leb c 90
    then some (c - 65)
    else if leb 50 c && leb c 55
    then some (c - 50 + 26)
    else none

-- `s.replace(/=+$/, '')`
unfoldable pub strip_padding : String → String
strip_padding String.[] = ""
strip_padding (String.◌∷◌ c s) =
    let rest = strip_padding s in if is_empty rest && eqb (code c) 61 then "" else String.◌∷◌ c rest

-- `(buffer << 5) | val` keeps 32 bits. The sign of `buffer` is not read: a byte is taken from its
-- lowest twelve bits.
abbrev pub shift_in : ℕ → ℕ → ℕ
shift_in buffer val = (buffer * 32 + val) % 2 ^ 32

abbrev pub prepend : Option ℕ → Option (List ℕ) → Option (List ℕ)
prepend none vals = none
prepend (some val) none = none
prepend (some val) (some vals) = some (val ∷ vals)

-- The values of the characters; `none` is the thrown error.
unfoldable pub symbols : String → Option (List ℕ)
symbols String.[] = some []
symbols (String.◌∷◌ c s) = prepend (index_of (code c)) (symbols s)

-- The loop on valid characters, with `buffer` and `bits`.
unfoldable pub decode_symbols : List ℕ → ℕ → ℕ → Buffer
decode_symbols [] buffer bits = []
decode_symbols (val ∷ vals) buffer bits =
    let buffer' = shift_in buffer val in
    let full = leb 8 (bits + 5) in
    let rest = decode_symbols vals buffer' (if full then bits + 5 - 8 else bits + 5) in
    if full then buffer' / 2 ^ (bits + 5 - 8) % 256 ∷ rest else rest

abbrev pub decode_all : Option (List ℕ) → Option Buffer
decode_all none = none
decode_all (some vals) = some (decode_symbols vals 0 0)

-- `upper` is `toUpperCase`.
unfoldable pub decode_base32 : (String → String) → String → Option Buffer
decode_base32 upper base32 = decode_all (symbols (strip_padding (upper base32)))

abbrev pub alphabet : String
alphabet = "ABCDEFGHIJKLMNOPQRSTUVWXYZ234567"

-- `alphabet[i]`; the index is in range.
abbrev pub char_at : String → ℕ → Char
char_at String.[] i = "A"
char_at (String.◌∷◌ c s) zero = c
char_at (String.◌∷◌ c s) (suc i) = char_at s i

-- From twenty random bytes.
unfoldable pub generate_secret : Buffer → String
generate_secret [] = ""
generate_secret (b ∷ bytes) = String.◌∷◌ (char_at alphabet (b % 32)) (generate_secret bytes)
