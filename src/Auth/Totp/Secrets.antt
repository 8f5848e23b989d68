-- ===== src/Auth/Totp/Secrets.antt =====
-- A generated secret is decoded.
use sentinel_vault.Common.{ℕ, zero, suc, Bool, true, false, ◌&&◌, not, Option, none, some, eqb}
use sentinel_vault.Auth.Totp.{alphabet, char_at, index_of}
use Prim.Native.Char.{code}

abbrev is_index : ℕ → Option ℕ → Bool
is_index i none = false
is_index i (some j) = eqb j i

-- The character at an index is found at that index, and is no padding.
fits : ℕ → Bool
fits i =
    is_index i (index_of (code (char_at alphabet i))) && not (eqb (code (char_at alphabet i)) 61)

all_below : ℕ → (ℕ → Bool) → Bool
all_below zero p = true
all_below (suc n) p = p n && all_below n p
