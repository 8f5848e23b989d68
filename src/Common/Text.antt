-- ===== src/Common/Text.antt =====
-- What the sources use of JavaScript's strings, over the native `String`.
use mathlib.Core.Bool.{Bool, true, false, not, ◌||◌, ◌&&◌}
use mathlib.Core.Path.{◌≡◌, refl}
use Prim.Native.Char.{code}
use Prim.Native.String.{String}
use Prim.Native.Nat.{ℕ}
use text.Mathlib.Text.{◌==◌}
use mathlib.Core.Option.{Option, none, some}
use sentinel_vault.Common.Tests.{if◌then◌else◌, leb, eqb}

-- `!s` on a string
abbrev pub is_empty : String → Bool
is_empty s = s == ""

-- `s || d` on a string
abbrev pub or_else : String → String → String
or_else s d = if is_empty s then d else s

-- A string that may be `undefined`, as a condition.
abbrev pub is_set : Option String → Bool
is_set none = false
is_set (some s) = not (is_empty s)

-- The white space and line ends that `trim` removes.
unfoldable pub is_space : ℕ → Bool
is_space c =
    leb 9 c && leb c 13
    || eqb c 32
    || eqb c 160
    || eqb c 0x1680
    || leb 0x2000 c && leb c 0x200a
    || eqb c 0x2028
    || eqb c 0x2029
    || eqb c 0x202f
    || eqb c 0x205f
    || eqb c 0x3000
    || eqb c 0xfeff

unfoldable pub trim_start : String → String
trim_start String.[] = ""
trim_start (String.◌∷◌ c s) =
    let rest = trim_start s in if is_space (code c) then rest else String.◌∷◌ c s

trim_end : String → String
trim_end String.[] = ""
trim_end (String.◌∷◌ c s) =
    let rest = trim_end s in if is_empty rest && is_space (code c) then "" else String.◌∷◌ c rest

-- `s.trim()`
unfoldable pub trim : String → String
unfolding trim_start trim_end is_space
trim s = trim_end (trim_start s)

trim_test : trim "  a b " ≡ "a b"
unfolding trim
trim_test = refl

-- `s.startsWith(p)`
unfoldable pub starts_with : String → String → Bool
starts_with s String.[] = true
starts_with String.[] (String.◌∷◌ c p) = false
starts_with (String.◌∷◌ d s) (String.◌∷◌ c p) = eqb (code d) (code c) && starts_with s p

-- `s.includes(p)`
unfoldable pub includes : String → String → Bool
unfolding starts_with
includes String.[] p = is_empty p
includes (String.◌∷◌ c s) p = starts_with (String.◌∷◌ c s) p || includes s p

includes_test : (includes "tokenid" "token" ≡ true) × (includes "tokeid" "token" ≡ false)
unfolding includes
includes_test = (refl, refl)
