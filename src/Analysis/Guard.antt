-- ===== src/Analysis/Guard.antt =====
-- The payloads of insights and their guard (backend/security-analysis-service/src/ai-insights/
-- insights-payload.ts and insights-guard.ts). A payload is an object that came as JSON. The floating
-- point comparison of an entropy with the threshold is a parameter of the numbers that it is
-- computed from. Characters above U+FFFF, which JavaScript counts as two, are left out, and so is
-- a `finding_type` that names a member of `Object.prototype`.
pub mod Email
use sentinel_vault.Common.{
  ℕ, suc, String, Bool, true, false, not, ◌&&◌, ◌||◌, Option, none, some, List, [], ◌∷◌, any, all,
  length, ◌==◌, leb, eqb, if◌then◌else◌,
}
use sentinel_vault.Common.Text.{includes, is_space}
use sentinel_vault.Common.Dict
use sentinel_vault.Common.Dict.{Dict}
use sentinel_vault.Common.Number.{ℤ}
use Prim.Native.Char.{Char, code}

pub data FindingType : Type 0 where
  password_strength url_scan email_scan breach_monitor file_scan weekly_digest : FindingType

-- JSON, where the numbers are whole.
mutual
  pub data Value : Type 0 where
    null : Value
    text : String → Value
    number : ℤ → Value
    boolean : Bool → Value
    array : Items → Value
    object : Fields → Value

  pub data Items : Type 0 where
    nil : Items
    cons : Value → Items → Items

  pub data Fields : Type 0 where
    end : Fields
    field : String → Value → Fields → Fields

-- An array of texts.
abbrev pub texts : List String → Value
texts ss = array (go ss)
  where
    go : List String → Items
    go [] = nil
    go (s ∷ rest) = cons (text s) (go rest)

abbrev pub Payload : Type 0
Payload = Dict Value

abbrev pub allowed_keys : FindingType → List String
allowed_keys password_strength = "finding_type" ∷ "score" ∷ "matched_patterns" ∷ []
allowed_keys url_scan = "finding_type" ∷ "domain" ∷ "heuristic_flags" ∷ "reputation_verdict" ∷ []
allowed_keys email_scan =
    "finding_type" ∷ "spf_result" ∷ "dkim_result" ∷ "dmarc_result" ∷ "sender_domain_match"
    ∷ "url_flag_count" ∷ []
allowed_keys breach_monitor = "finding_type" ∷ "breach_count" ∷ "data_classes" ∷ []
allowed_keys file_scan =
    "finding_type" ∷ "file_extension" ∷ "signature_mismatch" ∷ "double_extension" ∷ "macro_detected"
    ∷ "reputation_verdict" ∷ []
allowed_keys weekly_digest =
    "finding_type" ∷ "total_passwords" ∷ "weak_passwords" ∷ "reused_passwords" ∷ "health_score"
    ∷ "breached_accounts" ∷ []

abbrev pub type_names : Dict FindingType
type_names =
    ("password_strength", password_strength)
    ∷ ("url_scan", url_scan)
    ∷ ("email_scan", email_scan)
    ∷ ("breach_monitor", breach_monitor)
    ∷ ("file_scan", file_scan)
    ∷ ("weekly_digest", weekly_digest)
    ∷ []

-- The property key that a value is converted to, where it can be the name of a type: an array of
-- one value is converted as that value is.
unfoldable pub property_key : Value → Option String
property_key (text name) = some name
property_key (array (cons v nil)) = property_key v
property_key v = none

abbrev pub type_named : Option String → Option FindingType
type_named none = none
type_named (some name) = Dict.get type_names name

abbrev pub type_of : Option Value → Option FindingType
type_of none = none
type_of (some v) = type_named (property_key v)

abbrev pub finding_type : Payload → Option FindingType
finding_type payload = type_of (Dict.get payload "finding_type")

abbrev pub char_codes : String → List ℕ
char_codes String.[] = []
char_codes (String.◌∷◌ c s) = code c ∷ char_codes s

-- `[^\s@]`
abbrev pub is_plain : ℕ → Bool
is_plain c = not (is_space c) && not (eqb c 64)

-- `[^\s@]{2,}$`
abbrev pub ends_plain : List ℕ → Bool
ends_plain s = leb 2 (length s) && all is_plain s

-- `[^\s@]+\.[^\s@]{2,}$`, where `seen` says whether a character of the `+` was read.
unfoldable pub matches_domain : Bool → List ℕ → Bool
matches_domain seen [] = false
matches_domain seen (c ∷ s) =
    let rest = matches_domain true s in (seen && (eqb c 46 && ends_plain s)) || (is_plain c && rest)

-- `[^\s@]+@[^\s@]+\.[^\s@]{2,}$`
unfoldable pub matches_address : Bool → List ℕ → Bool
unfolding matches_domain
matches_address seen [] = false
matches_address seen (c ∷ s) =
    let rest = matches_address true s in
    (seen && (eqb c 64 && matches_domain false s)) || (is_plain c && rest)

-- `EMAIL_PATTERN.test(value)`
unfoldable pub is_email : String → Bool
unfolding matches_address
is_email s = matches_address false (char_codes s)

-- `URL_SCHEME_PATTERN.test(value)`
unfoldable pub has_scheme : String → Bool
unfolding includes
has_scheme s = includes s "://"

-- One more of a character in the `Map` of counts.
abbrev pub count_in : ℕ → List (ℕ × ℕ) → List (ℕ × ℕ)
count_in c [] = (c, 1) ∷ []
count_in c ((d, n) ∷ freq) = if eqb c d then (d, suc n) ∷ freq else (d, n) ∷ count_in c freq

abbrev pub count_all : List ℕ → List (ℕ × ℕ) → List (ℕ × ℕ)
count_all [] freq = freq
count_all (c ∷ s) freq = count_all s (count_in c freq)

abbrev pub counts : List (ℕ × ℕ) → List ℕ
counts [] = []
counts ((d, n) ∷ freq) = n ∷ counts freq

-- `is_high counts n`: whether the entropy of a text of `n` characters with these counts is above
-- the threshold.
module _ (is_high : List ℕ → ℕ → Bool) where
  unfoldable pub has_high_entropy : String → Bool
  has_high_entropy s =
      let chars = char_codes s in
      leb 20 (length chars) && is_high (counts (count_all chars [])) (length chars)

  -- Whether `checkString` throws.
  abbrev pub check_string : String → Bool
  check_string s = is_email s || has_scheme s || has_high_entropy s

  abbrev pub check_item : Value → Bool
  check_item (text s) = check_string s
  check_item v = false

  abbrev pub check_items : Items → Bool
  check_items nil = false
  check_items (cons v items) = check_item v || check_items items

  -- Only a text, or a text that stands directly in an array, is checked.
  abbrev pub check_value : Value → Bool
  check_value (text s) = check_string s
  check_value (array items) = check_items items
  check_value v = false

  abbrev pub check_entry : String × Value → Bool
  check_entry (key, value) = not (key == "finding_type") && check_value value

  -- Whether `rejectIfRawSecret` throws.
  unfoldable pub reject_if_raw_secret : Payload → Bool
  reject_if_raw_secret payload = any check_entry payload

  abbrev pub is_allowed : FindingType → String → Bool
  is_allowed type key = any (λ k. k == key) (allowed_keys type)

  -- Whether `validateSchema` throws.
  abbrev pub violates : Option FindingType → Payload → Bool
  violates none payload = true
  violates (some type) payload = any (λ entry. not (is_allowed type entry.0)) payload

  unfoldable pub validate_schema : Payload → Bool
  validate_schema payload = violates (finding_type payload) payload
