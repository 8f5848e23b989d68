-- ===== src/Auth/Pat.antt =====
-- `PatService` (backend/auth-service/src/auth/pat.service.ts): personal access tokens, which it
-- keeps in a `Map` in memory, with an event in the audit trail for each change. SHA-256, as a text
-- of hexadecimal digits, is a parameter; the random bytes, also as such a text, and the identifiers
-- are arguments. `expiryDays` is a whole number, and a date has no text form. The name of a token
-- is not `undefined`.
pub mod Guard
pub mod Kept
pub mod Life
pub mod Present
pub mod Usable
mod Tests
use sentinel_vault.Common.{
  ℕ, zero, suc, ◌+◌, ◌*◌, String, Bool, true, false, not, ◌&&◌, ◌||◌, Option, none, some, List, [],
  ◌∷◌, find, any, ◌==◌, ltb, if◌then◌else◌,
}
use sentinel_vault.Common.Text.{is_empty}
use sentinel_vault.Common.Number.{ℤ, pos, negsuc}
use sentinel_vault.Common.Dict
use sentinel_vault.Common.Dict.{Dict}
use sentinel_vault.Common.Equality.{string_eq}
use sentinel_vault.Common.Exec.{
  Exec, ok, pure, gets, modify, or_raise, raise_if, ◌>>=◌, ◌>>◌, bad_request, unauthorized,
  forbidden, not_found,
}
use sentinel_vault.Auth.Audit.{
  AuditService, LogEventParams, MetaValue, text, texts, array, optional_number, log_event,
}
use Prim.Native.String.{◌++◌}

pub record PatRecord : Type 0 where
  pub id : String
  pub user_id : String
  pub name : String
  pub token_prefix : String
  pub token_hash : String
  pub scopes : List String
  pub expires_at : Option ℕ
  pub last_used_at : Option ℕ
  pub is_revoked : Bool
  pub created_at : ℕ

pub record CreatePatDto : Type 0 where
  pub name : String
  pub scopes : Option (List String)
  pub expiry_days : Option ℤ

pub record CreatePatResponseDto : Type 0 where
  pub id : String
  pub name : String
  pub raw_token : String
  pub token_prefix : String
  pub scopes : List String
  pub expires_at : Option ℕ
  pub created_at : ℕ

pub record PatListItemDto : Type 0 where
  pub id : String
  pub name : String
  pub token_prefix : String
  pub scopes : List String
  pub expires_at : Option ℕ
  pub last_used_at : Option ℕ
  pub is_revoked : Bool
  pub created_at : ℕ

pub record PatService : Type 1 where
  pub audit : AuditService
  pub sha256_hex : String → String

abbrev pub day_ms : ℕ
day_ms = 24 * 60 * 60 * 1000

-- `dto.expiryDays && dto.expiryDays > 0`
abbrev pub expiry : ℕ → Option ℤ → Option ℕ
expiry now none = none
expiry now (some (pos zero)) = none
expiry now (some (pos (suc n))) = some (now + suc n * day_ms)
expiry now (some (negsuc n)) = none

abbrev pub non_empty_scopes : Option (List String) → Option (List String)
non_empty_scopes none = none
non_empty_scopes (some []) = none
non_empty_scopes (some (x ∷ xs)) = some (x ∷ xs)

abbrev pub raw_token_of : String → String
raw_token_of secret = "pat_sv_live_" ++ secret

-- The first four characters.
abbrev pub first_four : String → String
first_four (String.◌∷◌ a (String.◌∷◌ b (String.◌∷◌ c (String.◌∷◌ d s)))) =
    String.◌∷◌ a (String.◌∷◌ b (String.◌∷◌ c (String.◌∷◌ d "")))
first_four s = s

abbrev pub has_hash : String → PatRecord → Bool
has_hash hash r = r.token_hash == hash

-- `matchedRecord.expiresAt && new Date() > matchedRecord.expiresAt`
abbrev pub is_expired : ℕ → PatRecord → Bool
is_expired now r = elim r.expires_at [ none ↦ false | some t ↦ ltb t now ]

-- `scopes.includes(scope)`
abbrev pub lists : String → List String → Bool
lists scope scopes = any (λ x. x == scope) scopes

abbrev pub has_scope : String → PatRecord → Bool
has_scope scope r = lists scope r.scopes || lists "admin:*" r.scopes

abbrev pub list_item : PatRecord → PatListItemDto
list_item r = record {
  id = r.id;
  name = r.name;
  token_prefix = r.token_prefix;
  scopes = r.scopes;
  expires_at = r.expires_at;
  last_used_at = r.last_used_at;
  is_revoked = r.is_revoked;
  created_at = r.created_at;
}

abbrev pub tokens_of : String → List PatRecord → List PatListItemDto
tokens_of user [] = []
tokens_of user (r ∷ rs) =
    let rest = tokens_of user rs in if r.user_id == user then list_item r ∷ rest else rest

abbrev pub event : String → String → Dict MetaValue → LogEventParams
event user type meta = record {
  user_id = user;
  event_type = type;
  ip_address = none;
  user_agent = none;
  metadata = some meta;
}

module _ (service : PatService) where
  open service use {audit, sha256_hex}

  pub record State : Type 0 where
    pub tokens : Dict PatRecord
    pub trail : audit.events.Table

  abbrev pub put : String → PatRecord → State → State
  put id r s = record s { tokens = Dict.set s.tokens id r }

  abbrev pub log : String → ℕ → LogEventParams → State → State
  log id now params s = record s { trail = (log_event audit id now params s.trail).1 }

  abbrev pub new_token : String → ℕ → String → String → CreatePatDto → List String → PatRecord
  new_token id now secret user dto scopes = record {
    id = id;
    user_id = user;
    name = dto.name;
    token_prefix = "pat_sv_live_" ++ (first_four secret ++ "...");
    token_hash = sha256_hex (raw_token_of secret);
    scopes = scopes;
    expires_at = expiry now dto.expiry_days;
    last_used_at = none;
    is_revoked = false;
    created_at = now;
  }

  abbrev pub response : String → PatRecord → CreatePatResponseDto
  response secret r = record {
    id = r.id;
    name = r.name;
    raw_token = raw_token_of secret;
    token_prefix = r.token_prefix;
    scopes = r.scopes;
    expires_at = r.expires_at;
    created_at = r.created_at;
  }

  unfoldable pub create_token :
      String → String → ℕ → String → String → CreatePatDto → Exec State CreatePatResponseDto
  create_token id event_id now secret user dto = do
    raise_if (is_empty dto.name) bad_request
    scopes ← or_raise (non_empty_scopes dto.scopes) bad_request
    let r = new_token id now secret user dto scopes
    modify (put id r)
    modify (
        log event_id now (
          event user "pat_created" (
            ("tokenId", text id)
            ∷ ("name", text dto.name)
            ∷ ("scopes", array (texts scopes))
            ∷ ("expiryDays", optional_number dto.expiry_days)
            ∷ [])))
    pure (response secret r)

  abbrev pub used : ℕ → PatRecord → PatRecord
  used now r = record r { last_used_at = some now }

  unfoldable pub validate_token_and_scope : String → ℕ → String → String → Exec State PatRecord
  validate_token_and_scope event_id now raw scope = do
    r ←
        or_raise (← gets (λ s. find (has_hash (sha256_hex raw)) (Dict.values s.tokens)))
          unauthorized
    raise_if r.is_revoked unauthorized
    raise_if (is_expired now r) unauthorized
    raise_if (not (has_scope scope r)) forbidden
    modify (put r.id (used now r))
    modify (
        log event_id now (
          event r.user_id "pat_used" (("tokenId", text r.id) ∷ ("requiredScope", text scope) ∷ [])))
    pure (used now r)

  unfoldable pub get_user_tokens : String → Exec State (List PatListItemDto)
  get_user_tokens user s = (ok (tokens_of user (Dict.values s.tokens)), s)

  abbrev pub revoked : PatRecord → PatRecord
  revoked r = record r { is_revoked = true }

  unfoldable pub revoke_token : String → ℕ → String → String → Exec State (Unit {0})
  revoke_token event_id now user id = do
    r ← or_raise (← gets (λ s. Dict.get s.tokens id)) not_found
    raise_if (not (r.user_id == user)) not_found
    modify (put id (revoked r))
    modify (
        log event_id now
          (event user "pat_revoked" (("tokenId", text r.id) ∷ ("name", text r.name) ∷ [])))

  abbrev pub clear : State → State
  clear s = record s { tokens = [] }

  -- The requests that change the state.
  pub data Op : Type 0 where
    creates : String → String → ℕ → String → String → CreatePatDto → Op
    validates : String → ℕ → String → String → Op
    revokes : String → ℕ → String → String → Op
    clears : Op

  unfoldable pub step : Op → State → State
  step (creates id event_id now secret user dto) s =
      (create_token id event_id now secret user dto s).1
  step (validates event_id now raw scope) s = (validate_token_and_scope event_id now raw scope s).1
  step (revokes event_id now user id) s = (revoke_token event_id now user id s).1
  step clears s = clear s

  unfoldable pub run : List Op → State → State
  run [] s = s
  run (op ∷ ops) s = run ops (step op s)
