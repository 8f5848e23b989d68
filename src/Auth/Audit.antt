-- ===== src/Auth/Audit.antt =====
-- `AuditService` (backend/auth-service/src/auth/audit.service.ts): the audit events of users, with
-- the sanitizer of their metadata. The table and `toLowerCase` are parameters. The identifier and
-- the time that the database gives an event are arguments.
pub mod Trail
use sentinel_vault.Common.{
  ℕ, zero, suc, String, Bool, true, not, ◌&&◌, Option, none, some, List, [], ◌∷◌, any, length,
  filter, ◌==◌, if◌then◌else◌,
}
use sentinel_vault.Common.Text.{is_empty, includes}
use sentinel_vault.Common.Dict.{Dict}
use sentinel_vault.Common.Equality.{string_eq}
use sentinel_vault.Common.Exec.{Exec, ok}
use sentinel_vault.Common.Number.{ℤ}
use sentinel_vault.Common.Repository.{Repository, descending}

-- What metadata holds, whose type is `Record<string, any>`: JSON, where the numbers are whole.
mutual
  pub data MetaValue : Type 0 where
    null undefined : MetaValue
    text : String → MetaValue
    number : ℤ → MetaValue
    boolean : Bool → MetaValue
    array : MetaItems → MetaValue
    object : MetaFields → MetaValue

  pub data MetaItems : Type 0 where
    nil : MetaItems
    cons : MetaValue → MetaItems → MetaItems

  pub data MetaFields : Type 0 where
    end : MetaFields
    field : String → MetaValue → MetaFields → MetaFields

abbrev pub texts : List String → MetaItems
texts [] = nil
texts (s ∷ ss) = cons (text s) (texts ss)

abbrev pub optional_number : Option ℤ → MetaValue
optional_number none = undefined
optional_number (some n) = number n

pub record LogEventParams : Type 0 where
  pub user_id : String
  pub event_type : String
  pub ip_address : Option String
  pub user_agent : Option String
  pub metadata : Option (Dict MetaValue)

pub record AuditEvent : Type 0 where
  pub id : String
  pub user_id : String
  pub event_type : String
  pub timestamp : ℕ
  pub ip_address : Option String
  pub user_agent : Option String
  pub metadata : Option (Dict MetaValue)

abbrev pub event_key : AuditEvent → String
event_key e = e.id

pub record AuditService : Type 1 where
  pub events : Repository AuditEvent event_key
  pub lower : String → String

abbrev pub forbidden_words : List String
forbidden_words =
    "password" ∷ "plaintext" ∷ "secret" ∷ "seedphrase" ∷ "privatekey" ∷ "token" ∷ "content"
    ∷ "masterkey" ∷ "vaultkey" ∷ []

abbrev pub skip {ℓ} : {A : Type ℓ} → ℕ → List A → List A
skip zero xs = xs
skip (suc n) [] = []
skip (suc n) (x ∷ xs) = skip n xs

abbrev pub take {ℓ} : {A : Type ℓ} → ℕ → List A → List A
take zero xs = []
take (suc n) [] = []
take (suc n) (x ∷ xs) = x ∷ take n xs

abbrev pub event_time : AuditEvent → ℕ
event_time e = e.timestamp

-- `eventType && eventType !== 'all'`
abbrev pub is_type : Option String → AuditEvent → Bool
is_type none e = true
is_type (some type) e =
    if not (is_empty type) && not (type == "all") then e.event_type == type else true

abbrev pub wanted_event : String → Option String → AuditEvent → Bool
wanted_event user type e = e.user_id == user && is_type type e

module _ (audit : AuditService) where
  open audit use {events, lower}

  abbrev pub is_forbidden : String → Bool
  is_forbidden key = any (includes (lower key)) forbidden_words

  abbrev pub sanitize_metadata : Option (Dict MetaValue) → Option (Dict MetaValue)
  sanitize_metadata none = none
  sanitize_metadata (some meta) = some (filter (λ entry. not (is_forbidden entry.0)) meta)

  abbrev pub new_event : String → ℕ → LogEventParams → AuditEvent
  new_event id now params = record {
    id = id;
    user_id = params.user_id;
    event_type = params.event_type;
    timestamp = now;
    ip_address = params.ip_address;
    user_agent = params.user_agent;
    metadata = sanitize_metadata params.metadata;
  }

  unfoldable pub log_event : String → ℕ → LogEventParams → Exec events.Table AuditEvent
  log_event id now params t =
      (ok (new_event id now params), events.save (new_event id now params) t)

  -- The events of a page, and how many there are on all pages.
  unfoldable pub get_user_audit_logs :
      String → Option String → ℕ → ℕ → Exec events.Table (List AuditEvent × ℕ)
  get_user_audit_logs user type limit offset t =
      let found = events.find (descending event_time) (wanted_event user type) t in
      (ok (take limit (skip offset found), length found), t)

  -- A history of events.
  unfoldable pub run : List (String × ℕ × LogEventParams) → events.Table → events.Table
  run [] t = t
  run ((id, now, params) ∷ ops) t = run ops (log_event id now params t).1
