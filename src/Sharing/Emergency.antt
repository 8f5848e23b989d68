-- ===== src/Sharing/Emergency.antt =====
-- Emergency contacts: `EmergencyService`
-- (backend/sharing-service/src/emergency/emergency.service.ts) and its entities. The waiting period
-- is a whole number of hours, as its column is, and may be negative, since nothing checks it; the log is left out, and so is the column `vaultId`, which the service
-- neither reads nor writes. The clock is read once in a handler.
pub mod Handlers
pub mod Cancel
pub mod Moves
pub mod Origin
pub mod Release
pub mod Revocation
mod Tests
use sentinel_vault.Common.{
  ℕ, ◌+◌, ◌-◌, ◌*◌, String, Bool, true, false, not, ◌&&◌, ◌||◌, Option, none, some, List, [], ◌∷◌,
  leb, ◌==◌, if◌then◌else◌, or_default,
}
use sentinel_vault.Common.Number.{ℤ, pos, negsuc, leb_ℤ}
use sentinel_vault.Common.Text.{is_set}
use sentinel_vault.Common.Exec.{
  Exec, Result, ok, pure, raise, modify, ◌>>=◌, ◌>>◌, bad_request, not_found,
}
use sentinel_vault.Common.Equality.{string_eq}
use sentinel_vault.Common.Repository.{Repository, unordered, descending, unless_undefined}

pub data ContactStatus : Type 0 where
  active revoked : ContactStatus

pub data RequestStatus : Type 0 where
  pending denied granted cancelled : RequestStatus

abbrev pub is_active : ContactStatus → Bool
is_active active = true
is_active revoked = false

abbrev pub is_pending : RequestStatus → Bool
is_pending pending = true
is_pending denied = false
is_pending granted = false
is_pending cancelled = false

abbrev pub is_granted : RequestStatus → Bool
is_granted pending = false
is_granted denied = false
is_granted granted = true
is_granted cancelled = false

pub record EmergencyContact : Type 0 where
  pub id : String
  pub owner_user_id : String
  pub contact_user_id : String
  pub contact_email : String
  pub waiting_period_hours : ℤ
  pub status : ContactStatus
  pub wrapped_vault_key : Option String
  pub created_at : ℕ

pub record AccessRequest : Type 0 where
  pub id : String
  pub contact_id : String
  pub owner_user_id : String
  pub contact_user_id : String
  pub status : RequestStatus
  pub requested_at : ℕ
  pub grants_at : ℤ
  pub resolved_at : Option ℕ

abbrev pub contact_key : EmergencyContact → String
contact_key contact = contact.id

abbrev pub request_key : AccessRequest → String
request_key req = req.id

-- The `where` conditions.
abbrev pub designates : String → String → EmergencyContact → Bool
designates owner user c =
    c.owner_user_id == owner && (c.contact_user_id == user && is_active c.status)

abbrev pub of_owner : String → EmergencyContact → Bool
of_owner owner c = c.owner_user_id == owner && is_active c.status

abbrev pub of_contact_user : String → EmergencyContact → Bool
of_contact_user user c = c.contact_user_id == user && is_active c.status

abbrev pub owned_contact : String → String → EmergencyContact → Bool
owned_contact owner id c = c.id == id && c.owner_user_id == owner

abbrev pub active_contact : String → String → EmergencyContact → Bool
active_contact user id c = c.id == id && (c.contact_user_id == user && is_active c.status)

abbrev pub has_contact_id : String → EmergencyContact → Bool
has_contact_id id c = c.id == id

abbrev pub pending_of : String → AccessRequest → Bool
pending_of contact r = r.contact_id == contact && is_pending r.status

abbrev pub owned_request : String → String → AccessRequest → Bool
owned_request owner id r = r.id == id && r.owner_user_id == owner

abbrev pub has_request_id : String → AccessRequest → Bool
has_request_id id r = r.id == id

abbrev pub pending_for_owner : String → AccessRequest → Bool
pending_for_owner owner r = r.owner_user_id == owner && is_pending r.status

abbrev pub contact_created_at : EmergencyContact → ℕ
contact_created_at c = c.created_at

abbrev pub request_time : AccessRequest → ℕ
request_time r = r.requested_at

abbrev pub new_contact :
    String → ℕ → String → String → String → ℤ → Option String → EmergencyContact
new_contact uuid now owner email user hours key = record {
  id = uuid;
  owner_user_id = owner;
  contact_user_id = user;
  contact_email = email;
  waiting_period_hours = hours;
  status = active;
  wrapped_vault_key = key;
  created_at = now;
}

-- The designation that `addContact` finds, with the new period, and the new key if there is one.
abbrev pub redesignated : ℤ → Option String → EmergencyContact → EmergencyContact
redesignated hours key c = record c {
  waiting_period_hours = hours;
  wrapped_vault_key = if is_set key then key else c.wrapped_vault_key;
}

-- The row that is stored after `contact.wrappedVaultKey = undefined`.
abbrev pub revoked_contact : EmergencyContact → EmergencyContact
revoked_contact c = record c {
  status = revoked;
  wrapped_vault_key = unless_undefined none c.wrapped_vault_key;
}

-- The time so many hours after `now`; the service lets the number of hours be negative.
abbrev pub plus_hours : ℕ → ℤ → ℤ
plus_hours now (pos h) = pos (now + h * 3600 * 1000)
plus_hours now (negsuc h) =
    let back = (h + 1) * 3600 * 1000 in
    if leb back now then pos (now - back) else negsuc (back - now - 1)

abbrev pub new_request : String → ℕ → EmergencyContact → AccessRequest
new_request uuid now c = record {
  id = uuid;
  contact_id = c.id;
  owner_user_id = c.owner_user_id;
  contact_user_id = c.contact_user_id;
  status = pending;
  requested_at = now;
  grants_at = plus_hours now c.waiting_period_hours;
  resolved_at = none;
}

abbrev pub resolved : RequestStatus → ℕ → AccessRequest → AccessRequest
resolved status now r = record r { status = status; resolved_at = some now }

-- The caller is the owner or the contact of the request.
abbrev pub is_party : String → AccessRequest → Bool
is_party user r = r.owner_user_id == user || r.contact_user_id == user

abbrev pub is_matured : ℕ → AccessRequest → Bool
is_matured now r = is_pending r.status && leb_ℤ r.grants_at (pos now)

abbrev pub contact_key_of : Option EmergencyContact → Option String
contact_key_of none = none
contact_key_of (some c) = c.wrapped_vault_key

-- The repositories that the constructor takes.
pub record EmergencyService : Type 1 where
  pub contacts : Repository EmergencyContact contact_key
  pub requests : Repository AccessRequest request_key
