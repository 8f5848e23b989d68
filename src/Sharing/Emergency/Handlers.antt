-- ===== src/Sharing/Emergency/Handlers.antt =====
-- The handlers of `EmergencyService` on its two tables.
use sentinel_vault.Common.{ℕ, String, Option, none, some, List, [], ◌∷◌, if◌then◌else◌, or_default}
use sentinel_vault.Common.Number.{ℤ, pos}
use sentinel_vault.Common.Exec.{Exec, ok, pure, raise, modify, ◌>>◌, bad_request, not_found}
use sentinel_vault.Common.Repository.{unordered, descending}
use sentinel_vault.Sharing.Emergency.{
  is_pending, is_granted, EmergencyContact, AccessRequest, designates, of_owner, of_contact_user,
  owned_contact, active_contact, has_contact_id, pending_of, owned_request, has_request_id,
  pending_for_owner, contact_created_at, request_time, new_contact, redesignated, revoked_contact,
  new_request, resolved, is_party, is_matured, contact_key_of, EmergencyService, denied, granted,
  cancelled,
}

module _ (service : EmergencyService) where
  open service use {contacts, requests}

  abbrev pub Tables : Type 0
  Tables = contacts.Table × requests.Table

  abbrev save_contact : EmergencyContact → Tables → Tables
  save_contact c (cs, rs) = (contacts.save c cs, rs)

  abbrev save_request : AccessRequest → Tables → Tables
  save_request r (cs, rs) = (cs, requests.save r rs)

  abbrev store_contact : EmergencyContact → Exec Tables EmergencyContact
  store_contact c = modify (save_contact c) >> pure c

  abbrev pub designate :
      String
      → ℕ
      → String
      → String
      → String
      → ℤ
      → Option String
      → Option EmergencyContact
      → Exec Tables EmergencyContact
  designate uuid now owner email user hours key (some existing) =
      store_contact (redesignated hours key existing)
  designate uuid now owner email user hours key none =
      store_contact (new_contact uuid now owner email user hours key)

  unfoldable pub add_contact :
      String
      → ℕ
      → String
      → String
      → String
      → Option ℤ
      → Option String
      → Exec Tables EmergencyContact
  add_contact uuid now owner email user hours key s =
      designate uuid now owner email user (or_default hours (pos 72)) key
        (contacts.find_one (designates owner user) s.0) s

  get_contacts_for_owner : String → Exec Tables (List EmergencyContact)
  get_contacts_for_owner owner s =
      (ok (contacts.find (descending contact_created_at) (of_owner owner) s.0), s)

  get_contacts_for_contact_user : String → Exec Tables (List EmergencyContact)
  get_contacts_for_contact_user user s =
      (ok (contacts.find (descending contact_created_at) (of_contact_user user) s.0), s)

  -- The loop of `revokeContact`.
  unfoldable pub cancel_all : ℕ → List AccessRequest → requests.Table → requests.Table
  cancel_all now [] rs = rs
  cancel_all now (r ∷ pendings) rs =
      cancel_all now pendings (requests.save (resolved cancelled now r) rs)

  abbrev pub cancel_pending : ℕ → String → Tables → Tables
  cancel_pending now id (cs, rs) =
      (cs, cancel_all now (requests.find unordered (pending_of id) rs) rs)

  abbrev pub revoke_found : ℕ → String → Option EmergencyContact → Exec Tables (Unit {0})
  revoke_found now id none = raise not_found
  revoke_found now id (some c) =
      modify (save_contact (revoked_contact c)) >> modify (cancel_pending now id)

  unfoldable pub revoke_contact : ℕ → String → String → Exec Tables (Unit {0})
  revoke_contact now owner id s =
      revoke_found now id (contacts.find_one (owned_contact owner id) s.0) s

  abbrev pub submit :
      String → ℕ → EmergencyContact → Option AccessRequest → Exec Tables AccessRequest
  submit uuid now c (some existing) = pure existing
  submit uuid now c none =
      modify (save_request (new_request uuid now c)) >> pure (new_request uuid now c)

  abbrev pub request_found :
      String → ℕ → String → Option EmergencyContact → Exec Tables AccessRequest
  request_found uuid now id none s = raise not_found s
  request_found uuid now id (some c) s = submit uuid now c (requests.find_one (pending_of id) s.1) s

  unfoldable pub request_access : String → ℕ → String → String → Exec Tables AccessRequest
  request_access uuid now user id s =
      request_found uuid now id (contacts.find_one (active_contact user id) s.0) s

  abbrev pub deny_found : ℕ → Option AccessRequest → Exec Tables AccessRequest
  deny_found now none = raise not_found
  deny_found now (some r) =
      if is_pending r.status
      then (modify (save_request (resolved denied now r)) >> pure (resolved denied now r))
      else raise bad_request

  unfoldable pub deny_request : ℕ → String → String → Exec Tables AccessRequest
  deny_request now owner id s = deny_found now (requests.find_one (owned_request owner id) s.1) s

  -- The request as it is after the waiting period is looked at.
  abbrev evaluated : ℕ → AccessRequest → AccessRequest
  evaluated now r = if is_matured now r then resolved granted now r else r

  abbrev pub evaluate : ℕ → AccessRequest → Tables → Tables
  evaluate now r s = if is_matured now r then save_request (resolved granted now r) s else s

  -- The wrapped key for a request.
  abbrev key_for : AccessRequest → Tables → Option String
  key_for r s =
      if is_granted r.status
      then contact_key_of (contacts.find_one (has_contact_id r.contact_id) s.0)
      else none

  abbrev pub status_found :
      ℕ → String → Option AccessRequest → Exec Tables (AccessRequest × Option String)
  status_found now user none s = raise not_found s
  status_found now user (some r) s =
      if is_party user r
      then (let s' = evaluate now r s in (ok (evaluated now r, key_for (evaluated now r) s'), s'))
      else raise not_found s

  unfoldable pub get_request_status :
      ℕ → String → String → Exec Tables (AccessRequest × Option String)
  get_request_status now user id s =
      status_found now user (requests.find_one (has_request_id id) s.1) s

  get_pending_requests_for_owner : String → Exec Tables (List AccessRequest)
  get_pending_requests_for_owner owner s =
      (ok (requests.find (descending request_time) (pending_for_owner owner) s.1), s)

  -- The requests to the service that change its tables.
  pub data Op : Type 0 where
    add : String → ℕ → String → String → String → Option ℤ → Option String → Op
    revoke : ℕ → String → String → Op
    submits : String → ℕ → String → String → Op
    deny : ℕ → String → String → Op
    look : ℕ → String → String → Op

  unfoldable pub step : Op → Tables → Tables
  step (add uuid now owner email user hours key) s =
      (add_contact uuid now owner email user hours key s).1
  step (revoke now owner id) s = (revoke_contact now owner id s).1
  step (submits uuid now user id) s = (request_access uuid now user id s).1
  step (deny now owner id) s = (deny_request now owner id s).1
  step (look now user id) s = (get_request_status now user id s).1

  unfoldable pub run : List Op → Tables → Tables
  run [] s = s
  run (op ∷ ops) s = run ops (step op s)
