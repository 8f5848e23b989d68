-- ===== src/Sharing/Emergency/Moves.antt =====
-- How an access request moves through its states, over every history of requests to the service.
use sentinel_vault.Common.{
  ℕ, String, Bool, true, false, false≢true, ◌≡◌, inl, inr, refl, sym, subst, ◌∙◌, Option, none,
  some, List, [], ◌∷◌, ap, or_default, All, ◌==◌, eq_iff, arith, Bool-cases,
}
use sentinel_vault.Common.Number.{ℤ, pos, leb_ℤ}
use sentinel_vault.Common.Repository.{patch_if}
use sentinel_vault.Sharing.Emergency.{
  EmergencyService, EmergencyContact, AccessRequest, RequestStatus, denied, granted, cancelled,
  is_pending, is_granted, pending_of, resolved, new_request, is_matured, is_party, owned_request,
  active_contact, has_request_id, owned_contact, designates,
}
use sentinel_vault.Sharing.Emergency.Handlers.{
  Tables, Op, add, revoke, submits, deny, look, step, run, add_contact, designate, revoke_contact,
  revoke_found, request_access, request_found, submit, deny_request, deny_found, get_request_status,
  status_found, evaluate,
}
use sentinel_vault.Sharing.Emergency.Cancel.{at-cancel_pending}

-- A move of the row under one key: it stays; if `fresh`, a request of a contact is submitted; or a
-- pending request is resolved, and granted only once its waiting period is over.
pub data Moves (fresh : Bool) (o o' : Option AccessRequest) : Type 0 where
  stays : o' ≡ o → Moves fresh o o'
  arrives :
      (uuid : String) (now : ℕ) (c : EmergencyContact)
      → fresh ≡ true
      → o' ≡ some (new_request uuid now c)
      → Moves fresh o o'
  resolves :
      (r : AccessRequest) (status : RequestStatus) (now : ℕ)
      → o ≡ some r
      → is_pending r.status ≡ true
      → o' ≡ some (resolved status now r)
      → is_pending status ≡ false
      → (is_granted status ≡ true → leb_ℤ r.grants_at (pos now) ≡ true)
      → Moves fresh o o'

-- The request submits an access request under the identifier.
abbrev pub submits_under : String → {service : EmergencyService} → Op service → Bool
submits_under k (add uuid now owner email user hours key) = false
submits_under k (revoke now owner id) = false
submits_under k (submits uuid now user id) = uuid == k
submits_under k (deny now owner id) = false
submits_under k (look now user id) = false

module _ (service : EmergencyService) where
  open service use {contacts, requests}

  -- Saving the resolution of the pending row that a query found.
  resolve-Moves :
      (fresh : Bool) (status : RequestStatus) (now : ℕ) (r : AccessRequest) (t : requests.Table)
      (k : String)
      → requests.at t r.id ≡ some r
      → is_pending r.status ≡ true
      → is_pending status ≡ false
      → (is_granted status ≡ true → leb_ℤ r.grants_at (pos now) ≡ true)
      → Moves fresh (requests.at t k) (requests.at (requests.save (resolved status now r) t) k)
  resolve-Moves fresh status now r t k stored p done due = elim (Bool-cases (r.id == k)) [
    | inl here ↦
        let same = (eq_iff r.id k).0 here in
        resolves r status now (subst (λ j. requests.at t j ≡ some r) same stored) p
          (requests.at-save (resolved status now r) t k ∙ rw here refl) done due
    | inr other ↦ stays (requests.at-save (resolved status now r) t k ∙ rw other refl)
  ]

  cancel-Moves :
      (fresh : Bool) (now : ℕ) (id : String) (o : Option AccessRequest)
      → Moves fresh o (patch_if (pending_of id) (resolved cancelled now) o)
  cancel-Moves fresh now id none = stays refl
  cancel-Moves fresh now id (some r) = elim (Bool-cases (pending_of id r)) [
    | inl hit ↦
        resolves r cancelled now refl (ground arith) (rw hit refl) refl (λ h. absurd (false≢true h))
    | inr miss ↦ stays (rw miss refl)
  ]

  submit-Moves :
      (uuid : String) (now : ℕ) (c : EmergencyContact) (o : Option AccessRequest)
      (s : Tables service) (k : String)
      → Moves (uuid == k) (requests.at s.1 k) (requests.at (submit service uuid now c o s).1.1 k)
  submit-Moves uuid now c (some r) s k = stays refl
  submit-Moves uuid now c none s k = elim (Bool-cases (uuid == k)) [
    | inl here ↦
        arrives uuid now c here (requests.at-save (new_request uuid now c) s.1 k ∙ rw here refl)
    | inr other ↦ stays (requests.at-save (new_request uuid now c) s.1 k ∙ rw other refl)
  ]

  request_found-Moves :
      (uuid : String) (now : ℕ) (id : String) (o : Option EmergencyContact) (s : Tables service)
      (k : String)
      → Moves
          (uuid == k)
          (requests.at s.1 k)
          (requests.at (request_found service uuid now id o s).1.1 k)
  request_found-Moves uuid now id none s k = stays refl
  request_found-Moves uuid now id (some c) s k = submit-Moves uuid now c _ s k

  revoke_found-Moves :
      (now : ℕ) (id : String) (o : Option EmergencyContact) (s : Tables service) (k : String)
      → Moves false (requests.at s.1 k) (requests.at (revoke_found service now id o s).1.1 k)
  revoke_found-Moves now id none s k = stays refl
  revoke_found-Moves now id (some c) s k =
      subst (Moves false (requests.at s.1 k)) (sym (at-cancel_pending service now id s k))
        (cancel-Moves false now id (requests.at s.1 k))

  deny_found-Moves :
      (now : ℕ) (o : Option AccessRequest) (s : Tables service) (k : String)
      → ((r : AccessRequest) → o ≡ some r → requests.at s.1 r.id ≡ some r)
      → Moves false (requests.at s.1 k) (requests.at (deny_found service now o s).1.1 k)
  deny_found-Moves now none s k stored = stays refl
  deny_found-Moves now (some r) s k stored = elim (Bool-cases (is_pending r.status)) [
    | inl open_ ↦ rw open_ (
        resolve-Moves false denied now r s.1 k (stored r refl) open_ refl
          (λ h. absurd (false≢true h)))
    | inr closed ↦ rw closed (stays refl)
  ]

  evaluate-Moves :
      (now : ℕ) (r : AccessRequest) (s : Tables service) (k : String)
      → requests.at s.1 r.id ≡ some r
      → Moves false (requests.at s.1 k) (requests.at (evaluate service now r s).1 k)
  evaluate-Moves now r s k stored = elim (Bool-cases (is_matured now r)) [
    | inl due ↦
        rw due
          (resolve-Moves false granted now r s.1 k stored (ground arith) refl (λ h. ground arith))
    | inr early ↦ rw early (stays refl)
  ]

  status_found-Moves :
      (now : ℕ) (user : String) (o : Option AccessRequest) (s : Tables service) (k : String)
      → ((r : AccessRequest) → o ≡ some r → requests.at s.1 r.id ≡ some r)
      → Moves false (requests.at s.1 k) (requests.at (status_found service now user o s).1.1 k)
  status_found-Moves now user none s k stored = stays refl
  status_found-Moves now user (some r) s k stored = elim (Bool-cases (is_party user r)) [
    | inl party ↦ rw party (evaluate-Moves now r s k (stored r refl))
    | inr stranger ↦ rw stranger (stays refl)
  ]

  designate-requests :
      (uuid : String) (now : ℕ) (owner email user : String) (hours : ℤ) (key : Option String)
      (o : Option EmergencyContact) (s : Tables service)
      → (designate service uuid now owner email user hours key o s).1.1 ≡ s.1
  designate-requests uuid now owner email user hours key none s = refl
  designate-requests uuid now owner email user hours key (some c) s = refl

  -- Every request to the service makes such a move on every row.
  pub step-Moves :
      (op : Op service) (s : Tables service) (k : String)
      → Moves (submits_under k op) (requests.at s.1 k) (requests.at (step service op s).1 k)
  unfolding step add_contact revoke_contact request_access deny_request get_request_status
  step-Moves (add uuid now owner email user hours key) s k = stays (
      ap (λ t. requests.at t k)
        (designate-requests uuid now owner email user (or_default hours (pos 72)) key
          (contacts.find_one (designates owner user) s.0) s))
  step-Moves (revoke now owner id) s k =
      revoke_found-Moves now id (contacts.find_one (owned_contact owner id) s.0) s k
  step-Moves (submits uuid now user id) s k =
      request_found-Moves uuid now id (contacts.find_one (active_contact user id) s.0) s k
  step-Moves (deny now owner id) s k =
      deny_found-Moves now (requests.find_one (owned_request owner id) s.1) s k
        (λ r e. (requests.find_one-some (owned_request owner id) s.1 r e).1)
  step-Moves (look now user id) s k =
      status_found-Moves now user (requests.find_one (has_request_id id) s.1) s k
        (λ r e. (requests.find_one-some (has_request_id id) s.1 r e).1)

  step_settled :
      (k : String) (r : AccessRequest) (o o' : Option AccessRequest)
      → Moves false o o'
      → o ≡ some r
      → is_pending r.status ≡ false
      → o' ≡ some r
  step_settled k r o o' (stays e) stored closed = e ∙ stored
  step_settled k r o o' (arrives uuid now c fresh e) stored closed = absurd (false≢true fresh)
  step_settled k r o o' (resolves q status now e open_ e' done due) stored closed = ground arith

  -- A request that is denied, granted or cancelled never changes again, whatever requests to the
  -- service follow, if none of them submits an access request under the same identifier.
  pub run-resolved :
      (k : String) (r : AccessRequest) (ops : List (Op service)) (s : Tables service)
      → All (λ op. submits_under k op ≡ false) ops
      → requests.at s.1 k ≡ some r
      → is_pending r.status ≡ false
      → requests.at (run service ops s).1 k ≡ some r
  unfolding run
  run-resolved k r [] s quiet stored closed = stored
  run-resolved k r (op ∷ ops) s quiet stored closed =
      run-resolved k r ops (step service op s) quiet.1
        (step_settled k r _ _
          (subst (λ b. Moves b (requests.at s.1 k) (requests.at (step service op s).1 k)) quiet.0
            (step-Moves op s k))
          stored closed)
        closed
