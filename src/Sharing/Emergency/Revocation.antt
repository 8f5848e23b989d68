-- ===== src/Sharing/Emergency/Revocation.antt =====
-- What `revokeContact` does to the designation and its access requests.
use sentinel_vault.Common.{
  ℕ, String, Bool, false, false≢true, ◌≡◌, inl, inr, refl, List, [], ◌∷◌, All, ◌==◌, or_default,
  Bool-cases, sym, subst, ap, ◌∙◌, Option, none, some, eq_iff, arith,
}
use sentinel_vault.Common.Exec.{ok, err, not_found}
use sentinel_vault.Common.Repository.{patch_if}
use sentinel_vault.Sharing.Emergency.{
  EmergencyService, EmergencyContact, AccessRequest, is_active, is_pending, is_party, designates,
  redesignated, new_contact, owned_request, has_request_id, cancelled, pending_of, resolved,
  owned_contact, active_contact, revoked_contact,
}
use sentinel_vault.Sharing.Emergency.Handlers.{
  Tables, revoke_contact, revoke_found, request_access, request_found, Op, add, revoke, submits,
  deny, look, step, run, add_contact, designate, submit, deny_request, deny_found,
  get_request_status, status_found,
}
use sentinel_vault.Common.Number.{ℤ, pos}
use sentinel_vault.Sharing.Emergency.Release.{evaluate-contacts}
use sentinel_vault.Sharing.Emergency.Cancel.{at-cancel_pending}

-- The request adds a designation under the identifier.
abbrev pub adds_under : String → {service : EmergencyService} → Op service → Bool
adds_under k (add uuid now owner email user hours key) = uuid == k
adds_under k (revoke now owner id) = false
adds_under k (submits uuid now user id) = false
adds_under k (deny now owner id) = false
adds_under k (look now user id) = false

module _ (service : EmergencyService) where
  open service use {contacts, requests}

  -- The effect of a revocation.
  abbrev pub Revoked : ℕ → String → String → Tables service → Tables service → Type 0
  Revoked now owner id s s' =
      ((c : EmergencyContact) × (contacts.at s.0 id ≡ some c)
        × (c.owner_user_id ≡ owner)
        × (contacts.at s'.0 id ≡ some (revoked_contact c)))
      × ((k : String)
          → requests.at s'.1 k
            ≡ patch_if (pending_of id) (resolved cancelled now) (requests.at s.1 k))

  revoke_found-Revoked :
      (now : ℕ) (owner id : String) (o : Option EmergencyContact) (s : Tables service)
      → contacts.find_one (owned_contact owner id) s.0 ≡ o
      → (revoke_found service now id o s).0 ≡ ok tt
      → Revoked now owner id s (revoke_found service now id o s).1
  revoke_found-Revoked now owner id none s e h = cc
  revoke_found-Revoked now owner id (some c) s e h =
      let (hit, stored) = contacts.find_one-some (owned_contact owner id) s.0 c e in
      let same : (c.id ≡ id) = ground (arith, eq_iff c.id id) in
      (
        (
          c,
          subst (λ j. contacts.at s.0 j ≡ some c) same stored,
          ground (arith, eq_iff c.owner_user_id owner),
          contacts.at-save (revoked_contact c) s.0 id ∙ rw ((eq_iff c.id id).1 same) refl,
        ),
        λ k. at-cancel_pending service now id (contacts.save (revoked_contact c) s.0, s.1) k,
      )

  inactive-refused :
      (uuid : String) (now : ℕ) (user id : String) (c : EmergencyContact)
      (o : Option EmergencyContact) (s : Tables service)
      → contacts.at s.0 id ≡ some c
      → is_active c.status ≡ false
      → contacts.find_one (active_contact user id) s.0 ≡ o
      → request_found service uuid now id o s ≡ (err not_found, s)
  inactive-refused uuid now user id c none s stored off e = refl
  inactive-refused uuid now user id c (some q) s stored off e =
      let (hit, there) = contacts.find_one-some (active_contact user id) s.0 q e in
      let same : (q ≡ c) = ground (arith, eq_iff q.id id) in
      absurd (
        false≢true
          (sym off ∙ ap (λ (x : EmergencyContact). is_active x.status) (sym same) ∙ ground arith))

  -- The designation under `id` is stored and not active.
  abbrev Inactive : String → Tables service → Type 0
  Inactive id s =
      (c : EmergencyContact) × (contacts.at s.0 id ≡ some c) × (is_active c.status ≡ false)

  -- Saving another row, or an inactive one, leaves it so.
  save-Inactive :
      (id : String) (row : EmergencyContact) (s : Tables service)
      → (row.id ≡ id → is_active row.status ≡ false)
      → Inactive id s
      → Inactive id (contacts.save row s.0, s.1)
  save-Inactive id row s closed (c, stored, off) = elim (Bool-cases (row.id == id)) [
    | inl here ↦
        (row, contacts.at-save row s.0 id ∙ rw here refl, closed ((eq_iff row.id id).0 here))
    | inr other ↦ (c, contacts.at-save row s.0 id ∙ rw other stored, off)
  ]

  designate-Inactive :
      (uuid : String) (now : ℕ) (owner email user : String) (hours : ℤ) (key : Option String)
      (id : String) (o : Option EmergencyContact) (s : Tables service)
      → uuid == id ≡ false
      → contacts.find_one (designates owner user) s.0 ≡ o
      → Inactive id s
      → Inactive id (designate service uuid now owner email user hours key o s).1
  designate-Inactive uuid now owner email user hours key id none s new e h =
      save-Inactive id (new_contact uuid now owner email user hours key) s
        (λ same. absurd (false≢true (sym new ∙ (eq_iff uuid id).1 same))) h
  designate-Inactive uuid now owner email user hours key id (some q) s new e (c, stored, off) =
      let (hit, there) = contacts.find_one-some (designates owner user) s.0 q e in
      save-Inactive id (redesignated hours key q) s
        (λ same.
          let at_id = subst (λ j. contacts.at s.0 j ≡ some q) same there in
          let this : (c ≡ q) = ground (arith, stored, at_id) in
          subst (λ (x : EmergencyContact). is_active x.status ≡ false) this off)
        (c, stored, off)

  revoke_found-Inactive :
      (now : ℕ) (id' id : String) (o : Option EmergencyContact) (s : Tables service)
      → Inactive id s
      → Inactive id (revoke_found service now id' o s).1
  revoke_found-Inactive now id' id none s h = h
  revoke_found-Inactive now id' id (some q) s h =
      save-Inactive id (revoked_contact q) s (λ same. refl) h

  submit-contacts :
      (uuid : String) (now : ℕ) (c : EmergencyContact) (o : Option AccessRequest)
      (s : Tables service)
      → (submit service uuid now c o s).1.0 ≡ s.0
  submit-contacts uuid now c none s = refl
  submit-contacts uuid now c (some r) s = refl

  request_found-contacts :
      (uuid : String) (now : ℕ) (id : String) (o : Option EmergencyContact) (s : Tables service)
      → (request_found service uuid now id o s).1.0 ≡ s.0
  request_found-contacts uuid now id none s = refl
  request_found-contacts uuid now id (some c) s =
      submit-contacts uuid now c (requests.find_one (pending_of id) s.1) s

  deny_found-contacts :
      (now : ℕ) (o : Option AccessRequest) (s : Tables service)
      → (deny_found service now o s).1.0 ≡ s.0
  deny_found-contacts now none s = refl
  deny_found-contacts now (some r) s = elim (Bool-cases (is_pending r.status)) [
    | inl open_ ↦ rw open_ refl
    | inr closed ↦ rw closed refl
  ]

  status_found-contacts :
      (now : ℕ) (user : String) (o : Option AccessRequest) (s : Tables service)
      → (status_found service now user o s).1.0 ≡ s.0
  status_found-contacts now user none s = refl
  status_found-contacts now user (some r) s = elim (Bool-cases (is_party user r)) [
    | inl party ↦ rw party (evaluate-contacts service now r s)
    | inr stranger ↦ rw stranger refl
  ]

  -- Another table of access requests does not matter.
  same_contacts :
      (id : String) (s s' : Tables service) → s'.0 ≡ s.0 → Inactive id s → Inactive id s'
  same_contacts id s s' e (c, stored, off) = (c, ap (λ t. contacts.at t id) e ∙ stored, off)

  step-Inactive :
      (id : String) (op : Op service) (s : Tables service)
      → adds_under id op ≡ false
      → Inactive id s
      → Inactive id (step service op s)
  unfolding step add_contact revoke_contact request_access deny_request get_request_status
  step-Inactive id (add uuid now owner email user hours key) s new h =
      designate-Inactive uuid now owner email user (or_default hours (pos 72)) key id
        (contacts.find_one (designates owner user) s.0) s new refl h
  step-Inactive id (revoke now owner id') s new h =
      revoke_found-Inactive now id' id (contacts.find_one (owned_contact owner id') s.0) s h
  step-Inactive id (submits uuid now user id') s new h =
      same_contacts id s (step service (submits uuid now user id') s)
        (request_found-contacts uuid now id' (contacts.find_one (active_contact user id') s.0) s) h
  step-Inactive id (deny now owner id') s new h =
      same_contacts id s (step service (deny now owner id') s)
        (deny_found-contacts now (requests.find_one (owned_request owner id') s.1) s) h
  step-Inactive id (look now user id') s new h =
      same_contacts id s (step service (look now user id') s)
        (status_found-contacts now user (requests.find_one (has_request_id id') s.1) s) h

  run-Inactive :
      (id : String) (ops : List (Op service)) (s : Tables service)
      → All (λ op. adds_under id op ≡ false) ops
      → Inactive id s
      → Inactive id (run service ops s)
  unfolding run
  run-Inactive id [] s new h = h
  run-Inactive id (op ∷ ops) s new h =
      run-Inactive id ops (step service op s) new.1 (step-Inactive id op s new.0 h)

  -- When a revocation goes through, the owner's designation is stored as revoked (with the wrapped
  -- key that it had, since a column that is undefined is not written), every pending access request
  -- for it is cancelled and no other access request changes; and after any further requests to the
  -- service, if none of them adds a designation under the same identifier, a request of access to
  -- it, by anyone, is refused and changes nothing.
  pub revoke_cancels :
      (now : ℕ) (owner id : String) (s : Tables service) (ops : List (Op service))
      → (revoke_contact service now owner id s).0 ≡ ok tt
      → All (λ op. adds_under id op ≡ false) ops
      → let after = (revoke_contact service now owner id s).1 in
        Revoked now owner id s after
        × ((uuid : String) (now' : ℕ) (user : String)
            → request_access service uuid now' user id (run service ops after)
              ≡ (err not_found, run service ops after))
  unfolding revoke_contact request_access
  revoke_cancels now owner id s ops h new =
      let found = contacts.find_one (owned_contact owner id) s.0 in
      let s' = (revoke_found service now id found s).1 in
      let effect = revoke_found-Revoked now owner id found s refl h in
      let (c, stored, mine, after) = effect.0 in
      let (q, there, off) = run-Inactive id ops s' new (revoked_contact c, after, refl) in
      (
        effect,
        λ uuid now' user.
            inactive-refused uuid now' user id q
              (contacts.find_one (active_contact user id) (run service ops s').0)
              (run service ops s') there off refl,
      )
