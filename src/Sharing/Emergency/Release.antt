-- ===== src/Sharing/Emergency/Release.antt =====
-- When `getRequestStatus` releases a wrapped vault key.
use sentinel_vault.Common.{
  ℕ, ◌+◌, ◌*◌, ◌≤◌, String, Bool, true, false, false≢true, ◌≡◌, inl, inr, refl, sym, subst, ap, ◌∙◌,
  Option, none, some, List, [], ◌∷◌, All, eq_iff, arith, Option-cases, Bool-cases,
}
use sentinel_vault.Common.Number.{pos, leb_ℤ}
use sentinel_vault.Common.Exec.{Result, ok, err}
use sentinel_vault.Sharing.Emergency.{
  EmergencyService, EmergencyContact, AccessRequest, RequestStatus, pending, cancelled, plus_hours,
  is_pending, is_granted, is_party, is_matured, has_request_id, has_contact_id, owned_request,
  contact_key_of, denied, granted, resolved, new_request,
}
use sentinel_vault.Sharing.Emergency.Handlers.{
  evaluate, look, Tables, Op, run, step, deny_request, deny_found, get_request_status, status_found,
}
use sentinel_vault.Sharing.Emergency.Origin.{Submission, step-origin, run-origin, look-submits}
use sentinel_vault.Sharing.Emergency.Moves.{
  Moves, stays, arrives, resolves, submits_under, step-Moves, run-resolved,
}

-- A granted request was resolved when its waiting period was over.
abbrev Matured : AccessRequest → Type 0
Matured r =
    is_granted r.status ≡ true
    → (t : ℕ) × (r.resolved_at ≡ some t) × (leb_ℤ r.grants_at (pos t) ≡ true)

absurd_row : {A : Type 0} {o : Option AccessRequest} {r : AccessRequest} → o ≡ none → o ≡ some r → A
absurd_row e e' = cc

status-granted : (status : RequestStatus) → is_granted status ≡ true → status ≡ granted
status-granted pending h = cc
status-granted denied h = cc
status-granted granted h = refl
status-granted cancelled h = cc

waited :
    (start hours t : ℕ)
    → leb_ℤ (plus_hours start (pos hours)) (pos t) ≡ true
    → start + hours * 3600000 ≤ t
waited start hours t h = ground arith

-- The key in an answer.
abbrev pub released : Result (AccessRequest × Option String) → Option String
released (ok (r, key)) = key
released (err e) = none

module _ (service : EmergencyService) where
  open service use {contacts, requests}

  abbrev AllMatured : Tables service → Type 0
  AllMatured s = (k : String) (r : AccessRequest) → requests.at s.1 k ≡ some r → Matured r

  moved-Matured :
      (fresh : Bool) (o o' : Option AccessRequest)
      → Moves fresh o o'
      → ((r : AccessRequest) → o ≡ some r → Matured r)
      → (r : AccessRequest) → o' ≡ some r
      → Matured r
  moved-Matured fresh o o' (stays e) h r e' = h r (sym e ∙ e')
  moved-Matured fresh o o' (arrives uuid now c f e) h r e' =
      let same : (new_request uuid now c ≡ r) = ground (arith, e, e') in
      subst (λ x. Matured x) same (λ g. absurd (false≢true g))
  moved-Matured fresh o o' (resolves q status now e open_ moved done due) h r e' =
      let same : (resolved status now q ≡ r) = ground (arith, moved, e') in
      subst (λ x. Matured x) same (λ g. (now, refl, due g))

  run-AllMatured :
      (ops : List (Op service)) (s : Tables service) → AllMatured s → AllMatured (run service ops s)
  unfolding run
  run-AllMatured [] s h = h
  run-AllMatured (op ∷ ops) s h = run-AllMatured ops (step service op s) (λ k r e.
      moved-Matured (submits_under k op) (requests.at s.1 k) _ (step-Moves service op s k) (h k) r
        e)

  -- What a released key rests on.
  abbrev Grants : String → String → String → Tables service → Type 0
  Grants user id key s =
      (r : AccessRequest) × (requests.at s.1 id ≡ some r)
      × (is_party user r ≡ true)
      × (is_granted r.status ≡ true)
      × (contact_key_of (contacts.find_one (has_contact_id r.contact_id) s.0) ≡ some key)

  pub evaluate-contacts :
      (now : ℕ) (r : AccessRequest) (s : Tables service) → (evaluate service now r s).0 ≡ s.0
  evaluate-contacts now r s = elim (Bool-cases (is_matured now r)) [
    | inl due ↦ rw due refl
    | inr early ↦ rw early refl
  ]

  status_found-released :
      (now : ℕ) (user id key : String) (o : Option AccessRequest) (s : Tables service)
      → ((r : AccessRequest) → o ≡ some r → (requests.at s.1 r.id ≡ some r) × (r.id ≡ id))
      → released (status_found service now user o s).0 ≡ some key
      → Grants user id key (status_found service now user o s).1
  status_found-released now user id key none s stored = λ h. cc
  status_found-released now user id key (some r) s stored =
      let (there, same) = stored r refl in
      let at_id = subst (λ j. requests.at s.1 j ≡ some r) same there in
      elim (Bool-cases (is_party user r)) [
        | inr stranger ↦ rw stranger (λ h. cc)
        | inl party ↦ rw party (elim (Bool-cases (is_matured now r)) [
          | inl due ↦ rw due (λ h. (
            resolved granted now r,
            requests.at-save (resolved granted now r) s.1 id ∙ rw ((eq_iff r.id id).1 same) refl,
            party,
            refl,
            h,
          ))
          | inr early ↦ rw early (elim (Bool-cases (is_granted r.status)) [
            | inl open_ ↦ rw open_ (λ h. (r, at_id, party, open_, h))
            | inr closed ↦ rw closed (λ h. cc)
          ])
        ])
      ]

  status-released :
      (now : ℕ) (user id key : String) (s : Tables service)
      → released (get_request_status service now user id s).0 ≡ some key
      → Grants user id key (get_request_status service now user id s).1
  unfolding get_request_status
  status-released now user id key s =
      status_found-released now user id key (requests.find_one (has_request_id id) s.1) s (λ r e.
        let (hit, there) = requests.find_one-some (has_request_id id) s.1 r e in
        (there, (eq_iff r.id id).0 hit))

  look-AllMatured :
      (now : ℕ) (user id : String) (s : Tables service)
      → AllMatured s
      → AllMatured (get_request_status service now user id s).1
  unfolding step
  look-AllMatured now user id s h k r e =
      moved-Matured false (requests.at s.1 k) _ (step-Moves service (look now user id) s k) (h k) r
        e

  look-resolved :
      (now : ℕ) (user id : String) (s : Tables service) (r : AccessRequest)
      → requests.at s.1 id ≡ some r
      → is_pending r.status ≡ false
      → requests.at (get_request_status service now user id s).1.1 id ≡ some r
  unfolding step run
  look-resolved now user id s r stored closed =
      run-resolved service id r (look now user id ∷ []) s (refl, tt) stored closed

  looked_at-Submission :
      (ops : List (Op service)) (s : Tables service) (now : ℕ) (user id : String)
      (r : AccessRequest)
      → requests.at s.1 id ≡ none
      → requests.at (get_request_status service now user id (run service ops s)).1.1 id ≡ some r
      → (start : ℕ) × (c : EmergencyContact) × Submission service ops s id start c
        × (r.grants_at ≡ plus_hours start c.waiting_period_hours)
        × (r.contact_id ≡ c.id)
  unfolding step
  looked_at-Submission ops s now user id r nothing stored =
      elim (step-origin service (look now user id) (run service ops s) id r stored) [
        | inl (q, there, time, whose) ↦ elim (run-origin service ops s id q there) [
          | inl (p, first, _, _) ↦ absurd_row nothing first
          | inr (start, c, sent, same, of_c) ↦ (start, c, sent, sym time ∙ same, sym whose ∙ of_c)
        ]
        | inr (start, c, user', cid, looks, found, same) ↦
            absurd (look-submits service now start user id id user' cid looks)
      ]

  -- In a history of requests to the service that starts with no access request: if
  -- `getRequestStatus` releases a wrapped vault key, then the caller is the owner or the contact of
  -- that access request, the key is the one stored with its designation, the access request was
  -- submitted in the history when that designation was active, and it was granted when the hours of
  -- waiting that the designation then had were over, if they are not negative.
  pub key_after_waiting :
      (ops : List (Op service)) (s : Tables service) (now : ℕ) (user id key : String)
      → ((k : String) → requests.at s.1 k ≡ none)
      → released (get_request_status service now user id (run service ops s)).0 ≡ some key
      → let after = (get_request_status service now user id (run service ops s)).1 in
        (r : AccessRequest) × (c : EmergencyContact) × (start : ℕ) × (t : ℕ) × (requests.at after.1
            id
          ≡ some r)
        × (is_party user r ≡ true)
        × (contact_key_of (contacts.find_one (has_contact_id r.contact_id) after.0) ≡ some key)
        × Submission service ops s id start c
        × (r.contact_id ≡ c.id)
        × (r.status ≡ granted)
        × (r.resolved_at ≡ some t)
        × ((hours : ℕ) → c.waiting_period_hours ≡ pos hours → start + hours * 3600000 ≤ t)
  key_after_waiting ops s now user id key nothing h =
      let s' = run service ops s in
      let after : AllMatured (get_request_status service now user id s').1 =
        look-AllMatured now user id s' (run-AllMatured ops s (λ k r e. absurd_row (nothing k) e)) in
      let (r, stored, party, open_, there) = status-released now user id key s' h in
      let (t, at_t, late) = after id r stored open_ in
      let (start, c, sent, same, of_c) =
        looked_at-Submission ops s now user id r (nothing id) stored in
      (
        r,
        c,
        start,
        t,
        stored,
        party,
        there,
        sent,
        of_c,
        status-granted r.status open_,
        at_t,
        λ hours whole. waited start hours t (
            subst (λ z. leb_ℤ (plus_hours start z) (pos t) ≡ true) whole
              (subst (λ z. leb_ℤ z (pos t) ≡ true) same late)),
      )

  deny_found-denied :
      (now : ℕ) (id : String) (o : Option AccessRequest) (s : Tables service) (r : AccessRequest)
      → ((q : AccessRequest) → o ≡ some q → q.id ≡ id)
      → (deny_found service now o s).0 ≡ ok r
      → (requests.at (deny_found service now o s).1.1 id ≡ some r) × (r.status ≡ denied)
  deny_found-denied now id none s r same = λ h. cc
  deny_found-denied now id (some q) s r same = elim (Bool-cases (is_pending q.status)) [
    | inl open_ ↦ rw open_ (λ h.
        let returned : (resolved denied now q ≡ r) = ground (arith, h) in
        (
          requests.at-save (resolved denied now q) s.1 id
              ∙ rw ((eq_iff q.id id).1 (same q refl)) (ap (λ x. some x) returned),
          sym (ap (λ (x : AccessRequest). x.status) returned),
        ))
    | inr closed ↦ rw closed (λ h. cc)
  ]

  deny-denied :
      (now : ℕ) (owner id : String) (s : Tables service) (r : AccessRequest)
      → (deny_request service now owner id s).0 ≡ ok r
      → (requests.at (deny_request service now owner id s).1.1 id ≡ some r) × (r.status ≡ denied)
  unfolding deny_request
  deny-denied now owner id s r =
      deny_found-denied now id (requests.find_one (owned_request owner id) s.1) s r (λ q e.
        let (hit, there) = requests.find_one-some (owned_request owner id) s.1 q e in
        ground (arith, eq_iff q.id id))

  -- Once the owner has denied an access request, `getRequestStatus` releases no key for it to
  -- anyone at any time, whatever requests to the service follow, if none of them submits an access
  -- request under the same identifier.
  pub denied_no_key :
      (now now' : ℕ) (owner user id : String) (ops : List (Op service)) (s : Tables service)
      (r : AccessRequest)
      → (deny_request service now owner id s).0 ≡ ok r
      → All (λ op. submits_under id op ≡ false) ops
      → released
          (get_request_status service now' user id
            (run service ops (deny_request service now owner id s).1)).0
        ≡ none
  denied_no_key now now' owner user id ops s r done quiet =
      let s' = run service ops (deny_request service now owner id s).1 in
      let (stored, closed) = deny-denied now owner id s r done in
      elim (Option-cases (released (get_request_status service now' user id s').0)) [
        | inl nothing ↦ nothing
        | inr (key, h) ↦
            let (q, there, party, open_, from) = status-released now' user id key s' h in
            let still =
              run-resolved service id r ops (deny_request service now owner id s).1 quiet stored
                (rw closed refl) in
            let then_ = look-resolved now' user id s' r still (rw closed refl) in
            let same : (q ≡ r) = ground (arith, there, then_) in
            absurd (
              false≢true (
                sym (ap (λ x. is_granted x) closed)
                ∙ ap (λ (x : AccessRequest). is_granted x.status) (sym same)
                ∙ open_))
      ]
