-- ===== src/Sharing/Emergency/Origin.antt =====
-- Where the access requests that `EmergencyService` stores come from.
use sentinel_vault.Common.{
  ℕ, String, Bool, true, false, ◌≡◌, ◌⊎◌, inl, inr, refl, sym, subst, ap, ◌∙◌, Option, none, some,
  List, [], ◌∷◌, ◌++◌, false≢true, ◌==◌, eq_iff, arith, Bool-cases,
}
use sentinel_vault.Sharing.Emergency.{
  EmergencyService, EmergencyContact, AccessRequest, active_contact, new_request, plus_hours,
  resolved,
}
use sentinel_vault.Sharing.Emergency.Handlers.{
  Tables, Op, add, revoke, submits, deny, look, step, run, request_access, request_found, submit,
}
use sentinel_vault.Sharing.Emergency.Moves.{Moves, stays, arrives, resolves, step-Moves}

abbrev IsSubmission : {service : EmergencyService} → Op service → Type 0
IsSubmission (submits uuid now user id) = Unit
IsSubmission op = ⊥

module _ (service : EmergencyService) where
  open service use {contacts, requests}

  pub look-submits :
      (now start : ℕ) (user id k user' cid : String)
      → ◌≡◌ {A = Op service} (look now user id) (submits k start user' cid)
      → ⊥
  look-submits now start user id k user' cid e = subst IsSubmission (sym e) tt

  -- The history `ops` from `s` submits an access request under `k` at `start` when the designation
  -- `c` is active and found for the one who submits it.
  abbrev pub Submission :
      List (Op service) → Tables service → String → ℕ → EmergencyContact → Type 0
  Submission ops s k start c =
      (before after : List (Op service)) × (user cid : String) × (ops
        ≡ before ++ (submits k start user cid ∷ after))
      × (contacts.find_one (active_contact user cid) (run service before s).0 ≡ some c)

  -- The row was there, with the same end of the waiting period and of the same designation.
  abbrev Kept : Tables service → String → AccessRequest → Type 0
  Kept s k r =
      (q : AccessRequest) × (requests.at s.1 k ≡ some q)
      × (q.grants_at ≡ r.grants_at)
      × (q.contact_id ≡ r.contact_id)

  abbrev Sent : Op service → Tables service → String → AccessRequest → Type 0
  Sent op s k r =
      (start : ℕ) × (c : EmergencyContact) × (user cid : String) × (op ≡ submits k start user cid)
      × (contacts.find_one (active_contact user cid) s.0 ≡ some c)
      × (new_request k start c ≡ r)

  moved-Kept :
      (o' : Option AccessRequest) (s : Tables service) (k : String) (r : AccessRequest) (b : Bool)
      → Moves b (requests.at s.1 k) o'
      → (b ≡ true → ⊥)
      → o' ≡ some r
      → Kept s k r
  moved-Kept o' s k r b (stays e) old h = (r, sym e ∙ h, refl, refl)
  moved-Kept o' s k r b (arrives uuid now c fresh e) old h = absurd (old fresh)
  moved-Kept o' s k r b (resolves q status now e open_ moved done due) old h =
      let same : (resolved status now q ≡ r) = ground (arith, moved, h) in
      (
        q,
        e,
        ap (λ (x : AccessRequest). x.grants_at) same,
        ap (λ (x : AccessRequest). x.contact_id) same,
      )

  submit-origin :
      (uuid : String) (now : ℕ) (user id k : String) (r : AccessRequest) (c : EmergencyContact)
      (p : Option AccessRequest) (s : Tables service)
      → contacts.find_one (active_contact user id) s.0 ≡ some c
      → requests.at (submit service uuid now c p s).1.1 k ≡ some r
      → Kept s k r ⊎ Sent (submits uuid now user id) s k r
  submit-origin uuid now user id k r c (some q) s e h = inl (r, h, refl, refl)
  submit-origin uuid now user id k r c none s e h =
      let row = requests.at-save (new_request uuid now c) s.1 k in
      elim (Bool-cases (uuid == k)) [
        | inl here ↦
            let same = (eq_iff uuid k).0 here in
            inr (
              now,
              c,
              user,
              id,
              ap (λ u. submits u now user id) same,
              e,
              subst (λ u. new_request u now c ≡ r) same (ground (arith, row, h)),
            )
        | inr other ↦ inl (r, ground (arith, row, h), refl, refl)
      ]

  found-origin :
      (uuid : String) (now : ℕ) (user id k : String) (r : AccessRequest)
      (o : Option EmergencyContact) (s : Tables service)
      → contacts.find_one (active_contact user id) s.0 ≡ o
      → requests.at (request_found service uuid now id o s).1.1 k ≡ some r
      → Kept s k r ⊎ Sent (submits uuid now user id) s k r
  found-origin uuid now user id k r none s e h = inl (r, h, refl, refl)
  found-origin uuid now user id k r (some c) s e h = submit-origin uuid now user id k r c _ s e h

  -- After a request, a row was there before or the request submitted it.
  pub step-origin :
      (op : Op service) (s : Tables service) (k : String) (r : AccessRequest)
      → requests.at (step service op s).1 k ≡ some r
      → Kept s k r ⊎ Sent op s k r
  unfolding step request_access
  step-origin (add uuid now owner email user hours key) s k r h = inl (
      moved-Kept _ s k r false (step-Moves service (add uuid now owner email user hours key) s k)
        false≢true h)
  step-origin (revoke now owner id) s k r h =
      inl (moved-Kept _ s k r false (step-Moves service (revoke now owner id) s k) false≢true h)
  step-origin (submits uuid now user id) s k r h =
      found-origin uuid now user id k r (contacts.find_one (active_contact user id) s.0) s refl h
  step-origin (deny now owner id) s k r h =
      inl (moved-Kept _ s k r false (step-Moves service (deny now owner id) s k) false≢true h)
  step-origin (look now user id) s k r h =
      inl (moved-Kept _ s k r false (step-Moves service (look now user id) s k) false≢true h)

  abbrev Originates : List (Op service) → Tables service → String → AccessRequest → Type 0
  Originates ops s k r =
      (start : ℕ) × (c : EmergencyContact) × Submission ops s k start c
      × (r.grants_at ≡ plus_hours start c.waiting_period_hours)
      × (r.contact_id ≡ c.id)

  sent-Originates :
      (op : Op service) (ops : List (Op service)) (s : Tables service) (k : String)
      (r q : AccessRequest)
      → Sent op s k q
      → q.grants_at ≡ r.grants_at
      → q.contact_id ≡ r.contact_id
      → Originates (op ∷ ops) s k r
  unfolding run
  sent-Originates op ops s k r q (start, c, user, cid, sent, found, same) time whose = (
    start,
    c,
    ([], ops, user, cid, ap (λ o. o ∷ ops) sent, found),
    sym (ap (λ (x : AccessRequest). x.grants_at) same ∙ time),
    sym (ap (λ (x : AccessRequest). x.contact_id) same ∙ whose),
  )

  -- After a history, a row was there at its start or the history submitted it.
  pub run-origin :
      (ops : List (Op service)) (s : Tables service) (k : String) (r : AccessRequest)
      → requests.at (run service ops s).1 k ≡ some r
      → Kept s k r ⊎ Originates ops s k r
  unfolding run
  run-origin [] s k r h = inl (r, h, refl, refl)
  run-origin (op ∷ ops) s k r h = elim (run-origin ops (step service op s) k r h) [
    | inr (start, c, (before, after, user, cid, split, found), time, whose) ↦
        inr (start, c, (op ∷ before, after, user, cid, ap (λ l. op ∷ l) split, found), time, whose)
    | inl (q, there, time, whose) ↦ elim (step-origin op s k q there) [
      | inl (p, first, time', whose') ↦ inl (p, first, time' ∙ time, whose' ∙ whose)
      | inr sent ↦ inr (sent-Originates op ops s k r q sent time whose)
    ]
  ]
