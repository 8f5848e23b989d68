-- ===== src/Sharing/Emergency/Cancel.antt =====
-- The loop of `revokeContact`: it cancels exactly the pending requests of the contact.
use sentinel_vault.Common.{
  ℕ, String, Bool, true, false, ◌≡◌, inl, inr, refl, subst, ◌∙◌, Option, none, some, List, [], ◌∷◌,
  any, All, ◌==◌, if◌then◌else◌, eq_iff, arith, Option-cases, Bool-cases,
}
use sentinel_vault.Common.Equality.{string_eq}
use sentinel_vault.Common.Repository.{Distinct, patch_if, unordered}
use sentinel_vault.Sharing.Emergency.{
  EmergencyService, AccessRequest, request_key, pending_of, resolved, cancelled,
}
use sentinel_vault.Sharing.Emergency.Handlers.{Tables, cancel_all, cancel_pending}

module _ (service : EmergencyService) where
  open service use {requests}

  abbrev listed : List AccessRequest → String → AccessRequest → Bool
  listed rs k r = any (λ x. request_key x == k) rs

  -- Saving a row leaves the listed rows of other keys.
  kept :
      (r r' : AccessRequest) (t : requests.Table) (rs : List AccessRequest)
      → r'.id ≡ r.id
      → any (λ x. request_key x == r.id) rs ≡ false
      → All (λ x. requests.at t x.id ≡ some x) rs
      → All (λ x. requests.at (requests.save r' t) x.id ≡ some x) rs
  kept r r' t [] e d h = tt
  kept r r' t (x ∷ rs) e d h = (
    requests.at-save r' t x.id ∙ ground (arith, e, eq_iff r'.id x.id, eq_iff x.id r.id, h.0),
    kept r r' t rs e (ground arith) h.1,
  )

  cancel_one :
      (now : ℕ) (r : AccessRequest) (rs : List AccessRequest) (k : String)
      (o : Option AccessRequest)
      → (r.id ≡ k → o ≡ some r)
      → any (λ x. request_key x == r.id) rs ≡ false
      → patch_if
          (listed rs k)
          (resolved cancelled now)
          (if r.id == k then some (resolved cancelled now r) else o)
        ≡ patch_if (listed (r ∷ rs) k) (resolved cancelled now) o
  cancel_one now r rs k o h d = elim (Bool-cases (r.id == k)) [
    | inl here ↦
        let same = (eq_iff r.id k).0 here in
        let alone = subst (λ j. any (λ x. request_key x == j) rs ≡ false) same d in
        rw (h same, here, alone) refl
    | inr other ↦ elim (Option-cases o) [
      | inl absent ↦ rw (other, absent) refl
      | inr (x, there) ↦ rw (other, there, other) refl
    ]
  ]

  nothing_listed :
      (now : ℕ) (k : String) (o : Option AccessRequest)
      → o ≡ patch_if (listed [] k) (resolved cancelled now) o
  nothing_listed now k none = refl
  nothing_listed now k (some r) = refl

  at-cancel_all :
      (now : ℕ) (rs : List AccessRequest) (t : requests.Table) (k : String)
      → All (λ x. requests.at t x.id ≡ some x) rs
      → Distinct request_key rs
      → requests.at (cancel_all service now rs t) k
        ≡ patch_if (listed rs k) (resolved cancelled now) (requests.at t k)
  unfolding cancel_all
  at-cancel_all now [] t k h d = nothing_listed now k (requests.at t k)
  at-cancel_all now (r ∷ rs) t k h d =
      let r' = resolved cancelled now r in
      at-cancel_all now rs (requests.save r' t) k (kept r r' t rs refl d.0 h.1) d.1
      ∙ rw (requests.at-save r' t k) (
          cancel_one now r rs k (requests.at t k)
            (λ same. subst (λ j. requests.at t j ≡ some r) same h.0) d.0)

  not_listed :
      (p : AccessRequest → Bool) (t : requests.Table) (rs : List AccessRequest) (k : String)
      (r : AccessRequest)
      → All (λ x. (p x ≡ true) × (requests.at t x.id ≡ some x)) rs
      → requests.at t k ≡ some r
      → p r ≡ false
      → any (λ x. request_key x == k) rs ≡ false
  not_listed p t [] k r h e miss = refl
  not_listed p t (x ∷ rs) k r h e miss = elim (Bool-cases (x.id == k)) [
    | inl here ↦ let same : (x ≡ r) = ground (arith, eq_iff x.id k, h.0.1) in ground (arith, h.0.0)
    | inr other ↦ rw other (not_listed p t rs k r h.1 e miss)
  ]

  stored_rows :
      (p : AccessRequest → Bool) (t : requests.Table) (rs : List AccessRequest)
      → All (λ x. (p x ≡ true) × (requests.at t x.id ≡ some x)) rs
      → All (λ x. requests.at t x.id ≡ some x) rs
  stored_rows p t [] h = tt
  stored_rows p t (x ∷ rs) h = (h.0.1, stored_rows p t rs h.1)

  pub at-cancel_pending :
      (now : ℕ) (id : String) (s : Tables service) (k : String)
      → requests.at (cancel_pending service now id s).1 k
        ≡ patch_if (pending_of id) (resolved cancelled now) (requests.at s.1 k)
  at-cancel_pending now id s k =
      let rs = requests.find unordered (pending_of id) s.1 in
      let sound = requests.find-sound unordered (pending_of id) s.1 in
      at-cancel_all now rs s.1 k (stored_rows (pending_of id) s.1 rs sound)
        (requests.find-Distinct unordered (pending_of id) s.1)
      ∙ elim (Option-cases (requests.at s.1 k)) [
        | inl absent ↦ rw absent refl
        | inr (r, stored) ↦ elim (Bool-cases (pending_of id r)) [
          | inl hit ↦
              rw (stored, hit, requests.find-complete unordered (pending_of id) s.1 k r stored hit)
                refl
          | inr miss ↦
              rw (stored, miss, not_listed (pending_of id) s.1 rs k r sound stored miss) refl
        ]
      ]
