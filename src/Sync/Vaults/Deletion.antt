-- ===== src/Sync/Vaults/Deletion.antt =====
-- What `deleteUserVault` refuses, and what it removes.
use sentinel_vault.Common.{
  String, Bool, true, false, false≢true, ◌≡◌, ◌≢◌, ◌↔◌, ◌⊎◌, inl, inr, refl, sym, subst, ◌∙◌, none,
  some, List, [], ◌∷◌, length, find, any, leb, ◌==◌, if◌then◌else◌, eq_iff, arith, All,
  Option-cases, Bool-cases,
}
use sentinel_vault.Common.Exec.{ok, err, HttpError}
use sentinel_vault.Common.Equality.{string_eq}
use sentinel_vault.Common.Repository.{unordered, Distinct, keep_unless}
use sentinel_vault.Sync.Vaults.{SyncService, UserVault, vault_id, owned_by, has_vault_id, in_vault}
use sentinel_vault.Sync.Vaults.Tables.{Tables, vaults_of, delete_found, delete_user_vault}

found_in :
    (P : UserVault → Type 0) (p : UserVault → Bool) (xs : List UserVault) (v : UserVault)
    → All P xs
    → find p xs ≡ some v
    → P v × (p v ≡ true)
found_in P p [] v h e = cc
found_in P p (x ∷ xs) v h e = elim (Bool-cases (p x)) [
  | inl hit ↦
      let same : (x ≡ v) = ground arith in (subst P same h.0, subst (λ y. p y ≡ true) same hit)
  | inr miss ↦ found_in P p xs v h.1 (ground arith)
]

found_none : (p : UserVault → Bool) (xs : List UserVault) → find p xs ≡ none → any p xs ≡ false
found_none p [] e = refl
found_none p (x ∷ xs) e = ground (arith, found_none p xs)

-- Of two or more vaults, some vault is not the given one.
another :
    (P : UserVault → Type 0) (id : String) (xs : List UserVault)
    → All P xs
    → Distinct vault_id xs
    → leb (length xs) 1 ≡ false
    → (w : UserVault) × P w × (w.id ≢ id)
another P id [] h d more = ground arith
another P id (a ∷ []) h d more = ground arith
another P id (a ∷ b ∷ xs) h d more = elim (Bool-cases (a.id == id)) [
  | inl here ↦ (b, h.1.0, λ e. ground (arith, eq_iff a.id id, eq_iff b.id a.id))
  | inr other ↦ (a, h.0, λ e. ground (arith, eq_iff a.id id))
]

two_or_more :
    (id j : String) (xs : List UserVault)
    → any (has_vault_id id) xs ≡ true
    → any (has_vault_id j) xs ≡ true
    → j ≢ id
    → leb (length xs) 1 ≡ false
two_or_more id j [] a b ne = cc
two_or_more id j (x ∷ []) a b ne = ground (arith, eq_iff x.id id, eq_iff x.id j)
two_or_more id j (x ∷ y ∷ xs) a b ne = ground arith

module _ (service : SyncService) where
  open service use {user_vaults, vault_items, to_lower_case}

  -- The table holds the vault under the identifier, and the user owns it.
  abbrev pub Owns : String → String → Tables service → Type 0
  Owns user id s = (v : UserVault) × (user_vaults.at s.0 id ≡ some v) × (v.user_id ≡ user)

  -- A listed vault is a stored one of the user.
  abbrev Listed : String → Tables service → UserVault → Type 0
  Listed user s v = (owned_by user v ≡ true) × (user_vaults.at s.0 v.id ≡ some v)

  -- The vault is removed, and so is every item in it, of whoever it is; nothing else changes.
  abbrev pub Removed : String → Tables service → Tables service → Type 0
  Removed id s s' =
      ((k : String) → user_vaults.at s'.0 k ≡ (if k == id then none else user_vaults.at s.0 k))
      × (s'.1 ≡ s.1)
      × ((k : String) → vault_items.at s'.2 k ≡ keep_unless (in_vault id) (vault_items.at s.2 k))

  -- The user owns the vault and another one.
  abbrev pub MayDelete : String → String → Tables service → Type 0
  MayDelete user id s = Owns user id s × ((j : String) × (j ≢ id) × Owns user j s)

  any_listed :
      (user id : String) (s : Tables service)
      → Owns user id s
      → any (has_vault_id id) (vaults_of service user s) ≡ true
  any_listed user id s (v, stored, mine) =
      user_vaults.find-complete unordered (owned_by user) s.0 id v stored
        ((eq_iff v.user_id user).1 mine)

  delete_found-Removed :
      (id : String) (v : UserVault) (s : Tables service)
      → v.id ≡ id
      → Removed id s (delete_found service (some v) s).1
  delete_found-Removed id v s same = rw same (
    λ k.
        user_vaults.at-delete (has_vault_id id) s.0 k ∙ elim (Option-cases (user_vaults.at s.0 k)) [
          | inl absent ↦ ground arith
          | inr (r, stored) ↦
              ground (arith, user_vaults.at-key s.0 k r stored, eq_iff r.id id, eq_iff k id)
        ],
    refl,
    λ k. vault_items.at-delete (in_vault id) s.2 k,
  )

  delete-cases :
      (user id : String) (s : Tables service)
      → let done = delete_user_vault service user id s in
        (MayDelete (to_lower_case user) id s × (done.0 ≡ ok tt) × Removed id s done.1)
        ⊎ ((MayDelete (to_lower_case user) id s → ⊥) × ((e : HttpError) × (done ≡ (err e, s))))
  unfolding delete_user_vault
  delete-cases user_id id s =
      let user = to_lower_case user_id in
      let vaults = vaults_of service user s in
      let sound = user_vaults.find-sound unordered (owned_by user) s.0 in
      elim (Bool-cases (leb (length vaults) 1)) [
        | inl last ↦ rw last (
            inr (
              λ (mine, (j, other, theirs)). ground (
                arith,
                two_or_more id j vaults (any_listed user id s mine) (any_listed user j s theirs)
                    other,
              ),
              (_, refl),
            ))
        | inr more ↦ rw more (elim (Option-cases (find (has_vault_id id) vaults)) [
          | inl missing ↦ rw missing (
              inr (
                λ h. absurd (
                    false≢true (
                      sym (found_none (has_vault_id id) vaults missing)
                      ∙ any_listed user id s h.0)),
                (_, refl),
              ))
          | inr (v, found) ↦ rw found (
              let (listed, here) =
                found_in (Listed user s) (has_vault_id id) vaults v sound found in
              let (w, (theirs, stored), other) =
                another (Listed user s) id vaults sound
                  (user_vaults.find-Distinct unordered (owned_by user) s.0) more in
              let same = (eq_iff v.id id).0 here in
              inl (
                (
                  (
                    v,
                    subst (λ j. user_vaults.at s.0 j ≡ some v) same listed.1,
                    (eq_iff v.user_id user).0 listed.0,
                  ),
                  (w.id, other, (w, stored, (eq_iff w.user_id user).0 theirs)),
                ),
                refl,
                delete_found-Removed id v s same,
              ))
        ])
      ]

  -- A deletion goes through exactly if the caller owns the vault and another one. Then the vault is
  -- removed with every item in it, of whichever owner, and no other vault, key or item changes; so
  -- the caller keeps a vault. Otherwise it throws and changes nothing.
  pub delete_iff :
      (user id : String) (s : Tables service)
      → let done = delete_user_vault service user id s in
        ((done.0 ≡ ok tt) ↔ MayDelete (to_lower_case user) id s)
        × ((done.0 ≡ ok tt)
            → Removed id s done.1 × ((j : String) × Owns (to_lower_case user) j done.1))
        × (done.0 ≢ ok tt → done.1 ≡ s)
  delete_iff user id s = elim (delete-cases user id s) [
    | inl (may, returned, removed) ↦
        let (j, other, (w, stored, theirs)) = may.1 in
        (
          (λ _. may, λ _. returned),
          λ _. (removed, (j, (w, removed.0 j ∙ ground (arith, eq_iff j id), theirs))),
          λ h. absurd (h returned),
        )
    | inr (refused, (e, same)) ↦
        rw same ((λ h. cc, λ may. absurd (refused may)), λ h. cc, λ h. refl)
  ]
