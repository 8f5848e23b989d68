-- ===== src/Sync/Vaults/Keys.antt =====
-- The vault key that `saveVaultKey` stores and `getVaultKey` returns, and the migration of a
-- legacy key.
use sentinel_vault.Common.{
  ℕ, String, Bool, true, false, false≢true, ◌≡◌, ◌⊎◌, inl, inr, refl, sym, ap, ◌∙◌, Option, none,
  some, List, [], ◌∷◌, map, find, any, eq_iff, eq_refl, arith, All, Option-cases, Bool-cases,
}
use sentinel_vault.Common.Exec.{ok, pure, bind-ok}
use sentinel_vault.Common.Repository.{ascending}
use sentinel_vault.Sync.Vaults.{
  SyncService, UserVault, VaultKey, UserVaultDto, KeyMaterial, owned_by, default_of, has_vault_id,
  is_default_dto, chosen, chosen_key, key_material, map_vault_to_dto, rekeyed, created_at_of,
  new_vault, initial_vault, legacy_of,
}
use sentinel_vault.Sync.Vaults.Tables.{
  Tables, get_user_vaults, get_vault_key, save_vault_key, create_user_vault, key_vault, migrate,
}
use sentinel_vault.Sync.Vaults.Invariant.{OneDefaultEach, save-One}

abbrev default_vault : UserVault → Bool
default_vault vault = vault.is_default

find-default :
    (P : UserVault → Type 0) (vs : List UserVault)
    → All P vs
    → any default_vault vs ≡ true
    → (v : UserVault) × P v
      × (v.is_default ≡ true)
      × (find is_default_dto (map map_vault_to_dto vs) ≡ some (map_vault_to_dto v))
find-default P [] h d = cc
find-default P (x ∷ xs) h d = elim (Bool-cases x.is_default) [
  | inl on ↦ (x, h.0, on, ground arith)
  | inr off ↦
      let (v, p, def, found) = find-default P xs h.1 (ground arith) in (v, p, def, ground arith)
]

chosen-found :
    (vs : List UserVaultDto) (d : UserVaultDto)
    → find is_default_dto vs ≡ some d
    → chosen vs ≡ some d
chosen-found [] d e = cc
chosen-found (v ∷ vs) d e = rw (chosen, e) refl

module _ (service : SyncService) where
  open service use {user_vaults, vault_keys, to_lower_case}

  -- A listed vault is a stored one of the user.
  abbrev Listed : String → Tables service → UserVault → Type 0
  Listed user s v = (owned_by user v ≡ true) × (user_vaults.at s.0 v.id ≡ some v)

  any_default :
      (user : String) (s : Tables service) (v : UserVault) (vs : List UserVault)
      → All (Listed user s) vs
      → user_vaults.at s.0 v.id ≡ some v
      → v.is_default ≡ true
      → any (has_vault_id v.id) vs ≡ true
      → any default_vault vs ≡ true
  any_default user s v [] h e d a = a
  any_default user s v (x ∷ xs) h e d a =
      ground (arith, eq_iff x.id v.id, any_default user s v xs h.1 e d, h.0.1)

  migrate-listed :
      (uuid : String) (now : ℕ) (user : String) (p : UserVault → Bool) (vs : List UserVault)
      (legacy : Option VaultKey) (s : Tables service)
      → any p vs ≡ true
      → migrate service uuid now user vs legacy s ≡ (ok (map map_vault_to_dto vs), s)
  migrate-listed uuid now user p [] legacy s a = cc
  migrate-listed uuid now user p (v ∷ vs) legacy s a = refl

  -- `getUserVaults` lists a stored default vault of the user first among the default ones.
  get_user_vaults-default :
      (uuid : String) (now : ℕ) (user : String) (s : Tables service) (v : UserVault)
      → OneDefaultEach service s
      → v.user_id ≡ to_lower_case user
      → user_vaults.at s.0 v.id ≡ some v
      → v.is_default ≡ true
      → (vs : List UserVaultDto) × (get_user_vaults service uuid now user s ≡ (ok vs, s))
        × (chosen vs ≡ some (map_vault_to_dto v))
  unfolding get_user_vaults
  get_user_vaults-default uuid now user_id s v one mine stored d =
      let user = to_lower_case user_id in
      let vs = user_vaults.find (ascending created_at_of) (owned_by user) s.0 in
      let sound = user_vaults.find-sound (ascending created_at_of) (owned_by user) s.0 in
      let here =
        user_vaults.find-complete (ascending created_at_of) (owned_by user) s.0 v.id v stored
          ((eq_iff v.user_id user).1 mine) in
      let (w, (theirs, found), dw, first) =
        find-default (Listed user s) vs sound (any_default user s v vs sound stored d here) in
      let same_id : (v.id ≡ w.id) =
        one v.id w.id v w stored found (mine ∙ sym ((eq_iff w.user_id user).0 theirs)) d dw in
      let same : (w ≡ v) = ground (arith, stored, found, same_id) in
      (
        map map_vault_to_dto vs,
        migrate-listed uuid now user (has_vault_id v.id) vs
            (vault_keys.find_one (legacy_of user) s.1) s here,
        chosen-found (map map_vault_to_dto vs) (map_vault_to_dto w) first
            ∙ ap (λ x. some (map_vault_to_dto x)) same,
      )

  -- `getVaultKey` returns the key of the default vault.
  pub get_vault_key-default :
      (uuid : String) (now : ℕ) (user : String) (s : Tables service) (v : UserVault)
      → OneDefaultEach service s
      → v.user_id ≡ to_lower_case (to_lower_case user)
      → user_vaults.at s.0 v.id ≡ some v
      → v.is_default ≡ true
      → get_vault_key service uuid now user s ≡ (ok (some (key_material (map_vault_to_dto v))), s)
  unfolding get_vault_key
  get_vault_key-default uuid now user s v one mine stored d =
      let (vs, listed, first) =
        get_user_vaults-default uuid now (to_lower_case user) s v one mine stored d in
      bind-ok (get_user_vaults service uuid now (to_lower_case user))
        (λ vaults. pure (chosen_key vaults)) s s vs listed
      ∙ rw (chosen_key, first) refl

  save_key-found :
      (uuid : String) (now : ℕ) (user : String) (k : KeyMaterial) (s : Tables service)
      (v : UserVault)
      → key_vault service (to_lower_case user) s.0 ≡ some v
      → (save_vault_key service uuid now user k s).1.0 ≡ user_vaults.save (rekeyed k v) s.0
  unfolding save_vault_key
  save_key-found uuid now user k s v e = rw e refl

  save_key-created :
      (uuid : String) (now : ℕ) (user : String) (k : KeyMaterial) (s : Tables service)
      → key_vault service (to_lower_case user) s.0 ≡ none
      → user_vaults.at (save_vault_key service uuid now user k s).1.0 uuid
        ≡ some (new_vault uuid now (to_lower_case (to_lower_case user)) true (initial_vault k))
  unfolding save_vault_key create_user_vault
  save_key-created uuid now user k s e = rw (e, user_vaults.at-save, eq_refl) refl

  -- The user has a default vault, or no vault.
  abbrev HasDefaultOrNone : String → Tables service → Type 0
  HasDefaultOrNone user s =
      ((v : UserVault) × (user_vaults.at s.0 v.id ≡ some v)
        × (v.user_id ≡ user)
        × (v.is_default ≡ true))
      ⊎ ((id : String) (v : UserVault) → user_vaults.at s.0 id ≡ some v → owned_by user v ≡ false)

  -- The vault that holds the saved key.
  abbrev Saved : String → KeyMaterial → Tables service → Type 0
  Saved user k s =
      (v : UserVault) × (user_vaults.at s.0 v.id ≡ some v)
      × (v.user_id ≡ user)
      × (v.is_default ≡ true)
      × (v.salt ≡ k.salt)
      × (v.wrapped_key ≡ k.wrapped_key)

  save-Saved :
      (uuid : String) (now : ℕ) (user : String) (k : KeyMaterial) (s : Tables service)
      → to_lower_case (to_lower_case user) ≡ to_lower_case user
      → HasDefaultOrNone (to_lower_case user) s
      → Saved (to_lower_case user) k (save_vault_key service uuid now user k s).1
  save-Saved uuid now user_id k s idem has =
      let user = to_lower_case user_id in
      elim (Option-cases (user_vaults.find_one (default_of user) s.0)) [
        | inr (v, found) ↦
            let (hit, stored) = user_vaults.find_one-some (default_of user) s.0 v found in
            (
              rekeyed k v,
              rw
                  (
                    save_key-found uuid now user_id k s v (rw (key_vault, found) refl),
                    user_vaults.at-save,
                    eq_refl,
                  )
                  refl,
              ground (arith, eq_iff v.user_id user),
              ground arith,
              refl,
              refl,
            )
        | inl missing ↦ elim has [
          | inl (v, stored, mine, d) ↦
              let miss = user_vaults.find_one-none (default_of user) s.0 v.id v missing stored in
              ground (arith, eq_iff v.user_id user)
          | inr nothing ↦ elim (Option-cases (user_vaults.find_one (owned_by user) s.0)) [
            | inr (v, found) ↦
                let (hit, stored) = user_vaults.find_one-some (owned_by user) s.0 v found in
                absurd (false≢true (sym (nothing v.id v stored) ∙ hit))
            | inl none_found ↦ (
              new_vault uuid now (to_lower_case user) true (initial_vault k),
              save_key-created uuid now user_id k s (rw (key_vault, missing, none_found) refl),
              idem,
              refl,
              refl,
              refl,
            )
          ]
        ]
      ]

  -- If the user has a default vault, or no vault, and no user has two default vaults, then after
  -- `saveVaultKey`, `getVaultKey` returns the salt and the wrapped key that were saved. (The
  -- e-mail address reads the same in lower case once or twice.)
  pub save_then_get :
      (uuid uuid' : String) (now now' : ℕ) (user : String) (k : KeyMaterial) (s : Tables service)
      → to_lower_case (to_lower_case user) ≡ to_lower_case user
      → OneDefaultEach service s
      → HasDefaultOrNone (to_lower_case user) s
      → (r : KeyMaterial) × ((get_vault_key service uuid' now' user
            (save_vault_key service uuid now user k s).1).0
          ≡ ok (some r))
        × (r.salt ≡ k.salt)
        × (r.wrapped_key ≡ k.wrapped_key)
  save_then_get uuid uuid' now now' user k s idem one has =
      let (v, stored, mine, d, salt, wrapped) = save-Saved uuid now user k s idem has in
      let s' = (save_vault_key service uuid now user k s).1 in
      (
        key_material (map_vault_to_dto v),
        ap (λ x. x.0)
            (get_vault_key-default uuid' now' user s' v (save-One service uuid now user k s one)
              (mine ∙ sym idem) stored d),
        salt,
        wrapped,
      )
