-- ===== src/Sync/Vaults/Legacy.antt =====
-- The migration of a legacy key by `getUserVaults`.
use sentinel_vault.Common.{
  ℕ, String, true, false, false≢true, ◌≡◌, inl, inr, refl, sym, ap, ◌∙◌, some, List, [], ◌∷◌,
  eq_iff, eq_refl, arith, All, Option-cases,
}
use sentinel_vault.Common.Exec.{ok, pure, bind-ok}
use sentinel_vault.Common.Repository.{ascending}
use sentinel_vault.Sync.Vaults.{
  SyncService, UserVault, VaultKey, KeyMaterial, owned_by, map_vault_to_dto, created_at_of,
  legacy_of, migrated, chosen_key,
}
use sentinel_vault.Sync.Vaults.Tables.{Tables, get_user_vaults, get_vault_key, save_vault}
use sentinel_vault.Sync.Vaults.Invariant.{OneDefaultEach}
use sentinel_vault.Sync.Vaults.Default.{save-OneDefault}
use sentinel_vault.Sync.Vaults.Keys.{get_vault_key-default}

-- The key of a legacy row.
abbrev pub legacy_material : VaultKey → KeyMaterial
legacy_material key = record {
  salt = key.salt;
  wrapped_key = key.wrapped_key;
  recovery_salt = key.recovery_salt;
  recovery_wrapped_key = key.recovery_wrapped_key;
}

module _ (service : SyncService) where
  open service use {user_vaults, vault_keys, to_lower_case}

  -- The user has no vault.
  abbrev NoVault : String → Tables service → Type 0
  NoVault user s =
      (id : String) (v : UserVault) → user_vaults.at s.0 id ≡ some v → owned_by user v ≡ false

  nothing_listed :
      (user : String) (s : Tables service)
      → NoVault user s
      → user_vaults.find (ascending created_at_of) (owned_by user) s.0 ≡ []
  nothing_listed user s nothing =
      go _ (user_vaults.find-sound (ascending created_at_of) (owned_by user) s.0)
    where
      go :
          (vs : List UserVault)
          → All (λ v. (owned_by user v ≡ true) × (user_vaults.at s.0 v.id ≡ some v)) vs
          → vs ≡ []
      go [] h = refl
      go (v ∷ vs) h = absurd (false≢true (sym (nothing v.id v h.0.1) ∙ h.0.0))

  legacy_found :
      (user : String) (s : Tables service) (key : VaultKey)
      → vault_keys.at s.1 user ≡ some key
      → vault_keys.find_one (legacy_of user) s.1 ≡ some key
  legacy_found user s key stored = elim (Option-cases (vault_keys.find_one (legacy_of user) s.1)) [
    | inl missing ↦
        let miss = vault_keys.find_one-none (legacy_of user) s.1 user key missing stored in
        ground (arith, vault_keys.at-key s.1 user key stored, eq_iff key.user_id user)
    | inr (k, found) ↦
        let (hit, there) = vault_keys.find_one-some (legacy_of user) s.1 k found in
        ground (arith, eq_iff k.user_id user)
  ]

  get-migrates :
      (uuid : String) (now : ℕ) (user u : String) (s : Tables service) (key : VaultKey)
      → to_lower_case user ≡ u
      → NoVault u s
      → vault_keys.at s.1 u ≡ some key
      → get_user_vaults service uuid now user s ≡ (
        ok (map_vault_to_dto (migrated uuid now u key) ∷ []),
        save_vault service (migrated uuid now u key) s,
      )
  unfolding get_user_vaults
  get-migrates uuid now user u s key e nothing stored =
      rw (e, nothing_listed u s nothing, legacy_found u s key stored) refl

  read-migrates :
      (uuid : String) (now : ℕ) (user u : String) (s : Tables service) (key : VaultKey)
      → to_lower_case (to_lower_case user) ≡ u
      → NoVault u s
      → vault_keys.at s.1 u ≡ some key
      → get_vault_key service uuid now user s
        ≡ (ok (some (legacy_material key)), save_vault service (migrated uuid now u key) s)
  unfolding get_vault_key
  read-migrates uuid now user u s key e nothing stored =
      bind-ok (get_user_vaults service uuid now (to_lower_case user))
        (λ vaults. pure (chosen_key vaults)) s _ _
        (get-migrates uuid now (to_lower_case user) u s key e nothing stored)

  -- If the user has a legacy key and no vault, then `getVaultKey` returns the legacy key and stores
  -- it as the user's default vault, and a later call returns it again from there, whichever
  -- identifier and clock it has, and changes nothing. (No user has two default vaults, and the
  -- e-mail address reads the same in lower case once or twice.)
  pub legacy_migrated :
      (uuid uuid' : String) (now now' : ℕ) (user : String) (s : Tables service) (key : VaultKey)
      → to_lower_case (to_lower_case user) ≡ to_lower_case user
      → OneDefaultEach service s
      → NoVault (to_lower_case user) s
      → vault_keys.at s.1 (to_lower_case user) ≡ some key
      → let first = get_vault_key service uuid now user s in
        let again = get_vault_key service uuid' now' user first.1 in
        (first.0 ≡ ok (some (legacy_material key)))
        × (user_vaults.at first.1.0 uuid ≡ some (migrated uuid now (to_lower_case user) key))
        × (again.0 ≡ first.0)
        × (again.1 ≡ first.1)
  legacy_migrated uuid uuid' now now' user s key idem one nothing stored =
      let u = to_lower_case user in
      let vault = migrated uuid now u key in
      let first = read-migrates uuid now user u s key idem nothing stored in
      let there : (user_vaults.at (user_vaults.save vault s.0) uuid ≡ some vault) =
        rw (user_vaults.at-save, eq_refl) refl in
      let later =
        get_vault_key-default service uuid' now' user (save_vault service vault s) vault
          (save-OneDefault user_vaults vault s.0
            (λ k q e mine _ _.
              absurd (false≢true (sym (nothing k q e) ∙ (eq_iff q.user_id u).1 mine)))
            one)
          (sym idem) there refl in
      rw first (refl, there, ap (λ x. x.0) later, ap (λ x. x.1) later)
