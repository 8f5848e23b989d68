-- ===== src/Sync/Vaults/Tables.antt =====
-- The handlers of `SyncService` for vaults and vault keys, on its three tables.
use sentinel_vault.Common.{
  ℕ, String, Bool, true, false, not, ◌&&◌, Option, none, some, List, [], ◌∷◌, map, length, find,
  leb, if◌then◌else◌, or_default,
}
use sentinel_vault.Common.Exec.{Exec, pure, raise, modify, ◌>>=◌, ◌>>◌, bad_request, not_found}
use sentinel_vault.Common.Repository.{unordered, ascending}
use sentinel_vault.Sync.Vaults.{
  SyncService, UserVault, VaultKey, UserVaultDto, NewVault, VaultPatch, KeyMaterial,
  map_vault_to_dto, migrated, new_vault, patched, rekeyed, legacy_row, owned_by, default_of,
  owned_vault, has_vault_id, legacy_of, in_vault, created_at_of, no_default, chosen_key,
  initial_vault,
}

module _ (service : SyncService) where
  open service use {user_vaults, vault_keys, vault_items, to_lower_case}

  abbrev pub Tables : Type 0
  Tables = user_vaults.Table × vault_keys.Table × vault_items.Table

  -- `userVaultRepository.save`
  abbrev pub save_vault : UserVault → Tables → Tables
  save_vault vault (vs, ks, is) = (user_vaults.save vault vs, ks, is)

  abbrev pub vaults_of : String → Tables → List UserVault
  vaults_of user (vs, ks, is) = user_vaults.find unordered (owned_by user) vs

  -- `getUserVaults` once the vaults of the user and the legacy key are read.
  abbrev pub migrate :
      String → ℕ → String → List UserVault → Option VaultKey → Exec Tables (List UserVaultDto)
  migrate uuid now user [] (some key) =
      modify (save_vault (migrated uuid now user key))
      >> pure (map_vault_to_dto (migrated uuid now user key) ∷ [])
  migrate uuid now user [] none = pure []
  migrate uuid now user (v ∷ vs) legacy = pure (map map_vault_to_dto (v ∷ vs))

  unfoldable pub get_user_vaults : String → ℕ → String → Exec Tables (List UserVaultDto)
  get_user_vaults uuid now user_id s =
      let user = to_lower_case user_id in
      migrate uuid now user (user_vaults.find (ascending created_at_of) (owned_by user) s.0)
        (vault_keys.find_one (legacy_of user) s.1) s

  abbrev pub is_first : List UserVault → Bool
  is_first [] = true
  is_first (v ∷ vs) = false

  abbrev pub reset_defaults : Bool → String → Tables → Tables
  reset_defaults b user (vs, ks, is) =
      if b then (user_vaults.update (owned_by user) no_default vs, ks, is) else (vs, ks, is)

  unfoldable pub create_user_vault : String → ℕ → String → NewVault → Exec Tables UserVaultDto
  create_user_vault uuid now user_id dto s =
      let user = to_lower_case user_id in
      let first = is_first (vaults_of user s) in
      let default = or_default dto.is_default first in
      let vault = new_vault uuid now user default dto in
      (modify (reset_defaults (default && not first) user)
          >> modify (save_vault vault)
          >> pure (map_vault_to_dto vault))
        s

  abbrev pub update_found : VaultPatch → Option UserVault → Exec Tables UserVaultDto
  update_found dto none = raise not_found
  update_found dto (some vault) =
      modify (save_vault (patched dto vault)) >> pure (map_vault_to_dto (patched dto vault))

  unfoldable pub update_user_vault : String → String → VaultPatch → Exec Tables UserVaultDto
  update_user_vault user_id id dto s =
      update_found dto (user_vaults.find_one (owned_vault (to_lower_case user_id) id) s.0) s

  abbrev pub delete_found : Option UserVault → Exec Tables (Unit {0})
  delete_found none = raise not_found
  delete_found (some vault) = modify λ (vs, ks, is).
      (user_vaults.delete (has_vault_id vault.id) vs, ks, vault_items.delete (in_vault vault.id) is)

  unfoldable pub delete_user_vault : String → String → Exec Tables (Unit {0})
  delete_user_vault user_id id s =
      let vaults = vaults_of (to_lower_case user_id) s in
      if leb (length vaults) 1
      then raise bad_request s
      else delete_found (find (has_vault_id id) vaults) s

  -- The vault whose key `saveVaultKey` replaces.
  abbrev pub key_vault : String → user_vaults.Table → Option UserVault
  key_vault user vs = elim (user_vaults.find_one (default_of user) vs) [
    | some vault ↦ some vault
    | none ↦ user_vaults.find_one (owned_by user) vs
  ]

  abbrev pub save_in : String → ℕ → String → KeyMaterial → Option UserVault → Exec Tables (Unit {0})
  save_in uuid now user k (some vault) = modify (save_vault (rekeyed k vault))
  save_in uuid now user k none = create_user_vault uuid now user (initial_vault k) >> pure tt

  abbrev pub save_legacy : String → KeyMaterial → Tables → Tables
  save_legacy user k (vs, ks, is) =
      (vs, vault_keys.save (legacy_row user k (vault_keys.find_one (legacy_of user) ks)) ks, is)

  unfoldable pub save_vault_key : String → ℕ → String → KeyMaterial → Exec Tables (Unit {0})
  save_vault_key uuid now user_id k s =
      let user = to_lower_case user_id in
      (save_in uuid now user k (key_vault user s.0) >> modify (save_legacy user k)) s

  unfoldable pub get_vault_key : String → ℕ → String → Exec Tables (Option KeyMaterial)
  get_vault_key uuid now user_id =
      get_user_vaults uuid now (to_lower_case user_id) >>= λ vaults. pure (chosen_key vaults)

  unfoldable pub clear : Tables → Tables
  clear (vs, ks, is) = (
    user_vaults.delete (λ v. true) vs,
    vault_keys.delete (λ k. true) ks,
    vault_items.delete (λ i. true) is,
  )

  pub data Op : Type 0 where
    reset : Op
    list_vaults read_key : String → ℕ → String → Op
    create : String → ℕ → String → NewVault → Op
    update : String → String → VaultPatch → Op
    remove : String → String → Op
    save_key : String → ℕ → String → KeyMaterial → Op

  -- The tables after a request.
  unfoldable pub step : Op → Tables → Tables
  step (list_vaults uuid now user) s = (get_user_vaults uuid now user s).1
  step (read_key uuid now user) s = (get_vault_key uuid now user s).1
  step (create uuid now user dto) s = (create_user_vault uuid now user dto s).1
  step (update user id dto) s = (update_user_vault user id dto s).1
  step (remove user id) s = (delete_user_vault user id s).1
  step reset s = clear s
  step (save_key uuid now user k) s = (save_vault_key uuid now user k s).1

  unfoldable pub run : List Op → Tables → Tables
  run [] s = s
  run (op ∷ ops) s = run ops (step op s)
