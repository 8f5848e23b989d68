-- ===== src/Sync/Vaults/Invariant.antt =====
-- Every request on vaults and keys keeps at most one default vault per user.
use sentinel_vault.Common.{
  ℕ, String, Bool, true, false, false≢true, not, ◌&&◌, ◌≡◌, inl, inr, refl, sym, subst, ◌∙◌, Option,
  none, some, List, [], ◌∷◌, length, find, leb, or_default, Option-cases, Bool-cases,
}
use sentinel_vault.Common.Exec.{Result, ok, err, modify, bind-pure}
use sentinel_vault.Common.Repository.{unordered, ascending}
use sentinel_vault.Sync.Vaults.{
  SyncService, UserVault, VaultKey, NewVault, VaultPatch, KeyMaterial, migrated, new_vault,
  owned_by, default_of, owned_vault, has_vault_id, legacy_of, initial_vault, rekeyed, patched,
  created_at_of,
}
use sentinel_vault.Sync.Vaults.Tables.{
  Tables, migrate, save_vault, reset_defaults, is_first, get_user_vaults, get_vault_key,
  create_user_vault, vaults_of, update_found, update_user_vault, delete_found, delete_user_vault,
  key_vault, save_in, save_legacy, save_vault_key, step, run, Op, reset, clear, list_vaults,
  read_key, create, update, remove, save_key,
}
use sentinel_vault.Sync.Vaults.Default.{
  OneDefault, Fits, save-OneDefault, delete-OneDefault, reset-OneDefault, reset-Fits, same-Fits,
  empty-Fits,
}

module _ (service : SyncService) where
  open service use {user_vaults, vault_keys, vault_items, to_lower_case}

  -- In the tables, no user has two default vaults.
  abbrev pub OneDefaultEach : Tables service → Type 0
  OneDefaultEach s = OneDefault user_vaults s.0

  migrate-One :
      (uuid : String) (now : ℕ) (user : String) (vaults : List UserVault) (legacy : Option VaultKey)
      (s : Tables service)
      → (vaults ≡ [] → (v : UserVault) → v.user_id ≡ user → Fits user_vaults v s.0)
      → OneDefaultEach s
      → OneDefaultEach (migrate service uuid now user vaults legacy s).1
  migrate-One uuid now user [] (some key) s fits one =
      save-OneDefault user_vaults (migrated uuid now user key) s.0
        (fits refl (migrated uuid now user key) refl) one
  migrate-One uuid now user [] none s fits one = one
  migrate-One uuid now user (v ∷ vs) legacy s fits one = one

  get-One :
      (uuid : String) (now : ℕ) (user : String) (s : Tables service)
      → OneDefaultEach s
      → OneDefaultEach (get_user_vaults service uuid now user s).1
  unfolding get_user_vaults
  get-One uuid now user_id s one =
      let user = to_lower_case user_id in
      migrate-One uuid now user (user_vaults.find (ascending created_at_of) (owned_by user) s.0)
        (vault_keys.find_one (legacy_of user) s.1) s
        (λ empty v u. empty-Fits user_vaults (ascending created_at_of) v s.0 (rw u empty)) one

  read-same :
      (uuid : String) (now : ℕ) (user : String) (s : Tables service)
      → (get_vault_key service uuid now user s).1
        ≡ (get_user_vaults service uuid now (to_lower_case user) s).1
  unfolding get_vault_key
  read-same uuid now user s = bind-pure (get_user_vaults service uuid now (to_lower_case user)) _ s

  insert-One :
      (vault : UserVault) (default : Bool) (vaults : List UserVault) (s : Tables service)
      → vault.is_default ≡ default
      → (vaults ≡ [] → Fits user_vaults vault s.0)
      → OneDefaultEach s
      → OneDefaultEach (
          save_vault service vault
            (reset_defaults service (default && not (is_first service vaults)) vault.user_id s))
  insert-One vault true [] s d fits one = save-OneDefault user_vaults vault s.0 (fits refl) one
  insert-One vault false [] s d fits one = save-OneDefault user_vaults vault s.0 (fits refl) one
  insert-One vault true (v ∷ vs) s d fits one =
      save-OneDefault user_vaults vault _ (reset-Fits user_vaults vault s.0)
        (reset-OneDefault user_vaults vault.user_id s.0 one)
  insert-One vault false (v ∷ vs) s off fits one =
      save-OneDefault user_vaults vault s.0 (λ k q e u d dq. absurd (false≢true (sym off ∙ d))) one

  create-One :
      (uuid : String) (now : ℕ) (user : String) (dto : NewVault) (s : Tables service)
      → OneDefaultEach s
      → OneDefaultEach (create_user_vault service uuid now user dto s).1
  unfolding create_user_vault
  create-One uuid now user_id dto s one =
      let user = to_lower_case user_id in
      let vaults = vaults_of service user s in
      let default = or_default dto.is_default (is_first service vaults) in
      let vault = new_vault uuid now user default dto in
      insert-One vault default vaults s refl
        (λ empty. empty-Fits user_vaults unordered vault s.0 empty) one

  update_found-One :
      (user id : String) (dto : VaultPatch) (found : Option UserVault) (s : Tables service)
      → user_vaults.find_one (owned_vault user id) s.0 ≡ found
      → OneDefaultEach s
      → OneDefaultEach (update_found service dto found s).1
  update_found-One user id dto none s e one = one
  update_found-One user id dto (some vault) s e one =
      save-OneDefault user_vaults (patched dto vault) s.0
        (same-Fits user_vaults vault (patched dto vault) s.0
          (user_vaults.find_one-some (owned_vault user id) s.0 vault e).1 refl refl refl one)
        one

  update-One :
      (user id : String) (dto : VaultPatch) (s : Tables service)
      → OneDefaultEach s
      → OneDefaultEach (update_user_vault service user id dto s).1
  unfolding update_user_vault
  update-One user id dto s one = update_found-One (to_lower_case user) id dto _ s refl one

  delete_found-One :
      (found : Option UserVault) (s : Tables service)
      → OneDefaultEach s
      → OneDefaultEach (delete_found service found s).1
  delete_found-One none s one = one
  delete_found-One (some vault) s one =
      delete-OneDefault user_vaults (has_vault_id vault.id) s.0 one

  delete-One :
      (user id : String) (s : Tables service)
      → OneDefaultEach s
      → OneDefaultEach (delete_user_vault service user id s).1
  unfolding delete_user_vault
  delete-One user id s one =
      let vaults = vaults_of service (to_lower_case user) s in
      elim (Bool-cases (leb (length vaults) 1)) [
        | inl last ↦ rw last one
        | inr more ↦ rw more (delete_found-One (find (has_vault_id id) vaults) s one)
      ]

  -- The vault that `saveVaultKey` replaces the key of is a stored one.
  key_vault-at :
      (user : String) (s : Tables service) (vault : UserVault)
      → key_vault service user s.0 ≡ some vault
      → user_vaults.at s.0 vault.id ≡ some vault
  key_vault-at user s vault e = elim (Option-cases (user_vaults.find_one (default_of user) s.0)) [
    | inl missing ↦
        (user_vaults.find_one-some (owned_by user) s.0 vault (rw (key_vault, missing) at e)).1
    | inr (v, found) ↦
        (user_vaults.find_one-some (default_of user) s.0 vault
          (found ∙ (rw (key_vault, found) at e))).1
  ]

  save_in-One :
      (uuid : String) (now : ℕ) (user : String) (k : KeyMaterial) (o : Option UserVault)
      (s : Tables service)
      → key_vault service user s.0 ≡ o
      → OneDefaultEach s
      → OneDefaultEach (save_in service uuid now user k o s).1
  save_in-One uuid now user k (some vault) s e one =
      save-OneDefault user_vaults (rekeyed k vault) s.0
        (same-Fits user_vaults vault (rekeyed k vault) s.0 (key_vault-at user s vault e) refl refl
          refl one)
        one
  save_in-One uuid now user k none s e one =
      subst OneDefaultEach
        (sym (bind-pure (create_user_vault service uuid now user (initial_vault k)) (λ _. tt) s))
        (create-One uuid now user (initial_vault k) s one)

  save_legacy-vaults :
      (user : String) (k : KeyMaterial) (s : Tables service)
      → (save_legacy service user k s).0 ≡ s.0
  save_legacy-vaults user k s = refl

  pub save-One :
      (uuid : String) (now : ℕ) (user : String) (k : KeyMaterial) (s : Tables service)
      → OneDefaultEach s
      → OneDefaultEach (save_vault_key service uuid now user k s).1
  unfolding save_vault_key
  save-One uuid now user_id k s one =
      let user = to_lower_case user_id in
      go (save_in service uuid now user k (key_vault service user s.0) s)
        (save_in-One uuid now user k _ s refl one)
    where
      go :
          (r : Result (Unit {0}) × Tables service)
          → OneDefaultEach r.1
          → OneDefaultEach
              (elim r.0 as (λ _. Result (Unit {0}) × Tables service) [
                | ok a ↦ modify (save_legacy service (to_lower_case user_id) k) r.1
                | err e ↦ (err e, r.1)
              ]).1
      go (ok a, s') one = one
      go (err e, s') one = one

  step-One :
      (op : Op service) (s : Tables service) → OneDefaultEach s → OneDefaultEach (step service op s)
  unfolding step
  step-One (list_vaults uuid now user) s one = get-One uuid now user s one
  step-One (read_key uuid now user) s one =
      subst OneDefaultEach (sym (read-same uuid now user s))
        (get-One uuid now (to_lower_case user) s one)
  step-One (create uuid now user dto) s one = create-One uuid now user dto s one
  step-One (update user id dto) s one = update-One user id dto s one
  step-One (remove user id) s one = delete-One user id s one
  step-One reset s one = unfold clear in delete-OneDefault user_vaults (λ v. true) s.0 one
  step-One (save_key uuid now user k) s one = save-One uuid now user k s one

  -- If no user has two default vaults, then no user has two default vaults after any sequence of
  -- requests on vaults and keys, successful or not, by any users.
  pub run-OneDefault :
      (ops : List (Op service)) (s : Tables service)
      → OneDefaultEach s
      → OneDefaultEach (run service ops s)
  unfolding run
  run-OneDefault [] s one = one
  run-OneDefault (op ∷ ops) s one = run-OneDefault ops (step service op s) (step-One op s one)
