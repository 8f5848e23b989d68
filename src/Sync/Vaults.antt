-- ===== src/Sync/Vaults.antt =====
-- The vaults and the wrapped vault keys of `SyncService`
-- (backend/sync-api/src/sync/sync.service.ts), over the entities `UserVault` and `VaultKey`
-- (backend/sync-api/src/sync/entities). `updatedAt`, which nothing reads, is left out. A property
-- that is `undefined` is one that TypeORM's `save` does not write: the stored column stays.
-- A handler reads the clock once and runs without interleaving.
pub mod Tables
pub mod Default
pub mod Invariant
pub mod Deletion
pub mod Keys
pub mod Legacy
mod Tests
use sentinel_vault.Common.{
  ℕ, String, Bool, true, false, not, ◌&&◌, Option, none, some, List, [], ◌∷◌, map, length, find,
  leb, ◌==◌, if◌then◌else◌, or_default,
}
use sentinel_vault.Common.Text.{or_else}
use sentinel_vault.Common.Exec.{
  Exec, Result, ok, err, pure, raise, modify, ◌>>=◌, ◌>>◌, bad_request, not_found,
}
use sentinel_vault.Common.Equality.{string_eq}
use sentinel_vault.Common.Repository
use sentinel_vault.Common.Repository.{unless_undefined, Repository, unordered, ascending}
use sentinel_vault.Sync.Items.{EncryptedVaultItem, item_key, is_text}

pub record UserVault : Type 0 where
  pub id : String
  pub user_id : String
  pub name : String
  pub salt : String
  pub wrapped_key : String
  pub recovery_salt : Option String
  pub recovery_wrapped_key : Option String
  pub is_default : Bool
  pub created_at : ℕ

-- The legacy table: one key per user.
pub record VaultKey : Type 0 where
  pub user_id : String
  pub salt : String
  pub wrapped_key : String
  pub recovery_salt : Option String
  pub recovery_wrapped_key : Option String

pub record UserVaultDto : Type 0 where
  pub id : String
  pub name : String
  pub salt : String
  pub wrapped_key : String
  pub recovery_salt : Option String
  pub recovery_wrapped_key : Option String
  pub is_default : Bool
  pub created_at : ℕ

-- The `dto` of `createUserVault`.
pub record NewVault : Type 0 where
  pub name : String
  pub salt : String
  pub wrapped_key : String
  pub recovery_salt : Option String
  pub recovery_wrapped_key : Option String
  pub is_default : Option Bool

-- The `dto` of `updateUserVault`.
pub record VaultPatch : Type 0 where
  pub name : Option String
  pub salt : Option String
  pub wrapped_key : Option String

-- What `saveVaultKey` takes and `getVaultKey` returns.
pub record KeyMaterial : Type 0 where
  pub salt : String
  pub wrapped_key : String
  pub recovery_salt : Option String
  pub recovery_wrapped_key : Option String

abbrev pub vault_id : UserVault → String
vault_id vault = vault.id

abbrev pub legacy_id : VaultKey → String
legacy_id key = key.user_id

abbrev pub map_vault_to_dto : UserVault → UserVaultDto
map_vault_to_dto vault = record {
  id = vault.id;
  name = vault.name;
  salt = vault.salt;
  wrapped_key = vault.wrapped_key;
  recovery_salt = vault.recovery_salt;
  recovery_wrapped_key = vault.recovery_wrapped_key;
  is_default = vault.is_default;
  created_at = vault.created_at;
}

-- The default vault that `getUserVaults` makes of a legacy key.
abbrev pub migrated : String → ℕ → String → VaultKey → UserVault
migrated uuid now user key = record {
  id = uuid;
  user_id = user;
  name = "Personal Vault";
  salt = key.salt;
  wrapped_key = key.wrapped_key;
  recovery_salt = key.recovery_salt;
  recovery_wrapped_key = key.recovery_wrapped_key;
  is_default = true;
  created_at = now;
}

abbrev pub new_vault : String → ℕ → String → Bool → NewVault → UserVault
new_vault uuid now user is_default dto = record {
  id = uuid;
  user_id = user;
  name = or_else dto.name "Personal Vault";
  salt = dto.salt;
  wrapped_key = dto.wrapped_key;
  recovery_salt = dto.recovery_salt;
  recovery_wrapped_key = dto.recovery_wrapped_key;
  is_default = is_default;
  created_at = now;
}

abbrev pub patched : VaultPatch → UserVault → UserVault
patched dto vault = record vault {
  name = or_default dto.name vault.name;
  salt = or_default dto.salt vault.salt;
  wrapped_key = or_default dto.wrapped_key vault.wrapped_key;
}

abbrev pub rekeyed : KeyMaterial → UserVault → UserVault
rekeyed k vault = record vault {
  salt = k.salt;
  wrapped_key = k.wrapped_key;
  recovery_salt = unless_undefined k.recovery_salt vault.recovery_salt;
  recovery_wrapped_key = unless_undefined k.recovery_wrapped_key vault.recovery_wrapped_key;
}

-- The legacy row that `saveVaultKey` writes.
abbrev pub legacy_row : String → KeyMaterial → Option VaultKey → VaultKey
legacy_row user k none = record {
  user_id = user;
  salt = k.salt;
  wrapped_key = k.wrapped_key;
  recovery_salt = k.recovery_salt;
  recovery_wrapped_key = k.recovery_wrapped_key;
}
legacy_row user k (some old) = record old {
  salt = k.salt;
  wrapped_key = k.wrapped_key;
  recovery_salt = unless_undefined k.recovery_salt old.recovery_salt;
  recovery_wrapped_key = unless_undefined k.recovery_wrapped_key old.recovery_wrapped_key;
}

abbrev pub owned_by : String → UserVault → Bool
owned_by user vault = vault.user_id == user

abbrev pub default_of : String → UserVault → Bool
default_of user vault = vault.user_id == user && vault.is_default

abbrev pub owned_vault : String → String → UserVault → Bool
owned_vault user id vault = vault.id == id && vault.user_id == user

abbrev pub has_vault_id : String → UserVault → Bool
has_vault_id id vault = vault.id == id

abbrev pub legacy_of : String → VaultKey → Bool
legacy_of user key = key.user_id == user

abbrev pub in_vault : String → EncryptedVaultItem → Bool
in_vault id item = is_text item.vault_id id

abbrev pub created_at_of : UserVault → ℕ
created_at_of vault = vault.created_at

abbrev pub no_default : UserVault → UserVault
no_default vault = record vault { is_default = false }

abbrev pub is_default_dto : UserVaultDto → Bool
is_default_dto vault = vault.is_default

abbrev pub key_material : UserVaultDto → KeyMaterial
key_material vault = record {
  salt = vault.salt;
  wrapped_key = vault.wrapped_key;
  recovery_salt = vault.recovery_salt;
  recovery_wrapped_key = vault.recovery_wrapped_key;
}

-- The vault whose key `getVaultKey` returns: the first default vault, or the first vault.
abbrev pub chosen : List UserVaultDto → Option UserVaultDto
chosen [] = none
chosen (v ∷ vs) = elim (find is_default_dto (v ∷ vs)) [ some d ↦ some d | none ↦ some v ]

-- The answer of `getVaultKey` on the listed vaults.
abbrev pub chosen_key : List UserVaultDto → Option KeyMaterial
chosen_key vaults = elim (chosen vaults) [ none ↦ none | some vault ↦ some (key_material vault) ]

abbrev pub initial_vault : KeyMaterial → NewVault
initial_vault k = record {
  name = "Personal Vault";
  salt = k.salt;
  wrapped_key = k.wrapped_key;
  recovery_salt = k.recovery_salt;
  recovery_wrapped_key = k.recovery_wrapped_key;
  is_default = some true;
}

-- The repositories that the constructor of `SyncService` takes, and `toLowerCase`.
pub record SyncService : Type 1 where
  pub user_vaults : Repository UserVault vault_id
  pub vault_keys : Repository VaultKey legacy_id
  pub vault_items : Repository EncryptedVaultItem item_key
  pub to_lower_case : String → String
