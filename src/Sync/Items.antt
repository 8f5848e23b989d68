-- ===== src/Sync/Items.antt =====
-- `pull` and `push` of `SyncService` (backend/sync-api/src/sync/sync.service.ts), over the entity
-- `EncryptedVaultItem`. The raw SQL queries of `pull` read tables of other services: their answers
-- are arguments, `none` where the query throws. A handler runs without interleaving.
pub mod Conflicts
pub mod Final
pub mod Stored
pub mod Pulled
mod Tests
use sentinel_vault.Common.{
  ℕ, String, Bool, true, false, not, ◌&&◌, ◌||◌, Option, none, some, List, [], ◌∷◌, ◌++◌, map, any,
  filter, ltb, eqb, same, ◌==◌, if◌then◌else◌,
}
use sentinel_vault.Common.Text.{is_empty, is_set, includes}
use sentinel_vault.Common.Exec.{Exec, Result, ok}
use sentinel_vault.Common.Equality.{string_eq}
use sentinel_vault.Common.Repository.{Repository, unordered}

pub record EncryptedVaultItem : Type 0 where
  pub id : String
  pub encrypted_blob : String
  pub nonce : String
  pub version : ℕ
  pub is_deleted : Bool
  pub user_id : String
  pub vault_id : Option String
  pub folder_id : Option String
  pub updated_at : ℕ

pub record EncryptedVaultItemDto : Type 0 where
  pub id : String
  pub encrypted_blob : String
  pub nonce : String
  pub version : ℕ
  pub updated_at : ℕ
  pub is_deleted : Bool
  pub vault_id : Option String
  pub folder_id : Option String

abbrev pub item_key : EncryptedVaultItem → String
item_key item = item.id

abbrev pub map_item_to_dto : EncryptedVaultItem → EncryptedVaultItemDto
map_item_to_dto item = record {
  id = item.id;
  encrypted_blob = item.encrypted_blob;
  nonce = item.nonce;
  version = item.version;
  updated_at = item.updated_at;
  is_deleted = item.is_deleted;
  vault_id = item.vault_id;
  folder_id = item.folder_id;
}

-- The content of two copies of one version differs.
abbrev differs : EncryptedVaultItemDto → EncryptedVaultItem → Bool
differs item existing =
    not (item.encrypted_blob == existing.encrypted_blob)
    || (not (item.nonce == existing.nonce) || not (same item.is_deleted existing.is_deleted))

-- The test of the loop that detects conflicts.
abbrev pub conflicts_with : EncryptedVaultItemDto → Option EncryptedVaultItem → Bool
conflicts_with item none = false
conflicts_with item (some existing) =
    if ltb item.version existing.version
    then true
    else if eqb item.version existing.version
    then differs item existing
    else false

-- `a || b` where both may be `undefined`
abbrev or_other : Option String → Option String → Option String
or_other a b = if is_set a then a else b

-- `if (a) row.field = a`
abbrev replace_if_set : Option String → Option String → Option String
replace_if_set a old = if is_set a then a else old

-- The row that the second loop saves. (`updatedAt` is an update date: where the time that is written
-- equals the stored one and other columns change, TypeORM puts the time of the update there.)
abbrev pub saved_row :
    String → Option String → EncryptedVaultItemDto → Option EncryptedVaultItem → EncryptedVaultItem
saved_row user target item none = record {
  id = item.id;
  encrypted_blob = item.encrypted_blob;
  nonce = item.nonce;
  version = item.version;
  is_deleted = item.is_deleted;
  user_id = user;
  vault_id = or_other item.vault_id target;
  folder_id = item.folder_id;
  updated_at = item.updated_at;
}
saved_row user target item (some existing) = record existing {
  encrypted_blob = item.encrypted_blob;
  nonce = item.nonce;
  version = item.version;
  updated_at = item.updated_at;
  is_deleted = item.is_deleted;
  vault_id = replace_if_set (or_other item.vault_id target) existing.vault_id;
  folder_id = replace_if_set item.folder_id existing.folder_id;
}

abbrev pub has_id : String → EncryptedVaultItem → Bool
has_id id row = row.id == id

abbrev pub push_if :
    Bool → Option EncryptedVaultItem → List EncryptedVaultItemDto → List EncryptedVaultItemDto
push_if b none rest = rest
push_if b (some existing) rest = if b then map_item_to_dto existing ∷ rest else rest

-- The identifier of the caller: the first row of the query on users, if the caller is named by
-- an e-mail address.
pub resolve_user : (String → Option (List String)) → (String → String) → String → String
resolve_user user_rows to_lower_case user =
    if includes user "@"
    then elim (user_rows user) [
      | none ↦ user
      | some [] ↦ user
      | some (row ∷ rows) ↦ if is_empty row then user else to_lower_case row
    ]
    else user

-- The identifiers of the folders that are shared with the caller.
pub shared_folders : Option (List String) → List String
shared_folders none = []
shared_folders (some rows) = filter (λ row. not (is_empty row)) rows

abbrev pub is_text : Option String → String → Bool
is_text none s = false
is_text (some t) s = t == s

abbrev pub in_folders : List String → Option String → Bool
in_folders folders folder = any (is_text folder) folders

-- The disjunction of `whereConditions`.
pub pull_condition : String → String → Option String → List String → EncryptedVaultItem → Bool
pull_condition user uuid vault shared row = elim vault [
  | none ↦ row.user_id == user || (row.user_id == uuid || in_folders shared row.folder_id)
  | some v ↦
      if is_empty v
      then row.user_id == user || (row.user_id == uuid || in_folders shared row.folder_id)
      else row.user_id == user && is_text row.vault_id v
        || (row.user_id == uuid && is_text row.vault_id v
            || any (λ f. f == v) shared && is_text row.folder_id v)
]

module _ (repo : Repository EncryptedVaultItem item_key) where
  open repo use {Table, find_one, find, save}

  -- The loop that detects conflicts.
  pub detect_conflicts : List EncryptedVaultItemDto → Table → List EncryptedVaultItemDto
  detect_conflicts [] t = []
  detect_conflicts (item ∷ items) t =
      let existing = find_one (has_id item.id) t in
      push_if (conflicts_with item existing) existing (detect_conflicts items t)

  -- The loop that saves the items.
  pub save_items : String → Option String → List EncryptedVaultItemDto → Table → Table
  save_items user target [] t = t
  save_items user target (item ∷ items) t =
      save_items user target items
        (save (saved_row user target item (find_one (has_id item.id) t)) t)

  -- `push` after the conflicts are known.
  pub finish_push :
      String
      → Option String
      → List EncryptedVaultItemDto
      → List EncryptedVaultItemDto
      → Exec Table (Option (List EncryptedVaultItemDto))
  finish_push user target items [] t = (ok none, save_items user target items t)
  finish_push user target items (c ∷ cs) t = (ok (some (c ∷ cs)), t)

  pub push :
      (String → String)
      → String
      → List EncryptedVaultItemDto
      → Option String
      → Exec Table (Option (List EncryptedVaultItemDto))
  unfolding finish_push
  push to_lower_case user items target t =
      finish_push (to_lower_case user) target items (detect_conflicts items t) t

  pub pull :
      (String → Option (List String))
      → (String → String → Option (List String))
      → (String → String)
      → String
      → Option String
      → Exec Table (List EncryptedVaultItemDto)
  unfolding resolve_user shared_folders pull_condition
  pull user_rows shared_rows to_lower_case user_id vault t =
      let user = to_lower_case user_id in
      let uuid = resolve_user user_rows to_lower_case user in
      let shared = shared_folders (shared_rows user uuid) in
      (ok (map map_item_to_dto (find unordered (pull_condition user uuid vault shared) t)), t)
