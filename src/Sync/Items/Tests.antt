-- ===== src/Sync/Items/Tests.antt =====
-- Pushes and pulls on a table in memory.
use sentinel_vault.Common.{
  ℕ, String, true, false, ◌≡◌, ◌≢◌, ◌⊎◌, ◌↔◌, refl, Option, none, some, List, [], ◌∷◌, any, All,
  ◌==◌,
}
use sentinel_vault.Common.Text.{includes}
use sentinel_vault.Common.Exec.{ok}
use sentinel_vault.Common.Equality.{string_eq}
use sentinel_vault.Common.Repository.{Repository, Distinct}
use sentinel_vault.Common.Repository.Memory.{memory}
use sentinel_vault.Sync.Items.{
  EncryptedVaultItem, EncryptedVaultItemDto, item_key, map_item_to_dto, push, pull, resolve_user,
  shared_folders, saved_row, detect_conflicts, save_items, finish_push, pull_condition,
}
use sentinel_vault.Sync.Items.Conflicts.{Accepts, push_accepted_iff}
use sentinel_vault.Sync.Items.Final.{Carries, has_dto_id}
use sentinel_vault.Sync.Items.Stored.{push_stores}
use sentinel_vault.Sync.Items.Pulled.{Visible, dto_key, pull_exact}

-- Opens what the tests compute with.
items_open : Unit {0}
unfolding detect_conflicts save_items finish_push push resolve_user shared_folders pull_condition
    pull includes
items_open = tt

abbrev repo : Repository EncryptedVaultItem item_key
repo = memory item_key

abbrev note : ℕ → String → EncryptedVaultItemDto
note version blob = record {
  id = "n1";
  encrypted_blob = blob;
  nonce = "00";
  version = version;
  updated_at = 5;
  is_deleted = false;
  vault_id = none;
  folder_id = some "f1";
}

abbrev card : EncryptedVaultItemDto
card = record {
  id = "c1";
  encrypted_blob = "cc";
  nonce = "01";
  version = 1;
  updated_at = 6;
  is_deleted = false;
  vault_id = none;
  folder_id = none;
}

abbrev lower : String → String
lower s = s

abbrev stored_note : EncryptedVaultItem
stored_note = saved_row "ann" (some "v1") (note 2 "aa") none

-- The note of Ann at version 2.
abbrev stored : Repository.Table repo
stored = (stored_note ∷ [], (refl, tt))

abbrev batch : List EncryptedVaultItemDto
batch = note 3 "bb" ∷ card ∷ []

abbrev after : Repository.Table repo
after = (push repo lower "ann" batch (some "v1") stored).1

accepted : (push repo lower "ann" batch (some "v1") stored).0 ≡ ok none
unfolding items_open
accepted = refl

stale :
    push repo lower "ann" (note 1 "bb" ∷ []) none stored
    ≡ (ok (some (map_item_to_dto stored_note ∷ [])), stored)
unfolding items_open
stale = refl

same_version :
    ((push repo lower "ann" (note 2 "aa" ∷ []) none stored).0 ≡ ok none)
    × ((push repo lower "ann" (note 2 "zz" ∷ []) none stored).0
        ≡ ok (some (map_item_to_dto stored_note ∷ [])))
unfolding items_open
same_version = (refl, refl)

-- Bob overwrites the note of Ann, which stays hers.
other_caller :
    repo.at (push repo lower "bob" (note 3 "bb" ∷ []) none stored).1 "n1"
    ≡ some (saved_row "ann" (some "v1") (note 3 "bb") none)
unfolding items_open
other_caller = refl

push_accepted_iff_example :
    (((push repo lower "ann" batch (some "v1") stored).0 ≡ ok none)
      ↔ All (λ item. Accepts item (repo.at stored item.id)) batch)
    × (((push repo lower "ann" batch (some "v1") stored).0 ≡ ok none)
        ⊎ ((conflicts : List EncryptedVaultItemDto) × (conflicts ≢ [])
            × (push repo lower "ann" batch (some "v1") stored ≡ (ok (some conflicts), stored))))
push_accepted_iff_example = push_accepted_iff repo lower "ann" batch (some "v1") stored

push_stores_example :
    All (λ item. Carries "ann" item (repo.at stored item.id) (repo.at after item.id)) batch
    × ((k : String) → any (has_dto_id k) batch ≡ false → repo.at after k ≡ repo.at stored k)
push_stores_example =
    push_stores repo lower "ann" batch (some "v1") stored accepted (refl, (refl, tt))

abbrev no_users : String → Option (List String)
no_users s = none

-- The folder `f1` is shared with everyone.
abbrev folder_query : String → String → Option (List String)
folder_query user uuid = some ("f1" ∷ [])

bob_reads :
    (pull repo no_users folder_query lower "bob" none stored).0
    ≡ ok (map_item_to_dto stored_note ∷ [])
unfolding items_open
bob_reads = refl

pull_exact_example :
    let uuid = resolve_user no_users lower "bob" in
    let shared = shared_folders (folder_query "bob" uuid) in
    (dtos : List EncryptedVaultItemDto) × (pull repo no_users folder_query lower "bob" none stored
      ≡ (ok dtos, stored))
    × Distinct dto_key dtos
    × All
        (λ d.
          (r : EncryptedVaultItem) × (repo.at stored d.id ≡ some r)
          × Visible "bob" uuid none shared r
          × (d ≡ map_item_to_dto r))
        dtos
    × ((k : String) (r : EncryptedVaultItem)
        → repo.at stored k ≡ some r
        → Visible "bob" uuid none shared r
        → any (λ d. dto_key d == k) dtos ≡ true)
pull_exact_example = pull_exact repo no_users folder_query lower "bob" none stored
