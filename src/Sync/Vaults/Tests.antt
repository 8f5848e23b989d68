-- ===== src/Sync/Vaults/Tests.antt =====
-- Vaults and vault keys on tables in memory.
use sentinel_vault.Common.{
  String, Bool, true, false, ◌≡◌, ◌≢◌, ◌↔◌, inr, refl, Option, none, some, List, [], ◌∷◌,
}
use sentinel_vault.Common.Exec.{ok, err, bad_request, not_found}
use sentinel_vault.Common.Equality.{string_eq}
use sentinel_vault.Common.Repository.Memory.{memory}
use sentinel_vault.Sync.Items.{item_key}
use sentinel_vault.Sync.Vaults.{
  SyncService, VaultKey, NewVault, KeyMaterial, vault_id, legacy_id, new_vault,
}
use sentinel_vault.Sync.Vaults.Tables.{
  Tables, get_user_vaults, get_vault_key, create_user_vault, update_user_vault, delete_user_vault,
  save_vault_key, Op, create, remove, save_key, run, step,
}
use sentinel_vault.Sync.Vaults.Invariant.{OneDefaultEach, run-OneDefault}
use sentinel_vault.Sync.Vaults.Deletion.{MayDelete, Removed, Owns, delete_iff}
use sentinel_vault.Sync.Vaults.Keys.{save_then_get}

-- Opens what the tests compute with.
vaults_open : Unit {0}
unfolding get_user_vaults get_vault_key create_user_vault update_user_vault delete_user_vault
    save_vault_key step run
vaults_open = tt

abbrev service : SyncService
service = record {
  user_vaults = memory vault_id;
  vault_keys = memory legacy_id;
  vault_items = memory item_key;
  to_lower_case = λ s. s;
}

abbrev empty : Tables service
empty = (([], tt), ([], tt), ([], tt))

abbrev request : Option Bool → NewVault
request default = record {
  name = "";
  salt = "s";
  wrapped_key = "w";
  recovery_salt = none;
  recovery_wrapped_key = none;
  is_default = default;
}

abbrev material : KeyMaterial
material = record {
  salt = "s2";
  wrapped_key = "w2";
  recovery_salt = none;
  recovery_wrapped_key = none;
}

abbrev old_key : VaultKey
old_key = record {
  user_id = "ann";
  salt = "s0";
  wrapped_key = "w0";
  recovery_salt = none;
  recovery_wrapped_key = none;
}

abbrev legacy : Tables service
legacy = (([], tt), (old_key ∷ [], (refl, tt)), ([], tt))

abbrev requests : List (Op service)
requests =
    create "v1" 1 "ann" (request none)
    ∷ create "v2" 2 "ann" (request (some true))
    ∷ save_key "v3" 3 "ann" material
    ∷ remove "ann" "v1"
    ∷ []

abbrev two : Tables service
two = (
  (
    new_vault "v1" 1 "ann" false (request none)
        ∷ new_vault "v2" 2 "ann" true (request (some true))
        ∷ [],
    (refl, (refl, tt)),
  ),
  ([], tt),
  ([], tt),
)

default_moves :
    (run service
      (create "v1" 1 "ann" (request none) ∷ create "v2" 2 "ann" (request (some true)) ∷ [])
      empty).0.0
    ≡ two.0.0
unfolding vaults_open
default_moves = refl

last_stays :
    ((delete_user_vault service "ann" "v1"
        (run service (create "v1" 1 "ann" (request none) ∷ []) empty)).0
      ≡ err bad_request)
    × ((delete_user_vault service "ann" "v9" two).0 ≡ err not_found)
    × ((delete_user_vault service "ann" "v2" two).0 ≡ ok tt)
unfolding vaults_open
last_stays = (refl, refl, refl)

empty-One : OneDefaultEach service empty
empty-One k j r q e e' u d d' = cc

run-OneDefault_example : OneDefaultEach service (run service requests empty)
run-OneDefault_example = run-OneDefault service requests empty empty-One

delete_iff_example :
    let done = delete_user_vault service "ann" "v2" two in
    ((done.0 ≡ ok tt) ↔ MayDelete service "ann" "v2" two)
    × ((done.0 ≡ ok tt)
        → Removed service "v2" two done.1 × ((j : String) × Owns service "ann" j done.1))
    × (done.0 ≢ ok tt → done.1 ≡ two)
delete_iff_example = delete_iff service "ann" "v2" two

save_then_get_example :
    (r : KeyMaterial) × ((get_vault_key service "u2" 9 "ann"
        (save_vault_key service "u1" 8 "ann" material empty).1).0
      ≡ ok (some r))
    × (r.salt ≡ "s2")
    × (r.wrapped_key ≡ "w2")
save_then_get_example =
    save_then_get service "u1" "u2" 8 9 "ann" material empty refl empty-One (inr λ id v e. cc)

legacy-One : OneDefaultEach service legacy
legacy-One k j r q e e' u d d' = cc
