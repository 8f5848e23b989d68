-- ===== src/Sharing/SharedVault/Tests.antt =====
-- Shared vaults on concrete requests.
use sentinel_vault.Common.{
  ◌<◌, String, true, false, ◌≡◌, refl, none, some, [], ◌∷◌, any, eq_iff, arith, map, ap,
}
use sentinel_vault.Common.Dict
use sentinel_vault.Common.Text.{trim}
use sentinel_vault.Common.Exec.{ok, err, conflict, bad_request, succeeds}
use sentinel_vault.Sharing.SharedVault.{
  MemberRecord, VaultRecord, Vaults, MemberInput, RotateKeysDto, CreateVaultDto, admin, viewer,
  accepted, pending, create_vault, add_member, remove_member, rotate_keys, is_active, create, add,
  remove, rotate, step, run, rotate_members, add_invited,
}
use sentinel_vault.Sharing.SharedVault.Views.{get_vault_details, get_vaults_for_user, VaultSummary}
use sentinel_vault.Sharing.SharedVault.Invariant.{AllValid, vaults_stay_valid}
use sentinel_vault.Sharing.SharedVault.Exclusion.{removed_locked_out}
use sentinel_vault.Sharing.SharedVault.Rotation.{rotation_complete, names, IsCurrent, LastFor}

-- Opens what the tests compute with.
vaults_open : Unit {0}
unfolding create_vault add_member remove_member rotate_keys get_vault_details get_vaults_for_user
    step run Dict.get Dict.set Dict.values trim rotate_members add_invited
vaults_open = tt

abbrev bob : MemberInput
bob = record { user_id = "bob"; role = none; wrapped_key_payload = "kb" }

abbrev cat : MemberInput
cat = record { user_id = "cat"; role = some admin; wrapped_key_payload = "kc" }

abbrev team : CreateVaultDto
team = record { name = " Team "; members = some (bob ∷ []) }

abbrev rekey : RotateKeysDto
rekey = record {
  key_version = 3;
  wrapped_keys =
      record { user_id = "ann"; wrapped_key_payload = "a3" }
      ∷ record { user_id = "eve"; wrapped_key_payload = "e3" }
      ∷ [];
}

abbrev member_of : String → MemberInput → MemberRecord
member_of payload m = record {
  user_id = m.user_id;
  role = viewer;
  status = pending;
  key_version = 1;
  wrapped_key_payload = payload;
  joined_at = 5;
}

abbrev team_vault : VaultRecord
team_vault = record {
  vault_id = "v";
  name = "Team";
  owner_user_id = "ann";
  key_version = 1;
  members =
      (
        "ann",
        record {
          user_id = "ann";
          role = admin;
          status = accepted;
          key_version = 1;
          wrapped_key_payload = "owner_wrapped_key";
          joined_at = 5;
        },
      )
      ∷ ("bob", member_of "kb" bob)
      ∷ [];
  created_at = 5;
}

abbrev vaults : Vaults
vaults = ("v", team_vault) ∷ []

team_created : create_vault "v" 5 "ann" team [] ≡ (ok team_vault, vaults)
unfolding vaults_open
team_created = refl

blank_name : create_vault "v" 5 "ann" (record team { name = "  " }) [] ≡ (err bad_request, [])
unfolding vaults_open
blank_name = refl

bob_is_removed : (remove_member "ann" "v" "bob" vaults).0 ≡ ok ("ann" ∷ [])
unfolding vaults_open
bob_is_removed = refl

owner_is_not_removed : remove_member "ann" "v" "ann" vaults ≡ (err bad_request, vaults)
unfolding vaults_open
owner_is_not_removed = refl

bob_is_present : add_member 6 "ann" "v" bob vaults ≡ (err conflict, vaults)
unfolding vaults_open
bob_is_present = refl

-- The reply counts the wrapped keys of the request, also for `eve`, who is no member.
rotation_reply : (rotate_keys "ann" "v" rekey vaults).0 ≡ ok (3, 2)
unfolding vaults_open
rotation_reply = refl

old_version :
    rotate_keys "ann" "v" (record rekey { key_version = 1 }) vaults ≡ (err bad_request, vaults)
unfolding vaults_open
old_version = refl

bob_summary :
    map
      (λ (s : VaultSummary). s.my_wrapped_key_payload)
      (elim (get_vaults_for_user "bob" vaults).0 [ ok l ↦ l | err e ↦ [] ])
    ≡ "kb" ∷ []
unfolding vaults_open
bob_summary = refl

vaults_stay_valid_example :
    AllValid
      (run (create "v" 5 "ann" team ∷ remove "ann" "v" "bob" ∷ rotate "ann" "v" rekey ∷ []) [])
vaults_stay_valid_example =
    vaults_stay_valid
      (create "v" 5 "ann" team ∷ remove "ann" "v" "bob" ∷ rotate "ann" "v" rekey ∷ [])

removed_locked_out_example :
    succeeds
      (get_vault_details "bob" "v" (
        run
          (rotate "ann" "v" rekey ∷ add 9 "ann" "v" cat ∷ [])
          (remove_member "ann" "v" "bob" vaults).1)).0
    ≡ false
removed_locked_out_example =
    removed_locked_out "v" "bob" "ann" vaults (rotate "ann" "v" rekey ∷ add 9 "ann" "v" cat ∷ [])
      (ap succeeds bob_is_removed) (ground (arith, eq_iff "cat" "bob"))

rotation_complete_example :
    (v' : VaultRecord) × (Dict.get (rotate_keys "ann" "v" rekey vaults).1 "v" ≡ some v')
    × (team_vault.key_version < v'.key_version)
    × (v'.key_version ≡ 3)
    × ((user payload : String)
        → LastFor user rekey.wrapped_keys payload
        → is_active (Dict.get team_vault.members user) ≡ true
        → IsCurrent 3 payload (Dict.get v'.members user))
    × ((user : String)
        → any (names user) rekey.wrapped_keys ≡ false
        → Dict.get v'.members user ≡ Dict.get team_vault.members user)
rotation_complete_example =
    rotation_complete "ann" "v" vaults rekey team_vault (unfold Dict.get in refl)
      (ap succeeds rotation_reply)
