-- ===== src/Sharing/SharedVault/Views.antt =====
-- What a member reads of shared vaults: `getVaultDetails` and `getVaultsForUser`.
use sentinel_vault.Common.{ℕ, String, Option, none, some, List, [], ◌∷◌, map, if◌then◌else◌}
use sentinel_vault.Common.Exec.{Exec, pure, raise_if, gets, or_raise, ◌>>=◌, ◌>>◌, forbidden}
use sentinel_vault.Common.Dict
use sentinel_vault.Common.Dict.{Dict}
use sentinel_vault.Sharing.SharedVault.{
  Role, Status, MemberRecord, VaultRecord, Vaults, is_revoked, get_vault_or_throw,
}

pub record MemberView : Type 0 where
  pub user_id : String
  pub role : Role
  pub status : Status
  pub key_version : ℕ
  pub joined_at : ℕ

abbrev member_view : MemberRecord → MemberView
member_view m = record {
  user_id = m.user_id;
  role = m.role;
  status = m.status;
  key_version = m.key_version;
  joined_at = m.joined_at;
}

pub record VaultDetails : Type 0 where
  pub vault_id : String
  pub name : String
  pub owner_user_id : String
  pub key_version : ℕ
  pub my_role : Role
  pub my_wrapped_key_payload : String
  pub members : List MemberView
  pub created_at : ℕ

unfoldable pub get_vault_details : String → String → Exec Vaults VaultDetails
unfolding get_vault_or_throw
get_vault_details caller vault_id = do
  vault ← get_vault_or_throw vault_id
  me ← or_raise (Dict.get vault.members caller) forbidden
  raise_if (is_revoked me) forbidden
  pure (record {
    vault_id = vault.vault_id;
    name = vault.name;
    owner_user_id = vault.owner_user_id;
    key_version = vault.key_version;
    my_role = me.role;
    my_wrapped_key_payload = me.wrapped_key_payload;
    members = map member_view (Dict.values vault.members);
    created_at = vault.created_at;
  })

pub record VaultSummary : Type 0 where
  pub vault_id : String
  pub name : String
  pub owner_user_id : String
  pub key_version : ℕ
  pub my_role : Role
  pub my_wrapped_key_payload : String
  pub member_count : ℕ
  pub created_at : ℕ

abbrev add_summary : VaultRecord → Option MemberRecord → List VaultSummary → List VaultSummary
add_summary v none rest = rest
add_summary v (some m) rest =
    if is_revoked m
    then rest
    else record {
      vault_id = v.vault_id;
      name = v.name;
      owner_user_id = v.owner_user_id;
      key_version = v.key_version;
      my_role = m.role;
      my_wrapped_key_payload = m.wrapped_key_payload;
      member_count = Dict.size v.members;
      created_at = v.created_at;
    }
      ∷ rest

-- The loop of `getVaultsForUser`.
summaries : String → List VaultRecord → List VaultSummary
summaries user [] = []
summaries user (v ∷ vs) = add_summary v (Dict.get v.members user) (summaries user vs)

unfoldable pub get_vaults_for_user : String → Exec Vaults (List VaultSummary)
unfolding summaries
get_vaults_for_user user = gets (λ vaults. summaries user (Dict.values vaults))
