-- ===== src/Sharing/SharedVault/Effects.antt =====
-- The two outcomes of each request on shared vaults: it throws and leaves the vaults alone, or its
-- checks passed and it replaces one vault.
use sentinel_vault.Common.{
  ℕ, ◌<◌, String, true, false, ◌≡◌, ◌⊎◌, inl, inr, some, arith, Option-cases, ◌==◌, Bool-cases, leb,
}
use sentinel_vault.Common.Exec.{Result, ok, succeeds}
use sentinel_vault.Common.Dict
use sentinel_vault.Sharing.SharedVault.{
  MemberRecord, VaultRecord, Vaults, MemberInput, RotateKeysDto, is_revoked, may_administer,
  is_active, add_member, remove_member, rotate_keys, revoke_member, invited, rotate_members,
}

-- The caller's record lets it change the vault.
abbrev Admits : Vaults → String → String → VaultRecord → Type 0
Admits vaults vault_id caller v =
    (Dict.get vaults vault_id ≡ some v) × (may_administer (Dict.get v.members caller) ≡ true)

abbrev Refused : {A : Type 0} → Vaults → Result A × Vaults → Type 0
Refused vaults (r, vaults') = (succeeds r ≡ false) × (vaults' ≡ vaults)

module _ (caller vault_id : String) (vaults : Vaults) where
  pub add_member-effect :
      (now : ℕ) (dto : MemberInput)
      → Refused vaults (add_member now caller vault_id dto vaults)
        ⊎ ((v : VaultRecord) × (Admits vaults vault_id caller v)
            × (is_active (Dict.get v.members dto.user_id) ≡ false)
            × ((add_member now caller vault_id dto vaults).0 ≡ ok (invited now v.key_version dto))
            × ((add_member now caller vault_id dto vaults).1
                ≡ Dict.set vaults vault_id (record v {
                  members = Dict.set v.members dto.user_id (invited now v.key_version dto);
                })))
  unfolding add_member
  add_member-effect now dto = elim (Option-cases (Dict.get vaults vault_id)) [
    | inl missing ↦ inl (ground arith)
    | inr (v, found) ↦ elim (Bool-cases (may_administer (Dict.get v.members caller))) [
      | inr barred ↦ inl (ground arith)
      | inl admitted ↦ elim (Bool-cases (is_active (Dict.get v.members dto.user_id))) [
        | inl present ↦ inl (ground arith)
        | inr absent ↦ inr (v, (found, admitted), absent, ground arith, ground arith)
      ]
    ]
  ]

  pub remove_member-effect :
      (target : String)
      → Refused vaults (remove_member caller vault_id target vaults)
        ⊎ ((v : VaultRecord) × (m : MemberRecord) × (Admits vaults vault_id caller v)
            × ((target == v.owner_user_id) ≡ false)
            × (Dict.get v.members target ≡ some m)
            × (is_revoked m ≡ false)
            × (succeeds (remove_member caller vault_id target vaults).0 ≡ true)
            × ((remove_member caller vault_id target vaults).1
                ≡ Dict.set vaults vault_id
                    (record v { members = Dict.set v.members target (revoke_member m) })))
  unfolding remove_member
  remove_member-effect target = elim (Option-cases (Dict.get vaults vault_id)) [
    | inl missing ↦ inl (ground arith)
    | inr (v, found) ↦ elim (Bool-cases (may_administer (Dict.get v.members caller))) [
      | inr barred ↦ inl (ground arith)
      | inl admitted ↦ elim (Bool-cases (target == v.owner_user_id)) [
        | inl owner ↦ inl (ground arith)
        | inr other ↦ elim (Option-cases (Dict.get v.members target)) [
          | inl absent ↦ inl (ground arith)
          | inr (m, present) ↦ elim (Bool-cases (is_revoked m)) [
            | inl gone ↦ inl (ground arith)
            | inr active ↦
                inr (v, m, (found, admitted), other, present, active, ground arith, ground arith)
          ]
        ]
      ]
    ]
  ]

  pub rotate_keys-effect :
      (dto : RotateKeysDto)
      → Refused vaults (rotate_keys caller vault_id dto vaults)
        ⊎ ((v : VaultRecord) × (Admits vaults vault_id caller v)
            × (v.key_version < dto.key_version)
            × (succeeds (rotate_keys caller vault_id dto vaults).0 ≡ true)
            × ((rotate_keys caller vault_id dto vaults).1
                ≡ Dict.set vaults vault_id (record v {
                  key_version = dto.key_version;
                  members = rotate_members dto.key_version dto.wrapped_keys v.members;
                })))
  unfolding rotate_keys
  rotate_keys-effect dto = elim (Option-cases (Dict.get vaults vault_id)) [
    | inl missing ↦ inl (ground arith)
    | inr (v, found) ↦ elim (Bool-cases (may_administer (Dict.get v.members caller))) [
      | inr barred ↦ inl (ground arith)
      | inl admitted ↦ elim (Bool-cases (leb dto.key_version v.key_version)) [
        | inl old ↦ inl (ground arith)
        | inr new ↦ inr (v, (found, admitted), ground arith, ground arith, ground arith)
      ]
    ]
  ]
