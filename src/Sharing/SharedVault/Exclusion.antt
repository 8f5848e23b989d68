-- ===== src/Sharing/SharedVault/Exclusion.antt =====
-- A removed member has no access to the vault until an administrator adds it again.
use sentinel_vault.Common.{
  ℕ, String, Bool, true, false, ◌≡◌, ◌≢◌, ◌⊎◌, inl, inr, Option, none, some, List, [], ◌∷◌, eq_iff,
  eq_refl, arith, All,
}
use sentinel_vault.Common.Exec.{succeeds}
use sentinel_vault.Common.Dict
use sentinel_vault.Common.Dict.{get-set}
use sentinel_vault.Sharing.SharedVault.{
  MemberRecord, VaultRecord, Vaults, Op, create, add, remove, rotate, create_vault, remove_member,
  is_active, step, run,
}
use sentinel_vault.Sharing.SharedVault.Views.{get_vault_details}
use sentinel_vault.Sharing.SharedVault.Effects.{
  add_member-effect, remove_member-effect, rotate_keys-effect,
}
use sentinel_vault.Sharing.SharedVault.Members.{Rewrapped, rotate_members-Rewrapped}

-- The vault does not count the user among its active members.
abbrev excludes : String → Option VaultRecord → Bool
excludes user none = true
excludes user (some v) = elim (is_active (Dict.get v.members user)) [ true ↦ false | false ↦ true ]

-- The request neither adds the user to the vault nor creates a vault under its identifier.
abbrev KeepsOut : String → String → Op → Type 0
KeepsOut vault_id user (create id now owner dto) = id ≢ vault_id
KeepsOut vault_id user (add now caller id dto) = (id ≢ vault_id) ⊎ (dto.user_id ≢ user)
KeepsOut vault_id user op = Unit

Rewrapped-inactive :
    (version : ℕ) (o o' : Option MemberRecord)
    → Rewrapped version o o'
    → is_active o ≡ false
    → is_active o' ≡ false
Rewrapped-inactive version none none r h = h
Rewrapped-inactive version none (some m) r h = absurd r
Rewrapped-inactive version (some m) none r h = absurd r
Rewrapped-inactive version (some m) (some x) r h = ground arith

module _ (k user : String) where
  step-excludes :
      (op : Op) (vaults : Vaults)
      → KeepsOut k user op
      → excludes user (Dict.get vaults k) ≡ true
      → excludes user (Dict.get (step op vaults) k) ≡ true
  unfolding step
  step-excludes (create id now owner dto) vaults h x =
      unfold create_vault in grind (arith, get-set, eq_iff id k)
  step-excludes (add now caller id dto) vaults h x =
      elim (add_member-effect caller id vaults now dto) [
        | inl (_, same) ↦ rw same x
        | inr (v, admitted, absent, _, done) ↦
            rw done (grind (arith, get-set, eq_iff id k, eq_iff dto.user_id user))
      ]
  step-excludes (remove caller id target) vaults h x =
      elim (remove_member-effect caller id vaults target) [
        | inl (_, same) ↦ rw same x
        | inr (v, m, admitted, _, present, _, _, done) ↦
            rw done (grind (arith, get-set, eq_iff id k, eq_iff target user))
      ]
  step-excludes (rotate caller id dto) vaults h x = elim (rotate_keys-effect caller id vaults dto) [
    | inl (_, same) ↦ rw same x
    | inr (v, admitted, newer, _, done) ↦ rw done (
        grind (
          arith,
          get-set,
          eq_iff id k,
          Rewrapped-inactive dto.key_version (Dict.get v.members user) _
              (rotate_members-Rewrapped dto.key_version dto.wrapped_keys v.members user),
        ))
  ]

  run-excludes :
      (ops : List Op) (vaults : Vaults)
      → All (KeepsOut k user) ops
      → excludes user (Dict.get vaults k) ≡ true
      → excludes user (Dict.get (run ops vaults) k) ≡ true
  unfolding run
  run-excludes [] vaults h x = x
  run-excludes (op ∷ ops) vaults h x =
      run-excludes ops (step op vaults) h.1 (step-excludes op vaults h.0 x)

  excluded_no_details :
      (vaults : Vaults)
      → excludes user (Dict.get vaults k) ≡ true
      → succeeds (get_vault_details user k vaults).0 ≡ false
  unfolding get_vault_details
  excluded_no_details vaults x = ground arith

  remove_excludes :
      (caller : String) (vaults : Vaults)
      → succeeds (remove_member caller k user vaults).0 ≡ true
      → excludes user (Dict.get (remove_member caller k user vaults).1 k) ≡ true
  remove_excludes caller vaults done = elim (remove_member-effect caller k vaults user) [
    | inl (failed, _) ↦ cc
    | inr (v, m, admitted, _, present, _, _, state) ↦ rw state (grind (arith, get-set, eq_refl))
  ]

  -- After an administrator has removed a user from a vault, that user cannot read the vault's
  -- details, its own wrapped key among them, whatever requests follow, key rotations included, if
  -- none of these adds the user again or creates a vault under the same identifier.
  pub removed_locked_out :
      (caller : String) (vaults : Vaults) (ops : List Op)
      → succeeds (remove_member caller k user vaults).0 ≡ true
      → All (KeepsOut k user) ops
      → succeeds (get_vault_details user k (run ops (remove_member caller k user vaults).1)).0
        ≡ false
  removed_locked_out caller vaults ops done h =
      excluded_no_details _ (run-excludes ops _ h (remove_excludes caller vaults done))
