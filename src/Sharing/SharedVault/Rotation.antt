-- ===== src/Sharing/SharedVault/Rotation.antt =====
-- Who may change a shared vault, and what a key rotation leaves behind.
use sentinel_vault.Common.{
  ℕ, ◌<◌, String, Bool, true, false, ◌≡◌, ◌⊎◌, refl, sym, inl, inr, Option, none, some, List, [],
  ◌∷◌, any, eq_iff, eq_refl, arith, ◌==◌, Bool-cases, ◌∙◌, ap, if◌then◌else◌,
}
use sentinel_vault.Common.Exec.{err, forbidden, succeeds}
use sentinel_vault.Common.Dict
use sentinel_vault.Common.Dict.{get-set}
use sentinel_vault.Sharing.SharedVault.{
  MemberRecord, Members, VaultRecord, Vaults, MemberInput, RotateKeysDto, WrappedKeyInput,
  add_member, remove_member, rotate_keys, is_active, is_revoked, may_administer, rewrap,
  rotate_members,
}
use sentinel_vault.Sharing.SharedVault.Effects.{rotate_keys-effect}

-- A caller without an administrator's record that is not revoked is refused by every request that
-- changes a vault, and the vaults stay as they are.
pub only_admins_change :
    (caller k : String) (vaults : Vaults) (v : VaultRecord) (now : ℕ) (input : MemberInput)
    (target : String) (dto : RotateKeysDto)
    → Dict.get vaults k ≡ some v
    → may_administer (Dict.get v.members caller) ≡ false
    → (add_member now caller k input vaults ≡ (err forbidden, vaults))
      × (remove_member caller k target vaults ≡ (err forbidden, vaults))
      × (rotate_keys caller k dto vaults ≡ (err forbidden, vaults))
unfolding add_member remove_member rotate_keys
only_admins_change caller k vaults v now input target dto found barred =
    (ground arith, ground arith, ground arith)

abbrev pub names : String → WrappedKeyInput → Bool
names user w = w.user_id == user

-- The member is active, at the key version `version` and with the wrapped key `payload`.
abbrev pub IsCurrent : ℕ → String → Option MemberRecord → Type 0
IsCurrent version payload none = ⊥
IsCurrent version payload (some m) =
    (m.key_version ≡ version) × (m.wrapped_key_payload ≡ payload) × (is_revoked m ≡ false)

-- The last entry of a request that names the user has the wrapped key `payload`.
abbrev pub LastFor : String → List WrappedKeyInput → String → Type 0
LastFor user [] payload = ⊥
LastFor user (w ∷ ws) payload =
    ((any (names user) ws ≡ true) × LastFor user ws payload)
    ⊎ ((any (names user) ws ≡ false) × (w.user_id ≡ user) × (w.wrapped_key_payload ≡ payload))

-- One round of the loop, as a function of the member's record.
abbrev renewed : ℕ → String → Option MemberRecord → Option MemberRecord
renewed version payload none = none
renewed version payload (some m) =
    if is_revoked m
    then some m
    else some (record m { key_version = version; wrapped_key_payload = payload })

get-rewrap :
    (version : ℕ) (payload : String) (ms : Members) (user k : String) (o : Option MemberRecord)
    → Dict.get ms user ≡ o
    → Dict.get (rewrap version payload o ms user) k
      ≡ (if user == k then renewed version payload o else Dict.get ms k)
get-rewrap version payload ms user k none e = ground (arith, eq_iff user k)
get-rewrap version payload ms user k (some m) e = ground (
  arith,
  eq_iff user k,
  get-set ms user k (record m { key_version = version; wrapped_key_payload = payload }),
)

renewed-IsCurrent :
    (version : ℕ) (payload : String) (o : Option MemberRecord)
    → is_active o ≡ true
    → IsCurrent version payload (renewed version payload o)
renewed-IsCurrent version payload none active = cc
renewed-IsCurrent version payload (some m) active = ground arith

renewed-is_active :
    (version : ℕ) (payload : String) (o : Option MemberRecord)
    → is_active o ≡ true
    → is_active (renewed version payload o) ≡ true
renewed-is_active version payload none active = cc
renewed-is_active version payload (some m) active = ground arith

module _ (version : ℕ) (user : String) where
  rotate_members-absent :
      (wraps : List WrappedKeyInput) (ms : Members)
      → any (names user) wraps ≡ false
      → Dict.get (rotate_members version wraps ms) user ≡ Dict.get ms user
  unfolding rotate_members
  rotate_members-absent [] ms h = refl
  rotate_members-absent (w ∷ wraps) ms h =
      let next = rewrap version w.wrapped_key_payload (Dict.get ms w.user_id) ms w.user_id in
      rotate_members-absent wraps next (ground arith)
      ∙ ground (
        arith,
        get-rewrap version w.wrapped_key_payload ms w.user_id user (Dict.get ms w.user_id) refl,
      )

  rotate_members-IsCurrent :
      (wraps : List WrappedKeyInput) (ms : Members) (payload : String)
      → LastFor user wraps payload
      → is_active (Dict.get ms user) ≡ true
      → IsCurrent version payload (Dict.get (rotate_members version wraps ms) user)
  unfolding rotate_members
  rotate_members-IsCurrent [] ms payload h active = absurd h
  rotate_members-IsCurrent (w ∷ wraps) ms payload (inl (again, later)) active =
      let given = w.wrapped_key_payload in
      let next = rewrap version given (Dict.get ms w.user_id) ms w.user_id in
      let here = get-rewrap version given ms w.user_id user (Dict.get ms w.user_id) refl in
      rotate_members-IsCurrent wraps next payload later (elim (Bool-cases (w.user_id == user)) [
        | inl named ↦
            rw (here, named)
              (renewed-is_active version given _ (rw ((eq_iff w.user_id user).0 named) active))
        | inr other ↦ rw (here, other) active
      ])
  rotate_members-IsCurrent (w ∷ wraps) ms payload (inr (last, named, same)) active =
      let given = w.wrapped_key_payload in
      let next = rewrap version given (Dict.get ms w.user_id) ms w.user_id in
      let here = get-rewrap version given ms w.user_id user (Dict.get ms w.user_id) refl in
      rw (rotate_members-absent wraps next last, here, (eq_iff w.user_id user).1 named, sym same)
        (renewed-IsCurrent version given _ (rw named active))

-- After a key rotation that succeeded, the vault is at the new key version, above its old one;
-- every active member that the request names is active at the new version, with the wrapped key of
-- the last entry that names it; and the record of a user that the request does not name is as it
-- was.
pub rotation_complete :
    (caller k : String) (vaults : Vaults) (dto : RotateKeysDto) (v : VaultRecord)
    → Dict.get vaults k ≡ some v
    → succeeds (rotate_keys caller k dto vaults).0 ≡ true
    → (v' : VaultRecord) × (Dict.get (rotate_keys caller k dto vaults).1 k ≡ some v')
      × (v.key_version < v'.key_version)
      × (v'.key_version ≡ dto.key_version)
      × ((user payload : String)
          → LastFor user dto.wrapped_keys payload
          → is_active (Dict.get v.members user) ≡ true
          → IsCurrent dto.key_version payload (Dict.get v'.members user))
      × ((user : String)
          → any (names user) dto.wrapped_keys ≡ false
          → Dict.get v'.members user ≡ Dict.get v.members user)
rotation_complete caller k vaults dto v found done = elim (rotate_keys-effect caller k vaults dto) [
  | inl (failed, _) ↦ cc
  | inr (w, admitted, newer, _, state) ↦
      let same : w ≡ v = cc (found, admitted.0) in
      let same_members : w.members ≡ v.members = ap (λ (x : VaultRecord). x.members) same in
      let version = dto.key_version in
      (
        record w {
          key_version = version;
          members = rotate_members version dto.wrapped_keys w.members;
        },
        rw (state, get-set, eq_refl) refl,
        omega (arith, ap (λ (x : VaultRecord). x.key_version) same),
        refl,
        λ user payload named active.
            rotate_members-IsCurrent version user dto.wrapped_keys w.members payload named
              (rw same_members active),
        λ user unnamed.
            rotate_members-absent version user dto.wrapped_keys w.members unnamed
            ∙ ap (λ (ms : Members). Dict.get ms user) same_members,
      )
]
