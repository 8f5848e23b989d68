-- ===== src/Sharing/SharedVault.antt =====
-- `SharedVaultService` (backend/sharing-service/src/shared-vault/shared-vault.service.ts): shared
-- vaults in an in-memory `Map`, each with a `Map` of its members. `randomUUID()` and the clock are
-- arguments. A field of a reply that is the same in every reply (`success`, the message text) is
-- left out.
pub mod Views
pub mod Effects
pub mod Members
pub mod Invariant
pub mod Exclusion
pub mod Rotation
mod Tests
use sentinel_vault.Common.{
  ℕ, String, Bool, true, false, not, ◌&&◌, ◌||◌, Option, none, some, List, [], ◌∷◌, map, filter,
  find, leb, length, or_default, ◌==◌, if◌then◌else◌,
}
use sentinel_vault.Common.Text.{is_empty, or_else, trim}
use sentinel_vault.Common.Exec.{
  Exec, pure, raise_if, gets, or_raise, modify, ◌>>=◌, ◌>>◌, bad_request, not_found, conflict,
  forbidden,
}
use sentinel_vault.Common.Dict
use sentinel_vault.Common.Dict.{Dict}

pub data Role : Type 0 where
  admin member viewer : Role

pub data Status : Type 0 where
  accepted pending revoked : Status

pub record MemberRecord : Type 0 where
  pub user_id : String
  pub role : Role
  pub status : Status
  pub key_version : ℕ
  pub wrapped_key_payload : String
  pub joined_at : ℕ

abbrev pub Members : Type 0
Members = Dict MemberRecord

pub record VaultRecord : Type 0 where
  pub vault_id : String
  pub name : String
  pub owner_user_id : String
  pub key_version : ℕ
  pub members : Members
  pub created_at : ℕ

abbrev pub Vaults : Type 0
Vaults = Dict VaultRecord

-- `SharedVaultMemberInput`, and `AddVaultMemberDto`, which has the same fields
pub record MemberInput : Type 0 where
  pub user_id : String
  pub role : Option Role
  pub wrapped_key_payload : String

pub record CreateVaultDto : Type 0 where
  pub name : String
  pub members : Option (List MemberInput)

pub record WrappedKeyInput : Type 0 where
  pub user_id : String
  pub wrapped_key_payload : String

pub record RotateKeysDto : Type 0 where
  pub key_version : ℕ
  pub wrapped_keys : List WrappedKeyInput

abbrev pub is_revoked : MemberRecord → Bool
is_revoked m = elim m.status [ accepted ↦ false | pending ↦ false | revoked ↦ true ]

abbrev pub is_admin : Role → Bool
is_admin admin = true
is_admin member = false
is_admin viewer = false

-- The record of a member that is invited.
abbrev pub invited : ℕ → ℕ → MemberInput → MemberRecord
invited now version m = record {
  user_id = m.user_id;
  role = or_default m.role viewer;
  status = pending;
  key_version = version;
  wrapped_key_payload = m.wrapped_key_payload;
  joined_at = now;
}

-- `ownerMemberInput?.wrappedKeyPayload || 'owner_wrapped_key'`
abbrev owner_payload : Option MemberInput → String
owner_payload none = "owner_wrapped_key"
owner_payload (some m) = or_else m.wrapped_key_payload "owner_wrapped_key"

abbrev owner_member : ℕ → String → List MemberInput → MemberRecord
owner_member now owner inputs = record {
  user_id = owner;
  role = admin;
  status = accepted;
  key_version = 1;
  wrapped_key_payload = owner_payload (find (λ m. m.user_id == owner) inputs);
  joined_at = now;
}

-- The loop over `dto.members` in `createVault`.
pub add_invited : ℕ → String → List MemberInput → Members → Members
add_invited now owner [] ms = ms
add_invited now owner (m ∷ inputs) ms =
    add_invited now owner inputs
      (if m.user_id == owner then ms else Dict.set ms m.user_id (invited now 1 m))

-- A missing `dto.members` leaves both uses of it without an effect, as an empty list does.
abbrev pub new_vault : String → ℕ → String → CreateVaultDto → VaultRecord
new_vault vault_id now owner dto =
    let inputs = or_default dto.members [] in
    record {
      vault_id = vault_id;
      name = trim dto.name;
      owner_user_id = owner;
      key_version = 1;
      members = add_invited now owner inputs (Dict.set [] owner (owner_member now owner inputs));
      created_at = now;
    }

pub create_vault : String → ℕ → String → CreateVaultDto → Exec Vaults VaultRecord
unfolding add_invited
create_vault vault_id now owner dto = do
  raise_if (is_empty dto.name || is_empty (trim dto.name)) bad_request
  let vault = new_vault vault_id now owner dto
  modify (λ vaults. Dict.set vaults vault_id vault)
  pure vault

pub get_vault_or_throw : String → Exec Vaults VaultRecord
get_vault_or_throw vault_id = do or_raise (← gets (λ vaults. Dict.get vaults vault_id)) not_found

-- The condition that `assertAdminRole` throws on, negated.
abbrev pub may_administer : Option MemberRecord → Bool
may_administer none = false
may_administer (some m) = not (is_revoked m) && is_admin m.role

assert_admin_role : VaultRecord → String → Exec Vaults (Unit {0})
assert_admin_role vault user =
    raise_if (not (may_administer (Dict.get vault.members user))) forbidden

-- A member that is not revoked.
abbrev pub is_active : Option MemberRecord → Bool
is_active none = false
is_active (some m) = not (is_revoked m)

pub add_member : ℕ → String → String → MemberInput → Exec Vaults MemberRecord
unfolding get_vault_or_throw assert_admin_role
add_member now caller vault_id dto = do
  vault ← get_vault_or_throw vault_id
  assert_admin_role vault caller
  raise_if (is_active (Dict.get vault.members dto.user_id)) conflict
  let added = invited now vault.key_version dto
  modify (λ vaults.
      Dict.set vaults vault_id
        (record vault { members = Dict.set vault.members dto.user_id added }))
  pure added

-- `member.status = 'revoked'; member.wrappedKeyPayload = ''`
abbrev pub revoke_member : MemberRecord → MemberRecord
revoke_member m = record m { status = revoked; wrapped_key_payload = "" }

abbrev remaining : Members → List String
remaining ms =
    map (λ (m : MemberRecord). m.user_id) (filter (λ m. not (is_revoked m)) (Dict.values ms))

-- Returns `remainingMembers`; `requiresKeyRotation` is always true.
pub remove_member : String → String → String → Exec Vaults (List String)
unfolding get_vault_or_throw assert_admin_role
remove_member caller vault_id target = do
  vault ← get_vault_or_throw vault_id
  assert_admin_role vault caller
  raise_if (target == vault.owner_user_id) bad_request
  m ← or_raise (Dict.get vault.members target) not_found
  raise_if (is_revoked m) not_found
  let ms = Dict.set vault.members target (revoke_member m)
  modify (λ vaults. Dict.set vaults vault_id (record vault { members = ms }))
  pure (remaining ms)

abbrev pub rewrap : ℕ → String → Option MemberRecord → Members → String → Members
rewrap version payload none ms user = ms
rewrap version payload (some m) ms user =
    if is_revoked m
    then ms
    else Dict.set ms user (record m { key_version = version; wrapped_key_payload = payload })

-- The loop of `rotateKeys`.
pub rotate_members : ℕ → List WrappedKeyInput → Members → Members
rotate_members version [] ms = ms
rotate_members version (w ∷ wraps) ms =
    rotate_members version wraps
      (rewrap version w.wrapped_key_payload (Dict.get ms w.user_id) ms w.user_id)

-- Returns `keyVersion` and `updatedMembersCount`.
pub rotate_keys : String → String → RotateKeysDto → Exec Vaults (ℕ × ℕ)
unfolding get_vault_or_throw assert_admin_role
rotate_keys caller vault_id dto = do
  vault ← get_vault_or_throw vault_id
  assert_admin_role vault caller
  raise_if (leb dto.key_version vault.key_version) bad_request
  modify (λ vaults. Dict.set vaults vault_id (record vault {
    key_version = dto.key_version;
    members = rotate_members dto.key_version dto.wrapped_keys vault.members;
  }))
  pure (dto.key_version, length dto.wrapped_keys)

-- The requests that change the vaults, and a history of them.
pub data Op : Type 0 where
  create : String → ℕ → String → CreateVaultDto → Op
  add : ℕ → String → String → MemberInput → Op
  remove : String → String → String → Op
  rotate : String → String → RotateKeysDto → Op

pub step : Op → Vaults → Vaults
step (create vault_id now owner dto) vaults = (create_vault vault_id now owner dto vaults).1
step (add now caller vault_id dto) vaults = (add_member now caller vault_id dto vaults).1
step (remove caller vault_id target) vaults = (remove_member caller vault_id target vaults).1
step (rotate caller vault_id dto) vaults = (rotate_keys caller vault_id dto vaults).1

pub run : List Op → Vaults → Vaults
run [] vaults = vaults
run (op ∷ ops) vaults = run ops (step op vaults)
