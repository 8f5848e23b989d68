-- ===== src/Sharing/SharedVault/Invariant.antt =====
-- What every shared vault satisfies, in every state that the service can reach, and how a request
-- moves its key version.
use sentinel_vault.Common.{
  ℕ, ◌≤◌, ◌<◌, String, true, false, ◌≡◌, ◌≢◌, refl, inl, inr, Option, none, some, List, [], ◌∷◌,
  eq_iff, eq_refl, arith, ◌==◌, Bool-cases,
}
use sentinel_vault.Common.Dict
use sentinel_vault.Common.Dict.{get-set}
use sentinel_vault.Sharing.SharedVault.{
  MemberRecord, VaultRecord, Vaults, MemberInput, RotateKeysDto, CreateVaultDto, Op, create, add,
  remove, rotate, create_vault, is_active, step, run, new_vault, revoke_member, invited,
  rotate_members,
}
use sentinel_vault.Sharing.SharedVault.Effects.{
  add_member-effect, remove_member-effect, rotate_keys-effect,
}
use sentinel_vault.Sharing.SharedVault.Members.{
  AllMembers, owns, set-AllMembers, owns-set_ne, add_invited-AllMembers, owns-add_invited,
  rotate-AllMembers, owns-rotate, invited-IsMember,
}

-- The owner is an accepted administrator, and every member is well formed.
pub record IsValid (k : String) (v : VaultRecord) : Type 0 where
  pub keyed : v.vault_id ≡ k
  pub from_one : 1 ≤ v.key_version
  pub owned : owns (Dict.get v.members v.owner_user_id) ≡ true
  pub members : AllMembers v.key_version v.members

abbrev pub AllValid : Vaults → Type 0
AllValid vaults = (k : String) (v : VaultRecord) → Dict.get vaults k ≡ some v → IsValid k v

set-AllValid :
    (vaults : Vaults) (j : String) (new : VaultRecord)
    → AllValid vaults
    → IsValid j new
    → AllValid (Dict.set vaults j new)
set-AllValid vaults j new h valid k v e = grind (arith, get-set, eq_iff j k, h k v)

new_vault-IsValid :
    (vault_id : String) (now : ℕ) (owner : String) (dto : CreateVaultDto)
    → IsValid vault_id (new_vault vault_id now owner dto)
new_vault-IsValid vault_id now owner dto = record {
  keyed = refl;
  from_one = omega arith;
  owned = rw (owns-add_invited, get-set, eq_refl) refl;
  members =
      add_invited-AllMembers now owner _ _
        (set-AllMembers 1 [] owner _ (λ k m e. unfold Dict.get in ground arith) (ground arith));
}

add-IsValid :
    (k : String) (v : VaultRecord) (now : ℕ) (dto : MemberInput)
    → IsValid k v
    → (dto.user_id == v.owner_user_id) ≡ false
    → IsValid k
        (record v { members = Dict.set v.members dto.user_id (invited now v.key_version dto) })
add-IsValid k v now dto h ne = record {
  keyed = h.keyed;
  from_one = h.from_one;
  owned =
      rw (owns-set_ne v.members dto.user_id v.owner_user_id (invited now v.key_version dto) ne)
        h.owned;
  members =
      set-AllMembers v.key_version v.members _ _ h.members
        (invited-IsMember now v.key_version dto h.from_one);
}

remove-IsValid :
    (k : String) (v : VaultRecord) (target : String) (m : MemberRecord)
    → IsValid k v
    → (target == v.owner_user_id) ≡ false
    → Dict.get v.members target ≡ some m
    → IsValid k (record v { members = Dict.set v.members target (revoke_member m) })
remove-IsValid k v target m h ne e = record {
  keyed = h.keyed;
  from_one = h.from_one;
  owned = rw (owns-set_ne v.members target v.owner_user_id (revoke_member m) ne) h.owned;
  members =
      set-AllMembers v.key_version v.members _ _ h.members (ground (arith, h.members target m e));
}

rotate-IsValid :
    (k : String) (v : VaultRecord) (dto : RotateKeysDto)
    → IsValid k v
    → v.key_version < dto.key_version
    → IsValid k (record v {
      key_version = dto.key_version;
      members = rotate_members dto.key_version dto.wrapped_keys v.members;
    })
rotate-IsValid k v dto h lt = record {
  keyed = h.keyed;
  from_one = omega arith;
  owned = owns-rotate dto.key_version dto.wrapped_keys v.members v.owner_user_id h.owned;
  members =
      rotate-AllMembers v.key_version dto.key_version dto.wrapped_keys v.members (omega arith)
        (omega arith) h.members;
}

create_vault-AllValid :
    (vault_id : String) (now : ℕ) (owner : String) (dto : CreateVaultDto) (vaults : Vaults)
    → AllValid vaults
    → AllValid (create_vault vault_id now owner dto vaults).1
unfolding create_vault
create_vault-AllValid vault_id now owner dto vaults h k v e = grind (
  arith,
  h k v,
  set-AllValid vaults vault_id (new_vault vault_id now owner dto) h
      (new_vault-IsValid vault_id now owner dto) k v,
)

-- The owner is an active member, so a new member is not the owner.
not_owner :
    (v : VaultRecord) (user : String)
    → owns (Dict.get v.members v.owner_user_id) ≡ true
    → is_active (Dict.get v.members user) ≡ false
    → (user == v.owner_user_id) ≡ false
not_owner v user owned absent = elim (Bool-cases (user == v.owner_user_id)) [
  | inl same ↦ ground (arith, eq_iff user v.owner_user_id)
  | inr other ↦ other
]

step-AllValid : (op : Op) (vaults : Vaults) → AllValid vaults → AllValid (step op vaults)
unfolding step
step-AllValid (create vault_id now owner dto) vaults h =
    create_vault-AllValid vault_id now owner dto vaults h
step-AllValid (add now caller vault_id dto) vaults h =
    elim (add_member-effect caller vault_id vaults now dto) [
      | inl (_, same) ↦ rw same h
      | inr (v, admitted, absent, _, done) ↦ rw done (
          set-AllValid vaults vault_id _ h (
            add-IsValid vault_id v now dto (h vault_id v admitted.0)
              (not_owner v dto.user_id (h vault_id v admitted.0).owned absent)))
    ]
step-AllValid (remove caller vault_id target) vaults h =
    elim (remove_member-effect caller vault_id vaults target) [
      | inl (_, same) ↦ rw same h
      | inr (v, m, admitted, other, present, active, _, done) ↦ rw done (
          set-AllValid vaults vault_id _ h
            (remove-IsValid vault_id v target m (h vault_id v admitted.0) other present))
    ]
step-AllValid (rotate caller vault_id dto) vaults h =
    elim (rotate_keys-effect caller vault_id vaults dto) [
      | inl (_, same) ↦ rw same h
      | inr (v, admitted, newer, _, done) ↦ rw done (
          set-AllValid vaults vault_id _ h
            (rotate-IsValid vault_id v dto (h vault_id v admitted.0) newer))
    ]

run_from-AllValid : (ops : List Op) (vaults : Vaults) → AllValid vaults → AllValid (run ops vaults)
unfolding run
run_from-AllValid [] vaults h = h
run_from-AllValid (op ∷ ops) vaults h =
    run_from-AllValid ops (step op vaults) (step-AllValid op vaults h)

-- In every vault that the service holds after any requests, from no vaults: the owner is an
-- accepted administrator, so no vault is ever without one; every member stands under its own
-- identifier at a key version between 1 and the vault's; and a revoked member holds no wrapped key.
pub vaults_stay_valid : (ops : List Op) → AllValid (run ops [])
vaults_stay_valid ops = run_from-AllValid ops [] (λ k v e. unfold Dict.get in ground arith)

-- The request creates no vault under the identifier.
abbrev pub Spares : String → Op → Type 0
Spares k (create vault_id now owner dto) = vault_id ≢ k
Spares k op = Unit

-- The second state of a vault can follow the first one.
abbrev pub Follows : Option VaultRecord → Option VaultRecord → Type 0
Follows none o = Unit
Follows (some v) none = ⊥
Follows (some v) (some v') =
    (v.key_version ≤ v'.key_version)
    × (v'.owner_user_id ≡ v.owner_user_id)
    × (v'.name ≡ v.name)
    × (v'.created_at ≡ v.created_at)

Follows-refl : (o : Option VaultRecord) → Follows o o
Follows-refl none = tt
Follows-refl (some v) = (omega arith, refl, refl, refl)

set-Follows :
    (vaults : Vaults) (j k : String) (v v' : VaultRecord)
    → Dict.get vaults j ≡ some v
    → Follows (some v) (some v')
    → Follows (Dict.get vaults k) (Dict.get (Dict.set vaults j v') k)
set-Follows vaults j k v v' e f =
    grind (arith, get-set, eq_iff j k, Follows-refl (Dict.get vaults k))

create_vault-Follows :
    (vault_id : String) (now : ℕ) (owner : String) (dto : CreateVaultDto) (vaults : Vaults)
    (k : String)
    → vault_id ≢ k
    → Follows (Dict.get vaults k) (Dict.get (create_vault vault_id now owner dto vaults).1 k)
unfolding create_vault
create_vault-Follows vault_id now owner dto vaults k ne =
    grind (arith, get-set, eq_iff vault_id k, Follows-refl (Dict.get vaults k))

-- No request removes a vault, changes its owner or name, or lowers its key version. (A new vault
-- under an identifier that is in use is excluded: identifiers are random.)
pub step-Follows :
    (op : Op) (vaults : Vaults) (k : String)
    → Spares k op
    → Follows (Dict.get vaults k) (Dict.get (step op vaults) k)
unfolding step
step-Follows (create vault_id now owner dto) vaults k h =
    create_vault-Follows vault_id now owner dto vaults k h
step-Follows (add now caller vault_id dto) vaults k h =
    elim (add_member-effect caller vault_id vaults now dto) [
      | inl (_, same) ↦ rw same (Follows-refl (Dict.get vaults k))
      | inr (v, admitted, _, _, done) ↦
          rw done (set-Follows vaults vault_id k v _ admitted.0 (omega arith, refl, refl, refl))
    ]
step-Follows (remove caller vault_id target) vaults k h =
    elim (remove_member-effect caller vault_id vaults target) [
      | inl (_, same) ↦ rw same (Follows-refl (Dict.get vaults k))
      | inr (v, m, admitted, _, _, _, _, done) ↦
          rw done (set-Follows vaults vault_id k v _ admitted.0 (omega arith, refl, refl, refl))
    ]
step-Follows (rotate caller vault_id dto) vaults k h =
    elim (rotate_keys-effect caller vault_id vaults dto) [
      | inl (_, same) ↦ rw same (Follows-refl (Dict.get vaults k))
      | inr (v, admitted, newer, _, done) ↦
          rw done (set-Follows vaults vault_id k v _ admitted.0 (omega arith, refl, refl, refl))
    ]
