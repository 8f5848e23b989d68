-- ===== src/Sharing/SharedVault/Members.antt =====
-- The table of members under the loops of `createVault` and `rotateKeys`.
use sentinel_vault.Common.{
  ℕ, ◌≤◌, String, Bool, true, false, ◌&&◌, ◌≡◌, refl, ◌∙◌, ◌⊎◌, inl, inr, Option, none, some, List,
  [], ◌∷◌, eq_iff, arith, ◌==◌, Bool-cases,
}
use sentinel_vault.Common.Dict
use sentinel_vault.Common.Dict.{get-set}
use sentinel_vault.Sharing.SharedVault.{
  MemberRecord, Members, MemberInput, WrappedKeyInput, accepted, pending, revoked, is_revoked,
  is_admin, invited, add_invited, rewrap, rotate_members,
}

-- What every stored member of a vault at key version `version` satisfies: it stands under its own
-- identifier, its key version is one that the vault has had, and if it is revoked it holds no key.
pub record IsMember (version : ℕ) (k : String) (m : MemberRecord) : Type 0 where
  pub keyed : m.user_id ≡ k
  pub from_one : 1 ≤ m.key_version
  pub not_ahead : m.key_version ≤ version
  pub wiped : is_revoked m ≡ true → m.wrapped_key_payload ≡ ""

abbrev pub AllMembers : ℕ → Members → Type 0
AllMembers version ms =
    (k : String) (m : MemberRecord) → Dict.get ms k ≡ some m → IsMember version k m

-- The owner's record: an accepted administrator.
abbrev pub owns : Option MemberRecord → Bool
owns none = false
owns (some m) =
    is_admin m.role && elim m.status [ accepted ↦ true | pending ↦ false | revoked ↦ false ]

pub set-AllMembers :
    (version : ℕ) (ms : Members) (j : String) (new : MemberRecord)
    → AllMembers version ms
    → IsMember version j new
    → AllMembers version (Dict.set ms j new)
set-AllMembers version ms j new h v k m e = grind (arith, get-set, eq_iff j k, h k m)

pub owns-set_ne :
    (ms : Members) (j k : String) (new : MemberRecord)
    → (j == k) ≡ false
    → owns (Dict.get (Dict.set ms j new) k) ≡ owns (Dict.get ms k)
owns-set_ne ms j k new ne = grind (arith, get-set)

pub invited-IsMember :
    (now version : ℕ) (m : MemberInput)
    → 1 ≤ version
    → IsMember version m.user_id (invited now version m)
invited-IsMember now version m h = ground arith

pub add_invited-AllMembers :
    (now : ℕ) (owner : String) (inputs : List MemberInput) (ms : Members)
    → AllMembers 1 ms
    → AllMembers 1 (add_invited now owner inputs ms)
unfolding add_invited
add_invited-AllMembers now owner [] ms h = h
add_invited-AllMembers now owner (m ∷ inputs) ms h = elim (Bool-cases (m.user_id == owner)) [
  | inl same ↦ rw same (add_invited-AllMembers now owner inputs ms h)
  | inr other ↦ rw other (
      add_invited-AllMembers now owner inputs (Dict.set ms m.user_id (invited now 1 m)) (
        set-AllMembers 1 ms m.user_id (invited now 1 m) h (invited-IsMember now 1 m (omega arith))))
]

pub owns-add_invited :
    (now : ℕ) (owner : String) (inputs : List MemberInput) (ms : Members)
    → owns (Dict.get (add_invited now owner inputs ms) owner) ≡ owns (Dict.get ms owner)
unfolding add_invited
owns-add_invited now owner [] ms = refl
owns-add_invited now owner (m ∷ inputs) ms = elim (Bool-cases (m.user_id == owner)) [
  | inl same ↦ rw same (owns-add_invited now owner inputs ms)
  | inr other ↦ rw other (
      owns-add_invited now owner inputs (Dict.set ms m.user_id (invited now 1 m))
      ∙ owns-set_ne ms m.user_id owner (invited now 1 m) other)
]

-- What a key rotation to `version` makes of a member: nothing is added or dropped, a revoked member
-- is left alone, and another keeps all but its key version and its wrapped key, which stay or
-- become those of the rotation.
abbrev pub Rewrapped : ℕ → Option MemberRecord → Option MemberRecord → Type 0
Rewrapped version none none = Unit
Rewrapped version none (some m') = ⊥
Rewrapped version (some m) none = ⊥
Rewrapped version (some m) (some m') =
    (m'.user_id ≡ m.user_id)
    × (m'.role ≡ m.role)
    × (m'.status ≡ m.status)
    × (m'.joined_at ≡ m.joined_at)
    × ((m' ≡ m) ⊎ ((m'.key_version ≡ version) × (is_revoked m ≡ false)))

Rewrapped-refl : (version : ℕ) (o : Option MemberRecord) → Rewrapped version o o
Rewrapped-refl version none = tt
Rewrapped-refl version (some m) = (refl, refl, refl, refl, inl refl)

Rewrapped-trans :
    (version : ℕ) (a b c : Option MemberRecord)
    → Rewrapped version a b
    → Rewrapped version b c
    → Rewrapped version a c
Rewrapped-trans version none none c h k = k
Rewrapped-trans version none (some b) c h k = absurd h
Rewrapped-trans version (some a) none c h k = absurd h
Rewrapped-trans version (some a) (some b) none h k = absurd k
Rewrapped-trans version (some a) (some b) (some c) h k = ground arith

rewrap-Rewrapped :
    (version : ℕ) (payload : String) (o : Option MemberRecord) (ms : Members) (user k : String)
    → Dict.get ms user ≡ o
    → Rewrapped version (Dict.get ms k) (Dict.get (rewrap version payload o ms user) k)
rewrap-Rewrapped version payload none ms user k e = Rewrapped-refl version (Dict.get ms k)
rewrap-Rewrapped version payload (some m) ms user k e = elim (Bool-cases (is_revoked m)) [
  | inl revoked_member ↦ rw revoked_member (Rewrapped-refl version (Dict.get ms k))
  | inr active ↦
      rw active (grind (arith, get-set, eq_iff user k, Rewrapped-refl version (Dict.get ms k)))
]

pub rotate_members-Rewrapped :
    (version : ℕ) (wraps : List WrappedKeyInput) (ms : Members) (k : String)
    → Rewrapped version (Dict.get ms k) (Dict.get (rotate_members version wraps ms) k)
unfolding rotate_members
rotate_members-Rewrapped version [] ms k = Rewrapped-refl version (Dict.get ms k)
rotate_members-Rewrapped version (w ∷ wraps) ms k =
    let next = rewrap version w.wrapped_key_payload (Dict.get ms w.user_id) ms w.user_id in
    Rewrapped-trans version (Dict.get ms k) (Dict.get next k) _
      (rewrap-Rewrapped version w.wrapped_key_payload (Dict.get ms w.user_id) ms w.user_id k refl)
      (rotate_members-Rewrapped version wraps next k)

Rewrapped-IsMember :
    (old new : ℕ) (k : String) (o o' : Option MemberRecord)
    → old ≤ new
    → 1 ≤ new
    → Rewrapped new o o'
    → ((m : MemberRecord) → o ≡ some m → IsMember old k m)
    → (m' : MemberRecord) → o' ≡ some m'
    → IsMember new k m'
Rewrapped-IsMember old new k none none le pos r h m' e = cc
Rewrapped-IsMember old new k none (some x) le pos r h m' e = absurd r
Rewrapped-IsMember old new k (some m) none le pos r h m' e = absurd r
Rewrapped-IsMember old new k (some m) (some x) le pos r h m' e = ground (arith, h m refl)

Rewrapped-owns :
    (version : ℕ) (o o' : Option MemberRecord)
    → Rewrapped version o o'
    → owns o ≡ true
    → owns o' ≡ true
Rewrapped-owns version none none r h = h
Rewrapped-owns version none (some x) r h = absurd r
Rewrapped-owns version (some m) none r h = absurd r
Rewrapped-owns version (some m) (some x) r h = ground arith

pub rotate-AllMembers :
    (old new : ℕ) (wraps : List WrappedKeyInput) (ms : Members)
    → old ≤ new
    → 1 ≤ new
    → AllMembers old ms
    → AllMembers new (rotate_members new wraps ms)
rotate-AllMembers old new wraps ms le pos h k m e =
    Rewrapped-IsMember old new k (Dict.get ms k) _ le pos (rotate_members-Rewrapped new wraps ms k)
      (h k) m e

pub owns-rotate :
    (version : ℕ) (wraps : List WrappedKeyInput) (ms : Members) (k : String)
    → owns (Dict.get ms k) ≡ true
    → owns (Dict.get (rotate_members version wraps ms) k) ≡ true
owns-rotate version wraps ms k h =
    Rewrapped-owns version (Dict.get ms k) _ (rotate_members-Rewrapped version wraps ms k) h
