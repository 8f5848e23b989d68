-- ===== src/Sharing/ShareInvite.antt =====
-- `ShareInviteService` (backend/sharing-service/src/share-invite/share-invite.service.ts): share
-- invitations in an in-memory `Map`. `randomUUID()` and the clock are arguments.
pub mod Gate
pub mod Invariant
mod Tests
use sentinel_vault.Common.{
  ℕ, String, Bool, true, false, not, ◌&&◌, ◌||◌, Option, none, some, List, [], ◌∷◌, any, filter,
  ◌==◌, if◌then◌else◌,
}
use sentinel_vault.Common.Exec.{
  Exec, pure, raise_if, gets, or_raise, modify, ◌>>=◌, ◌>>◌, bad_request, not_found, conflict,
}
use sentinel_vault.Common.Dict
use sentinel_vault.Common.Dict.{Dict}

pub data InviteStatus : Type 0 where
  pending accepted declined revoked : InviteStatus

pub record ShareInvite : Type 0 where
  pub invite_id : String
  pub folder_id : String
  pub sender_user_id : String
  pub recipient_user_id : String
  pub signed_payload : String
  pub ed25519_signature : String
  pub mldsa_signature : String
  pub wrapped_folder_key_payload : String
  pub status : InviteStatus
  pub fingerprint_verified : Bool
  pub created_at : ℕ
  pub responded_at : Option ℕ

pub record CreateInviteDto : Type 0 where
  pub folder_id : String
  pub recipient_user_id : String
  pub signed_payload : String
  pub ed25519_signature : String
  pub mldsa_signature : String
  pub wrapped_folder_key_payload : String

pub record AcceptInviteDto : Type 0 where
  pub invite_id : String
  pub fingerprint_confirmed : String

abbrev pub Invites : Type 0
Invites = Dict ShareInvite

-- `status === 'pending'`
abbrev pub is_pending : InviteStatus → Bool
is_pending pending = true
is_pending accepted = false
is_pending declined = false
is_pending revoked = false

-- `status === 'accepted'`
abbrev pub is_accepted : InviteStatus → Bool
is_accepted pending = false
is_accepted accepted = true
is_accepted declined = false
is_accepted revoked = false

-- The test of the loop in `createInvite`.
abbrev pub blocks : CreateInviteDto → ShareInvite → Bool
blocks dto inv =
    inv.folder_id == dto.folder_id
    && (inv.recipient_user_id == dto.recipient_user_id && is_pending inv.status)

abbrev pub new_invite : String → ℕ → String → CreateInviteDto → ShareInvite
new_invite invite_id now sender dto = record {
  invite_id = invite_id;
  folder_id = dto.folder_id;
  sender_user_id = sender;
  recipient_user_id = dto.recipient_user_id;
  signed_payload = dto.signed_payload;
  ed25519_signature = dto.ed25519_signature;
  mldsa_signature = dto.mldsa_signature;
  wrapped_folder_key_payload = dto.wrapped_folder_key_payload;
  status = pending;
  fingerprint_verified = false;
  created_at = now;
  responded_at = none;
}

pub create_invite : String → ℕ → String → CreateInviteDto → Exec Invites ShareInvite
create_invite invite_id now sender dto = do
  raise_if (any (blocks dto) (← gets (λ invites. Dict.values invites))) conflict
  let invite = new_invite invite_id now sender dto
  modify (λ invites. Dict.set invites invite_id invite)
  pure invite

get_invite_for_recipient : String → String → Exec Invites ShareInvite
get_invite_for_recipient invite_id recipient = do
  invite ← or_raise (← gets (λ invites. Dict.get invites invite_id)) not_found
  raise_if (not (invite.recipient_user_id == recipient)) bad_request
  pure invite

abbrev pub accept : ℕ → ShareInvite → ShareInvite
accept now invite = record invite {
  fingerprint_verified = true;
  status = accepted;
  responded_at = some now;
}

pub accept_invite : ℕ → String → AcceptInviteDto → Exec Invites ShareInvite
unfolding get_invite_for_recipient
accept_invite now caller dto = do
  invite ← get_invite_for_recipient dto.invite_id caller
  raise_if (not (is_pending invite.status)) bad_request
  raise_if (not (dto.fingerprint_confirmed == "true")) bad_request
  modify (λ invites. Dict.set invites dto.invite_id (accept now invite))
  pure (accept now invite)

pub decline_invite : ℕ → String → String → Exec Invites (Unit {0})
unfolding get_invite_for_recipient
decline_invite now caller invite_id = do
  invite ← get_invite_for_recipient invite_id caller
  raise_if (not (is_pending invite.status)) bad_request
  modify (λ invites.
      Dict.set invites invite_id (record invite { status = declined; responded_at = some now }))

pub list_pending_for_recipient : String → Exec Invites (List ShareInvite)
list_pending_for_recipient recipient = gets (λ invites.
    filter (λ (inv : ShareInvite). inv.recipient_user_id == recipient && is_pending inv.status)
      (Dict.values invites))

-- Returns the wrapped Folder Key payload.
pub get_accepted_invite_payload : String → String → Exec Invites String
unfolding get_invite_for_recipient
get_accepted_invite_payload caller invite_id = do
  invite ← get_invite_for_recipient invite_id caller
  raise_if (not (is_accepted invite.status) || not invite.fingerprint_verified) bad_request
  pure invite.wrapped_folder_key_payload

-- The requests that change the invitations, and a history of them.
pub data Op : Type 0 where
  creates : String → ℕ → String → CreateInviteDto → Op
  accepts : ℕ → String → AcceptInviteDto → Op
  declines : ℕ → String → String → Op

pub step : Op → Invites → Invites
unfolding create_invite accept_invite decline_invite
step (creates invite_id now sender dto) invites = (create_invite invite_id now sender dto invites).1
step (accepts now caller dto) invites = (accept_invite now caller dto invites).1
step (declines now caller invite_id) invites = (decline_invite now caller invite_id invites).1

pub run : List Op → Invites → Invites
run [] invites = invites
run (op ∷ ops) invites = run ops (step op invites)
