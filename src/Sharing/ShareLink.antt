-- ===== src/Sharing/ShareLink.antt =====
-- `ShareLinkService` (backend/sharing-service/src/share-link/share-link.service.ts): share links
-- in an in-memory `Map`. Times are milliseconds; `randomUUID()` and the clock are arguments. A
-- handler reads the clock once. `expiryHours` is a whole number here.
pub mod Lifetime
pub mod Access
mod Tests
use sentinel_vault.Common.{
  ℕ, zero, suc, ◌+◌, ◌*◌, min, max, String, Bool, true, false, ◌&&◌, ◌||◌, not, Option, none, some,
  List, [], ◌∷◌, map, filter, ltb, or_default, ◌==◌, if◌then◌else◌,
}
use sentinel_vault.Common.Text.{is_empty}
use sentinel_vault.Common.Exec.{
  Exec, pure, raise_if, gets, or_raise, modify, ◌>>=◌, ◌>>◌, bad_request, not_found, gone,
}
use sentinel_vault.Common.Dict
use sentinel_vault.Common.Dict.{Dict}

pub record ShareLinkRecord : Type 0 where
  pub share_id : String
  pub owner_user_id : String
  pub item_title : Option String
  pub encrypted_blob : String
  pub nonce : String
  pub one_time_view : Bool
  pub view_count : ℕ
  pub is_consumed : Bool
  pub is_revoked : Bool
  pub expires_at : ℕ
  pub created_at : ℕ

-- A JavaScript number that is whole: `minus n` is -(n + 1).
pub data Hours : Type 0 where
  plus : ℕ → Hours
  minus : ℕ → Hours

pub record CreateShareLinkDto : Type 0 where
  pub encrypted_blob : String
  pub nonce : String
  pub item_title : Option String
  pub expiry_hours : Option Hours
  pub one_time_view : Option Bool

pub record ShareLinkPublicDto : Type 0 where
  pub share_id : String
  pub encrypted_blob : String
  pub nonce : String
  pub expires_at : ℕ
  pub one_time_view : Bool

pub record ShareLinkOwnerDto : Type 0 where
  pub share_id : String
  pub item_title : Option String
  pub expires_at : ℕ
  pub one_time_view : Bool
  pub view_count : ℕ
  pub is_consumed : Bool
  pub is_revoked : Bool
  pub created_at : ℕ

abbrev pub Links : Type 0
Links = Dict ShareLinkRecord

-- `Math.max(1, Math.min(dto.expiryHours || 24, 168))`
pub clamp_hours : Option Hours → ℕ
clamp_hours none = max 1 (min 24 168)
clamp_hours (some (plus zero)) = max 1 (min 24 168)
clamp_hours (some (plus (suc n))) = max 1 (min (suc n) 168)
clamp_hours (some (minus n)) = 1

abbrev pub hour_ms : ℕ
hour_ms = 60 * 60 * 1000

-- The record that `createShareLink` builds.
abbrev pub new_link : String → ℕ → String → CreateShareLinkDto → ShareLinkRecord
new_link share_id now owner dto = record {
  share_id = share_id;
  owner_user_id = owner;
  item_title = dto.item_title;
  encrypted_blob = dto.encrypted_blob;
  nonce = dto.nonce;
  one_time_view = or_default dto.one_time_view true;
  view_count = 0;
  is_consumed = false;
  is_revoked = false;
  expires_at = now + clamp_hours dto.expiry_hours * hour_ms;
  created_at = now;
}

pub create_share_link : String → ℕ → String → CreateShareLinkDto → Exec Links (String × ℕ)
create_share_link share_id now owner dto = do
  raise_if (is_empty dto.encrypted_blob || is_empty dto.nonce) bad_request
  let link = new_link share_id now owner dto
  modify (λ links. Dict.set links share_id link)
  pure (share_id, link.expires_at)

-- The writes to the record that the `Map` holds.
abbrev consumed : ShareLinkRecord → ShareLinkRecord
consumed r = record r {
  view_count = r.view_count + 1;
  is_consumed = if r.one_time_view then true else r.is_consumed;
}

abbrev pub public_view : ShareLinkRecord → ShareLinkPublicDto
public_view r = record {
  share_id = r.share_id;
  encrypted_blob = r.encrypted_blob;
  nonce = r.nonce;
  expires_at = r.expires_at;
  one_time_view = r.one_time_view;
}

pub get_and_consume_share_link : ℕ → String → Exec Links ShareLinkPublicDto
get_and_consume_share_link now share_id = do
  r ← or_raise (← gets (λ links. Dict.get links share_id)) not_found
  raise_if r.is_revoked gone
  raise_if (ltb r.expires_at now) gone
  raise_if (r.one_time_view && r.is_consumed) gone
  modify (λ links. Dict.set links share_id (consumed r))
  pure (public_view r)

abbrev owner_view : ShareLinkRecord → ShareLinkOwnerDto
owner_view r = record {
  share_id = r.share_id;
  item_title = r.item_title;
  expires_at = r.expires_at;
  one_time_view = r.one_time_view;
  view_count = r.view_count;
  is_consumed = r.is_consumed;
  is_revoked = r.is_revoked;
  created_at = r.created_at;
}

-- The loop of `getOwnerShareLinks`.
owner_links : String → List ShareLinkRecord → List ShareLinkOwnerDto
owner_links owner [] = []
owner_links owner (r ∷ rs) =
    let rest = owner_links owner rs in
    if r.owner_user_id == owner then owner_view r ∷ rest else rest

get_owner_share_links : String → Exec Links (List ShareLinkOwnerDto)
unfolding owner_links
get_owner_share_links owner = gets (λ links. owner_links owner (Dict.values links))

pub revoke_share_link : String → String → Exec Links (Unit {0})
revoke_share_link owner share_id = do
  r ← or_raise (← gets (λ links. Dict.get links share_id)) not_found
  raise_if (not (r.owner_user_id == owner)) not_found
  modify (λ links. Dict.set links share_id (record r { is_revoked = true }))

pub clear : Links → Links
clear links = []

-- The requests that the service serves, and a history of them.
pub data Op : Type 0 where
  create : String → ℕ → String → CreateShareLinkDto → Op
  consume : ℕ → String → Op
  revoke : String → String → Op
  reset : Op

pub step : Op → Links → Links
unfolding create_share_link get_and_consume_share_link revoke_share_link clear
step (create share_id now owner dto) links = (create_share_link share_id now owner dto links).1
step (consume now share_id) links = (get_and_consume_share_link now share_id links).1
step (revoke owner share_id) links = (revoke_share_link owner share_id links).1
step reset links = clear links

pub run : List Op → Links → Links
run [] links = links
run (op ∷ ops) links = run ops (step op links)
