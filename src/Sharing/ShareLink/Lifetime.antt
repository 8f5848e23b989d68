-- ===== src/Sharing/ShareLink/Lifetime.antt =====
-- How long a share link can be read: over every history of requests to the service.
use sentinel_vault.Common.{
  ℕ, ◌+◌, ◌*◌, ◌≤◌, String, Bool, true, false, ◌≡◌, refl, ◌≢◌, ◌⊎◌, Option, none, some, List, [],
  ◌∷◌, ◌&&◌, ◌||◌, eq_iff, eq_refl, arith, All, leb, if◌then◌else◌,
}
use sentinel_vault.Common.Exec.{ok, err, gone, succeeds}
use sentinel_vault.Common.Dict
use sentinel_vault.Common.Dict.{get-set}
use sentinel_vault.Sharing.ShareLink.{
  ShareLinkRecord, CreateShareLinkDto, ShareLinkPublicDto, Links, Hours, clamp_hours, hour_ms,
  create_share_link, get_and_consume_share_link, revoke_share_link, Op, create, consume, revoke,
  reset, step, run, new_link, public_view,
}

pub clamp_hours_bounds : (h : Option Hours) → (1 ≤ clamp_hours h) × (clamp_hours h ≤ 168)
unfolding clamp_hours
clamp_hours_bounds h = ground arith

-- No link to read: revoked, or a one-time link that has been read, or no link at all.
abbrev is_dead : Option ShareLinkRecord → Bool
is_dead none = true
is_dead (some r) = r.is_revoked || (r.one_time_view && r.is_consumed)

-- The request does not reuse the identifier for a new link.
abbrev pub Spares : String → Op → Type 0
Spares k (create share_id now owner dto) = share_id ≢ k
Spares k op = Unit

module _ (k : String) where
  step-is_dead :
      (op : Op) (links : Links)
      → Spares k op
      → is_dead (Dict.get links k) ≡ true
      → is_dead (Dict.get (step op links) k) ≡ true
  unfolding step
  step-is_dead (create share_id now owner dto) links h d = grind (arith, get-set, eq_iff share_id k)
  step-is_dead (consume now share_id) links h d = grind (arith, get-set, eq_iff share_id k)
  step-is_dead (revoke owner share_id) links h d = grind (arith, get-set, eq_iff share_id k)
  step-is_dead reset links h d = unfold Dict.get in refl

  run-is_dead :
      (ops : List Op) (links : Links)
      → All (Spares k) ops
      → is_dead (Dict.get links k) ≡ true
      → is_dead (Dict.get (run ops links) k) ≡ true
  unfolding run
  run-is_dead [] links h d = d
  run-is_dead (op ∷ ops) links h d =
      run-is_dead ops (step op links) h.1 (step-is_dead op links h.0 d)

  read_dead :
      (now : ℕ) (links : Links)
      → is_dead (Dict.get links k) ≡ true
      → succeeds (get_and_consume_share_link now k links).0 ≡ false
  unfolding get_and_consume_share_link
  read_dead now links d = ground arith

  read_kills :
      (links : Links) (now : ℕ) (dto : ShareLinkPublicDto)
      → (get_and_consume_share_link now k links).0 ≡ ok dto
      → dto.one_time_view ≡ true
      → is_dead (Dict.get (get_and_consume_share_link now k links).1 k) ≡ true
  unfolding get_and_consume_share_link
  read_kills links now dto read once = grind (arith, get-set, eq_refl)

  revoke_kills :
      (links : Links) (owner : String)
      → (revoke_share_link owner k links).0 ≡ ok tt
      → is_dead (Dict.get (revoke_share_link owner k links).1 k) ≡ true
  unfolding revoke_share_link
  revoke_kills links owner done = grind (arith, get-set, eq_refl)

  -- A one-time link is read at most once: after a read of it that succeeded, every later read
  -- fails, at any time and after any requests, if none of these creates a link under the same
  -- identifier.
  pub one_time_read_once :
      (links : Links) (now now' : ℕ) (dto : ShareLinkPublicDto) (ops : List Op)
      → (get_and_consume_share_link now k links).0 ≡ ok dto
      → dto.one_time_view ≡ true
      → All (Spares k) ops
      → succeeds
          (get_and_consume_share_link now' k (run ops (get_and_consume_share_link now k links).1)).0
        ≡ false
  one_time_read_once links now now' dto ops read once h =
      read_dead now' _ (run-is_dead ops _ h (read_kills links now dto read once))

  -- Once its owner has revoked it, a link cannot be read, at any time and after any requests, if
  -- none of these creates a link under the same identifier.
  pub revoked_unreadable :
      (links : Links) (owner : String) (now : ℕ) (ops : List Op)
      → (revoke_share_link owner k links).0 ≡ ok tt
      → All (Spares k) ops
      → succeeds (get_and_consume_share_link now k (run ops (revoke_share_link owner k links).1)).0
        ≡ false
  revoked_unreadable links owner now ops done h =
      read_dead now _ (run-is_dead ops _ h (revoke_kills links owner done))

-- The request does not touch the link `k` of `owner`: it is no read of it, no revocation by its
-- owner, no new link under its identifier, and no `clear`. (A revocation by somebody else is not
-- excluded.)
abbrev Leaves : String → String → Op → Type 0
Leaves k owner (create share_id now user dto) = share_id ≢ k
Leaves k owner (consume now share_id) = share_id ≢ k
Leaves k owner (revoke user share_id) = (share_id ≢ k) ⊎ (user ≢ owner)
Leaves k owner reset = ⊥

module _ (k : String) (r : ShareLinkRecord) where
  step-Leaves :
      (op : Op) (links : Links)
      → Leaves k r.owner_user_id op
      → Dict.get links k ≡ some r
      → Dict.get (step op links) k ≡ some r
  unfolding step
  step-Leaves (create share_id now owner dto) links h e = grind (arith, get-set, eq_iff share_id k)
  step-Leaves (consume now share_id) links h e = grind (arith, get-set, eq_iff share_id k)
  step-Leaves (revoke owner share_id) links h e =
      grind (arith, get-set, eq_iff share_id k, eq_iff r.owner_user_id owner)
  step-Leaves reset links h e = elim h [ ]

  run-Leaves :
      (ops : List Op) (links : Links)
      → All (Leaves k r.owner_user_id) ops
      → Dict.get links k ≡ some r
      → Dict.get (run ops links) k ≡ some r
  unfolding run
  run-Leaves [] links h e = e
  run-Leaves (op ∷ ops) links h e = run-Leaves ops (step op links) h.1 (step-Leaves op links h.0 e)

create_stores :
    (k owner : String) (now : ℕ) (dto : CreateShareLinkDto) (links : Links)
    → dto.encrypted_blob ≢ ""
    → dto.nonce ≢ ""
    → let (created, links') = create_share_link k now owner dto links in
      let link = new_link k now owner dto in
      (created ≡ ok (k, link.expires_at)) × (Dict.get links' k ≡ some link)
unfolding create_share_link
create_stores k owner now dto links blob nonce =
    grind (arith, get-set, eq_refl, eq_iff dto.encrypted_blob "", eq_iff dto.nonce "")

read_live :
    (k : String) (t : ℕ) (links : Links) (r : ShareLinkRecord)
    → Dict.get links k ≡ some r
    → r.is_revoked ≡ false
    → r.is_consumed ≡ false
    → (get_and_consume_share_link t k links).0
      ≡ (if leb t r.expires_at then ok (public_view r) else err gone)
unfolding get_and_consume_share_link
read_live k t links r e revoked consumed = ground arith

-- A link that `owner` creates at `now` with a ciphertext and a nonce is read at a time `t` with
-- that ciphertext and nonce, after any requests that leave it alone, exactly until its expiry;
-- the expiry lies between one hour and seven days after the creation.
pub link_lifetime :
    (k owner : String) (now t : ℕ) (dto : CreateShareLinkDto) (links : Links) (ops : List Op)
    → dto.encrypted_blob ≢ ""
    → dto.nonce ≢ ""
    → All (Leaves k owner) ops
    → let (created, links') = create_share_link k now owner dto links in
      let link = new_link k now owner dto in
      (created ≡ ok (k, link.expires_at))
      × (now + hour_ms ≤ link.expires_at)
      × (link.expires_at ≤ now + 168 * hour_ms)
      × (link.encrypted_blob ≡ dto.encrypted_blob)
      × (link.nonce ≡ dto.nonce)
      × ((get_and_consume_share_link t k (run ops links')).0
          ≡ (if leb t link.expires_at then ok (public_view link) else err gone))
link_lifetime k owner now t dto links ops blob nonce h =
    let (created, stored) = create_stores k owner now dto links blob nonce in
    let link = new_link k now owner dto in
    (
      created,
      omega (arith, clamp_hours_bounds dto.expiry_hours),
      omega (arith, clamp_hours_bounds dto.expiry_hours),
      refl,
      refl,
      read_live k t _ link (run-Leaves k link ops _ h stored) refl refl,
    )
