-- ===== src/Sharing/ShareInvite/Gate.antt =====
-- The gate of `getAcceptedInvitePayload` before the wrapped Folder Key: over every history of requests to the service.
use sentinel_vault.Common.{
  ℕ, String, Bool, true, false, not, ◌&&◌, ◌||◌, ◌≡◌, ◌≢◌, ◌⊎◌, inl, inr, refl, Option, none, some,
  List, [], ◌∷◌, eq_iff, eq_refl, arith, All, ◌==◌, Option-cases,
}
use sentinel_vault.Common.Exec.{ok, succeeds}
use sentinel_vault.Common.Dict
use sentinel_vault.Common.Dict.{get-set}
use sentinel_vault.Sharing.ShareInvite.{
  ShareInvite, CreateInviteDto, AcceptInviteDto, Invites, is_pending, is_accepted, new_invite,
  create_invite, accept_invite, get_accepted_invite_payload, Op, creates, accepts, declines, step,
  run, accept,
}

-- No accepted and verified invitation for `recipient`.
abbrev is_shut : String → Option ShareInvite → Bool
is_shut recipient none = true
is_shut recipient (some inv) =
    not (is_accepted inv.status && inv.fingerprint_verified)
    || not (inv.recipient_user_id == recipient)

-- The request is no acceptance of the invitation by its recipient with a confirmed fingerprint,
-- and creates no invitation under its identifier.
abbrev Unconfirmed : String → String → Op → Type 0
Unconfirmed k recipient (creates id now sender dto) = id ≢ k
Unconfirmed k recipient (accepts now caller dto) =
    (dto.invite_id ≢ k) ⊎ (caller ≢ recipient) ⊎ (dto.fingerprint_confirmed ≢ "true")
Unconfirmed k recipient (declines now caller id) = Unit

module _ (k recipient : String) where
  step-is_shut :
      (op : Op) (invites : Invites)
      → Unconfirmed k recipient op
      → is_shut recipient (Dict.get invites k) ≡ true
      → is_shut recipient (Dict.get (step op invites) k) ≡ true
  unfolding step
  step-is_shut (creates id now sender dto) invites h s = grind (arith, get-set, eq_iff id k)
  step-is_shut (accepts now caller dto) invites h s =
      elim (Option-cases (Dict.get invites dto.invite_id)) [
        | inl missing ↦ grind arith
        | inr (inv, found) ↦ grind (
          arith,
          get-set,
          eq_iff dto.invite_id k,
          eq_iff inv.recipient_user_id caller,
          eq_iff inv.recipient_user_id recipient,
          eq_iff dto.fingerprint_confirmed "true",
        )
      ]
  step-is_shut (declines now caller id) invites h s = grind (arith, get-set, eq_iff id k)

  run-is_shut :
      (ops : List Op) (invites : Invites)
      → All (Unconfirmed k recipient) ops
      → is_shut recipient (Dict.get invites k) ≡ true
      → is_shut recipient (Dict.get (run ops invites) k) ≡ true
  unfolding run
  run-is_shut [] invites h s = s
  run-is_shut (op ∷ ops) invites h s =
      run-is_shut ops (step op invites) h.1 (step-is_shut op invites h.0 s)

  no_payload_when_shut :
      (invites : Invites)
      → is_shut recipient (Dict.get invites k) ≡ true
      → succeeds (get_accepted_invite_payload recipient k invites).0 ≡ false
  unfolding get_accepted_invite_payload
  no_payload_when_shut invites s = ground arith

  create_shuts :
      (now : ℕ) (sender : String) (dto : CreateInviteDto) (invites : Invites) (inv : ShareInvite)
      → (create_invite k now sender dto invites).0 ≡ ok inv
      → is_shut recipient (Dict.get (create_invite k now sender dto invites).1 k) ≡ true
  unfolding create_invite
  create_shuts now sender dto invites inv made = grind (arith, get-set, eq_refl)

  -- After an invitation is created, `getAcceptedInvitePayload` throws for every user, whatever
  -- requests follow, unless one of these is an acceptance of it by that user with the fingerprint
  -- confirmed as "true" (or creates another invitation under the same identifier). This is about
  -- that request only: the list of pending invitations holds the payload (ShareInvite/Tests).
  pub payload_needs_confirmation :
      (now : ℕ) (sender : String) (dto : CreateInviteDto) (invites : Invites) (inv : ShareInvite)
      (ops : List Op)
      → (create_invite k now sender dto invites).0 ≡ ok inv
      → All (Unconfirmed k recipient) ops
      → succeeds
          (get_accepted_invite_payload recipient k
            (run ops (create_invite k now sender dto invites).1)).0
        ≡ false
  payload_needs_confirmation now sender dto invites inv ops made h =
      no_payload_when_shut _ (run-is_shut ops _ h (create_shuts now sender dto invites inv made))

-- The request creates no invitation under the identifier.
abbrev pub Spares : String → Op → Type 0
Spares k (creates id now sender dto) = id ≢ k
Spares k op = Unit

module _ (k : String) (inv : ShareInvite) (closed : is_pending inv.status ≡ false) where
  step-settled :
      (op : Op) (invites : Invites)
      → Spares k op
      → Dict.get invites k ≡ some inv
      → Dict.get (step op invites) k ≡ some inv
  unfolding step
  step-settled (creates id now sender dto) invites h e = grind (arith, get-set, eq_iff id k)
  step-settled (accepts now caller dto) invites h e = grind (arith, get-set, eq_iff dto.invite_id k)
  step-settled (declines now caller id) invites h e = grind (arith, get-set, eq_iff id k)

  -- An invitation that has been accepted or declined never changes again, whatever requests
  -- follow, if none of these creates an invitation under the same identifier.
  pub run-settled :
      (ops : List Op) (invites : Invites)
      → All (Spares k) ops
      → Dict.get invites k ≡ some inv
      → Dict.get (run ops invites) k ≡ some inv
  unfolding run
  run-settled [] invites h e = e
  run-settled (op ∷ ops) invites h e =
      run-settled ops (step op invites) h.1 (step-settled op invites h.0 e)

accept_stores :
    (k sender : String) (now now' : ℕ) (dto : CreateInviteDto) (invites : Invites)
    (inv : ShareInvite)
    → (create_invite k now sender dto invites).0 ≡ ok inv
    → let confirmation : AcceptInviteDto = record {
      invite_id = k;
      fingerprint_confirmed = "true";
    } in
      let (r, invites') =
        accept_invite now' dto.recipient_user_id confirmation
          (create_invite k now sender dto invites).1 in
      (r ≡ ok (accept now' (new_invite k now sender dto)))
      × (Dict.get invites' k ≡ some (accept now' (new_invite k now sender dto)))
unfolding create_invite accept_invite
accept_stores k sender now now' dto invites inv made = grind (arith, get-set, eq_refl)

payload_of_accepted :
    (k : String) (invites : Invites) (inv : ShareInvite)
    → Dict.get invites k ≡ some inv
    → is_accepted inv.status ≡ true
    → inv.fingerprint_verified ≡ true
    → (get_accepted_invite_payload inv.recipient_user_id k invites).0
      ≡ ok inv.wrapped_folder_key_payload
unfolding get_accepted_invite_payload
payload_of_accepted k invites inv e a v = grind (arith, eq_refl)

-- Once the recipient has accepted a new invitation with a confirmed fingerprint, it gets exactly
-- the payload that the sender deposited, whatever requests follow, if none of these creates an
-- invitation under the same identifier.
pub accepted_payload :
    (k sender : String) (now now' : ℕ) (dto : CreateInviteDto) (invites : Invites)
    (inv : ShareInvite) (ops : List Op)
    → (create_invite k now sender dto invites).0 ≡ ok inv
    → All (Spares k) ops
    → let confirmation : AcceptInviteDto = record {
      invite_id = k;
      fingerprint_confirmed = "true";
    } in
      let (r, invites') =
        accept_invite now' dto.recipient_user_id confirmation
          (create_invite k now sender dto invites).1 in
      (succeeds r ≡ true)
      × ((get_accepted_invite_payload dto.recipient_user_id k (run ops invites')).0
          ≡ ok dto.wrapped_folder_key_payload)
accepted_payload k sender now now' dto invites inv ops made h =
    let (done, stored) = accept_stores k sender now now' dto invites inv made in
    let taken = accept now' (new_invite k now sender dto) in
    (
      rw done refl,
      payload_of_accepted k _ taken (run-settled k taken refl ops _ h stored) refl refl,
    )
