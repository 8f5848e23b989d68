-- ===== src/Sharing/ShareInvite/Tests.antt =====
-- Share invitations on concrete requests.
use sentinel_vault.Common.{String, false, ◌≡◌, refl, some, [], ◌∷◌, eq_iff, arith}
use sentinel_vault.Common.Dict
use sentinel_vault.Common.Exec.{ok, err, bad_request, conflict, succeeds}
use sentinel_vault.Sharing.ShareInvite.{
  ShareInvite, CreateInviteDto, AcceptInviteDto, Invites, declined, new_invite, create_invite,
  accept_invite, decline_invite, get_accepted_invite_payload, list_pending_for_recipient, accepts,
  run,
}
use sentinel_vault.Sharing.ShareInvite.Gate.{payload_needs_confirmation}

-- Opens what the tests compute with.
invites_open : Unit {0}
unfolding create_invite accept_invite decline_invite get_accepted_invite_payload
    list_pending_for_recipient run Dict.get Dict.set Dict.values
invites_open = tt

abbrev offer : CreateInviteDto
offer = record {
  folder_id = "f";
  recipient_user_id = "bob";
  signed_payload = "p";
  ed25519_signature = "e";
  mldsa_signature = "m";
  wrapped_folder_key_payload = "wk";
}

abbrev invite : ShareInvite
invite = new_invite "i" 5 "ann" offer

abbrev invites : Invites
invites = ("i", invite) ∷ []

abbrev answer : String → AcceptInviteDto
answer text = record { invite_id = "i"; fingerprint_confirmed = text }

made : create_invite "i" 5 "ann" offer [] ≡ (ok invite, invites)
unfolding invites_open
made = refl

made_reply : (create_invite "i" 5 "ann" offer []).0 ≡ ok invite
unfolding invites_open
made_reply = refl

made_again : create_invite "i2" 6 "cat" offer invites ≡ (err conflict, invites)
unfolding invites_open
made_again = refl

not_confirmed : accept_invite 6 "bob" (answer "false") invites ≡ (err bad_request, invites)
unfolding invites_open
not_confirmed = refl

not_the_recipient : accept_invite 6 "eve" (answer "true") invites ≡ (err bad_request, invites)
unfolding invites_open
not_the_recipient = refl

still_locked : (get_accepted_invite_payload "bob" "i" invites).0 ≡ err bad_request
unfolding invites_open
still_locked = refl

listed : (list_pending_for_recipient "bob" invites).0 ≡ ok (invite ∷ [])
unfolding invites_open
listed = refl

payload_needs_confirmation_example :
    succeeds
      (get_accepted_invite_payload "bob" "i" (
        run
          (accepts 6 "bob" (answer "yes") ∷ accepts 7 "eve" (answer "true") ∷ [])
          (create_invite "i" 5 "ann" offer []).1)).0
    ≡ false
payload_needs_confirmation_example =
    payload_needs_confirmation "i" "bob" 5 "ann" offer [] invite
      (accepts 6 "bob" (answer "yes") ∷ accepts 7 "eve" (answer "true") ∷ []) made_reply
      (ground (arith, eq_iff "yes" "true", eq_iff "eve" "bob"))

abbrev refused : ShareInvite
refused = record invite { status = declined; responded_at = some 6 }
