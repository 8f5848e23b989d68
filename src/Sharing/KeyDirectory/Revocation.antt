-- ===== src/Sharing/KeyDirectory/Revocation.antt =====
-- A revoked recipient gets no key.
use sentinel_vault.Common.{
  ℕ, String, false, ◌&&◌, false≢true, ◌≡◌, inl, inr, refl, sym, ◌∙◌, subst, Option, none, some,
  List, [], ◌∷◌, All, ◌==◌, arith, Option-cases, Bool-cases,
}
use sentinel_vault.Common.Exec.{ok, err, not_found}
use sentinel_vault.Common.Equality.{string_eq, pair_eq}
use sentinel_vault.Sharing.KeyDirectory.{KeyDirectoryService, KeyBundle, RevokeRecipientDto}
use sentinel_vault.Auth.Srp.{Buffer}
use sentinel_vault.Sharing.KeyDirectory.Fetch.{row-IsOwn}
use sentinel_vault.Sharing.KeyDirectory.Handlers.{
  Tables, wanted_row, fetch_wrapped_key, names, revoke_recipient, publish_key_bundle,
  get_key_bundle, bundle_or_new, Op, publishes_bundle, gets_bundle, publishes_keys, revokes, step,
  run,
}
use sentinel_vault.Sharing.KeyDirectory.Revoked.{
  publish-AllRevoked, remaining-AllRevoked, mark-AllRevoked, mark_self-AllRevoked, includes,
  AllRevoked,
}

module _ (service : KeyDirectoryService) where
  open service use {bundles, recipients, is_before}

  revoke-AllRevoked :
      (user folder : String) (now : ℕ) (dto : RevokeRecipientDto) (s : Tables service)
      → (dto.folder_id == folder && names user dto.remaining_recipients) ≡ false
      → AllRevoked service user folder s.recipient_table
      → AllRevoked service user folder (revoke_recipient service now dto s).1.recipient_table
  unfolding revoke_recipient
  revoke-AllRevoked user folder now dto s other all =
      elim (Bool-cases (names dto.recipient_user_id dto.remaining_recipients)) [
        | inl bad ↦ rw bad all
        | inr fine ↦ rw fine (
            remaining-AllRevoked service user folder now dto dto.remaining_recipients _ other
              (mark-AllRevoked service user folder now dto.folder_id dto.recipient_user_id s all))
      ]

  revoke_self-AllRevoked :
      (now : ℕ) (dto : RevokeRecipientDto) (s : Tables service)
      → (revoke_recipient service now dto s).0 ≡ ok tt
      → AllRevoked service dto.recipient_user_id dto.folder_id
          (revoke_recipient service now dto s).1.recipient_table
  unfolding revoke_recipient
  revoke_self-AllRevoked now dto s =
      elim (Bool-cases (names dto.recipient_user_id dto.remaining_recipients)) [
        | inl bad ↦ rw bad (λ h. cc)
        | inr fine ↦ rw fine (λ h.
            remaining-AllRevoked service dto.recipient_user_id dto.folder_id now dto
              dto.remaining_recipients _ (ground arith)
              (mark_self-AllRevoked service now dto.recipient_user_id dto.folder_id s))
      ]

  bundle-rest :
      (now : ℕ) (user : String) (x25519 ed25519 mlkem mldsa : Buffer) (o : Option KeyBundle)
      (s : Tables service)
      → (bundle_or_new service now user x25519 ed25519 mlkem mldsa o s).1.recipient_table
        ≡ s.recipient_table
  unfolding publish_key_bundle
  bundle-rest now user x25519 ed25519 mlkem mldsa none s = refl
  bundle-rest now user x25519 ed25519 mlkem mldsa (some bundle) s = refl

  step-AllRevoked :
      (user folder : String) (op : Op service) (s : Tables service)
      → includes user folder op ≡ false
      → AllRevoked service user folder s.recipient_table
      → AllRevoked service user folder (step service op s).recipient_table
  unfolding step publish_key_bundle get_key_bundle
  step-AllRevoked user folder (publishes_bundle now dto) s other all = all
  step-AllRevoked user folder (gets_bundle now u x25519 ed25519 mlkem mldsa) s other all =
      subst (AllRevoked service user folder)
        (sym (bundle-rest now u x25519 ed25519 mlkem mldsa (bundles.at s.bundle_table u) s)) all
  step-AllRevoked user folder (publishes_keys now dto) s other all =
      publish-AllRevoked service user folder now dto s other all
  step-AllRevoked user folder (revokes now dto) s other all =
      revoke-AllRevoked user folder now dto s other all

  run-AllRevoked :
      (user folder : String) (ops : List (Op service)) (s : Tables service)
      → All (λ op. includes user folder op ≡ false) ops
      → AllRevoked service user folder s.recipient_table
      → AllRevoked service user folder (run service ops s).recipient_table
  unfolding run
  run-AllRevoked user folder [] s quiet all = all
  run-AllRevoked user folder (op ∷ ops) s quiet all =
      run-AllRevoked user folder ops (step service op s) quiet.1
        (step-AllRevoked user folder op s quiet.0 all)

  wanted-nothing :
      (user folder : String) (version : Option String) (s : Tables service)
      → AllRevoked service user folder s.recipient_table
      → wanted_row service user folder version s ≡ none
  wanted-nothing user folder version s all =
      elim (Option-cases (wanted_row service user folder version s)) [
        | inl nothing ↦ nothing
        | inr (r, found) ↦
            let (stored, (mine, here, active)) = row-IsOwn service user folder version s r found in
            absurd (false≢true (sym (all _ r stored mine here) ∙ rw active refl))
      ]

  -- After `revokeRecipient` has returned for a user and a folder, `fetchWrappedKey` finds no key of
  -- the folder for the user, whatever version is asked for, after whatever further requests, if none
  -- of them names the user among the recipients of a key of the folder.
  pub revoked_locked_out :
      (now : ℕ) (dto : RevokeRecipientDto) (version : Option String) (ops : List (Op service))
      (s : Tables service)
      → (revoke_recipient service now dto s).0 ≡ ok tt
      → All (λ op. includes dto.recipient_user_id dto.folder_id op ≡ false) ops
      → (fetch_wrapped_key service dto.recipient_user_id
          (record { folder_id = dto.folder_id; key_version = version })
          (run service ops (revoke_recipient service now dto s).1)).0
        ≡ err not_found
  unfolding fetch_wrapped_key
  revoked_locked_out now dto version ops s done quiet =
      let nothing =
        wanted-nothing dto.recipient_user_id dto.folder_id version
          (run service ops (revoke_recipient service now dto s).1)
          (run-AllRevoked dto.recipient_user_id dto.folder_id ops
            (revoke_recipient service now dto s).1 quiet (revoke_self-AllRevoked now dto s done)) in
      ground (arith, nothing)
