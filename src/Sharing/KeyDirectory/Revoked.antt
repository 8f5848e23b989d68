-- ===== src/Sharing/KeyDirectory/Revoked.antt =====
-- What publishing and marking do to the rows of a user that are all revoked.
use sentinel_vault.Common.{
  ℕ, String, Bool, true, false, ◌&&◌, ◌≡◌, ◌⊎◌, inl, inr, refl, sym, ap, ◌∙◌, none, some, List, [],
  ◌∷◌, ◌==◌, eq_iff, arith, Option-cases, Bool-cases,
}
use sentinel_vault.Common.Equality.{string_eq, pair_eq}
use sentinel_vault.Sharing.KeyDirectory.{
  KeyDirectoryService, WrappedKeyRecipient, WrappedKeyRecordDto, RevokeRecipientDto,
  PublishWrappedKeysDto, recipient_key, is_active, active_in_folder, revoke_row,
}
use sentinel_vault.Sharing.KeyDirectory.Handlers.{
  Tables, names, save_recipients, publish_wrapped_keys, publish_remaining, mark_revoked, Op,
  publishes_keys, revokes,
}

-- The request names the user among those who get a key of the folder.
abbrev pub includes : String → String → {service : KeyDirectoryService} → Op service → Bool
includes user folder (publishes_keys now dto) = dto.folder_id == folder && names user dto.recipients
includes user folder (revokes now dto) =
    dto.folder_id == folder && names user dto.remaining_recipients
includes user folder op = false

module _ (service : KeyDirectoryService) where
  open service use {bundles, recipients, is_before}

  -- Every row of the user in the folder is revoked.
  abbrev pub AllRevoked : String → String → recipients.Table → Type 0
  AllRevoked user folder t =
      (k : String × (String × String)) (r : WrappedKeyRecipient)
      → recipients.at t k ≡ some r
      → r.recipient_user_id ≡ user
      → r.folder_id ≡ folder
      → is_active r ≡ false

  save-AllRevoked :
      (user folder : String) (row : WrappedKeyRecipient) (t : recipients.Table)
      → (row.folder_id == folder && row.recipient_user_id == user) ≡ false
      → AllRevoked user folder t
      → AllRevoked user folder (recipients.save row t)
  save-AllRevoked user folder row t other all k r there mine here =
      elim (Bool-cases (pair_eq.same_key (recipient_key row) k)) [
        | inl same ↦
            let e : (row ≡ r) = ground (arith, recipients.at-save row t k, same, there) in
            ground (
              arith,
              ap (λ (x : WrappedKeyRecipient). x.folder_id) e,
              ap (λ (x : WrappedKeyRecipient). x.recipient_user_id) e,
              eq_iff row.folder_id folder,
              eq_iff row.recipient_user_id user,
            )
        | inr differ ↦ all k r (sym (recipients.at-save row t k ∙ rw differ refl) ∙ there) mine here
      ]

  save_all-AllRevoked :
      (user folder : String) (now : ℕ) (f version : String) (recs : List WrappedKeyRecordDto)
      (t : recipients.Table)
      → (f == folder && names user recs) ≡ false
      → AllRevoked user folder t
      → AllRevoked user folder (save_recipients service now f version recs t)
  save_all-AllRevoked user folder now f version [] t other all = all
  save_all-AllRevoked user folder now f version (rec ∷ recs) t other all =
      save_all-AllRevoked user folder now f version recs _ (ground arith)
        (save-AllRevoked user folder _ t (ground arith) all)

  pub publish-AllRevoked :
      (user folder : String) (now : ℕ) (dto : PublishWrappedKeysDto) (s : Tables service)
      → (dto.folder_id == folder && names user dto.recipients) ≡ false
      → AllRevoked user folder s.recipient_table
      → AllRevoked user folder (publish_wrapped_keys service now dto s).1.recipient_table
  unfolding publish_wrapped_keys
  publish-AllRevoked user folder now dto s other all =
      save_all-AllRevoked user folder now dto.folder_id _ dto.recipients _ other all

  pub remaining-AllRevoked :
      (user folder : String) (now : ℕ) (dto : RevokeRecipientDto) (recs : List WrappedKeyRecordDto)
      (s : Tables service)
      → (dto.folder_id == folder && names user recs) ≡ false
      → AllRevoked user folder s.recipient_table
      → AllRevoked user folder (publish_remaining service now dto recs s).1.recipient_table
  remaining-AllRevoked user folder now dto [] s other all = all
  remaining-AllRevoked user folder now dto (rec ∷ recs) s other all =
      publish-AllRevoked user folder now
        (record {
          folder_id = dto.folder_id;
          key_version = dto.new_key_version;
          recipients = rec ∷ recs;
        })
        s other all

  -- Marking rows as revoked makes no row active.
  mark-at :
      (now : ℕ) (f u : String) (s : Tables service) (k : String × (String × String))
      (r : WrappedKeyRecipient)
      → recipients.at (mark_revoked service now f u s).recipient_table k ≡ some r
      → (old : WrappedKeyRecipient) × (recipients.at s.recipient_table k ≡ some old)
        × (((active_in_folder u f old ≡ true) × (r ≡ revoke_row now old))
            ⊎ ((active_in_folder u f old ≡ false) × (r ≡ old)))
  mark-at now f u s k r h =
      let law =
        recipients.at-update (active_in_folder u f) (revoke_row now) s.recipient_table k
          (λ x. refl) in
      elim (Option-cases (recipients.at s.recipient_table k)) [
        | inl none_ ↦ let bad : (some r ≡ none) = sym h ∙ law ∙ rw none_ refl in cc
        | inr (old, there) ↦ elim (Bool-cases (active_in_folder u f old)) [
          | inl hit ↦ (old, there, inl (hit, ground (arith, h, law, there, hit)))
          | inr miss ↦ (old, there, inr (miss, ground (arith, h, law, there, miss)))
        ]
      ]

  pub mark-AllRevoked :
      (user folder : String) (now : ℕ) (f u : String) (s : Tables service)
      → AllRevoked user folder s.recipient_table
      → AllRevoked user folder (mark_revoked service now f u s).recipient_table
  mark-AllRevoked user folder now f u s all k r there mine here =
      let (old, was, how) = mark-at now f u s k r there in
      elim how [
        | inl (hit, e) ↦ rw e refl
        | inr (miss, e) ↦ rw e (
            all k old was (sym (ap (λ (x : WrappedKeyRecipient). x.recipient_user_id) e) ∙ mine)
              (sym (ap (λ (x : WrappedKeyRecipient). x.folder_id) e) ∙ here))
      ]

  pub mark_self-AllRevoked :
      (now : ℕ) (user folder : String) (s : Tables service)
      → AllRevoked user folder (mark_revoked service now folder user s).recipient_table
  mark_self-AllRevoked now user folder s k r there mine here =
      let (old, was, how) = mark-at now folder user s k r there in
      elim how [
        | inl (hit, e) ↦ rw e refl
        | inr (miss, e) ↦
            let mine' = sym (ap (λ (x : WrappedKeyRecipient). x.recipient_user_id) e) ∙ mine in
            let here' = sym (ap (λ (x : WrappedKeyRecipient). x.folder_id) e) ∙ here in
            rw e (
              ground (
                arith,
                eq_iff old.folder_id folder,
                eq_iff old.recipient_user_id user,
                mine',
                here',
                miss,
              ))
      ]
