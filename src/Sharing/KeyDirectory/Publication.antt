-- ===== src/Sharing/KeyDirectory/Publication.antt =====
-- Publishing the wrapped keys of a folder.
use sentinel_vault.Common.{
  ℕ, String, true, false, ◌≡◌, ◌⊎◌, inl, inr, refl, sym, ap, ◌∙◌, Option, none, some, List, [], ◌∷◌,
  ◌==◌, eq_iff, eq_refl, arith, Option-cases,
}
use sentinel_vault.Common.Exec.{ok}
use sentinel_vault.Common.Equality.{string_eq, pair_eq}
use sentinel_vault.Common.Repository.{Distinct}
use sentinel_vault.Sharing.KeyDirectory.{
  KeyDirectoryService, WrappedKeyRecipient, WrappedKeyRecordDto, PublishWrappedKeysDto,
  recipient_key, is_active, active_version, saved_recipient,
}
use sentinel_vault.Sharing.KeyDirectory.Handlers.{
  Tables, names, save_recipients, final_version, publish_wrapped_keys, fetch_wrapped_key,
  wanted_row,
}

abbrev pub recipient_of : WrappedKeyRecordDto → String
recipient_of rec = rec.recipient_user_id

abbrev pub IsIn : WrappedKeyRecordDto → List WrappedKeyRecordDto → Type 0
IsIn rec [] = ⊥
IsIn rec (x ∷ recs) = (x ≡ rec) ⊎ IsIn rec recs

named :
    (rec : WrappedKeyRecordDto) (recs : List WrappedKeyRecordDto)
    → IsIn rec recs
    → names rec.recipient_user_id recs ≡ true
named rec [] bad = elim bad [ ]
named rec (x ∷ recs) (inl here) = rw here (rw (eq_refl rec.recipient_user_id) refl)
named rec (x ∷ recs) (inr there) = ground (arith, named rec recs there)

module _ (service : KeyDirectoryService) where
  open service use {recipients}

  save_recipients-other :
      (now : ℕ) (f v u : String) (recs : List WrappedKeyRecordDto) (t : recipients.Table)
      → names u recs ≡ false
      → recipients.at (save_recipients service now f v recs t) (u, (f, v))
        ≡ recipients.at t (u, (f, v))
  save_recipients-other now f v u [] t other = refl
  save_recipients-other now f v u (rec ∷ recs) t other =
      let row = saved_recipient now f v rec (recipients.at t (rec.recipient_user_id, (f, v))) in
      let law = recipients.at-save row t (u, (f, v)) in
      save_recipients-other now f v u recs _ (ground arith) ∙ law ∙ ground arith

  -- Each record is saved in the row of its recipient and of the version.
  save_recipients-at :
      (now : ℕ) (f v : String) (rec : WrappedKeyRecordDto) (recs : List WrappedKeyRecordDto)
      (t : recipients.Table)
      → Distinct recipient_of recs
      → IsIn rec recs
      → recipients.at (save_recipients service now f v recs t) (rec.recipient_user_id, (f, v))
        ≡ some (saved_recipient now f v rec (recipients.at t (rec.recipient_user_id, (f, v))))
  save_recipients-at now f v rec [] t distinct bad = elim bad [ ]
  save_recipients-at now f v rec (x ∷ recs) t distinct (inl here) =
      let row = saved_recipient now f v rec (recipients.at t (rec.recipient_user_id, (f, v))) in
      let rest : names rec.recipient_user_id recs ≡ false = ground arith in
      rw here (
        save_recipients-other now f v rec.recipient_user_id recs _ rest
        ∙ recipients.at-save row t (rec.recipient_user_id, (f, v))
        ∙ ground (arith, eq_refl rec.recipient_user_id, eq_refl f, eq_refl v))
  save_recipients-at now f v rec (x ∷ recs) t distinct (inr there) =
      let row = saved_recipient now f v x (recipients.at t (x.recipient_user_id, (f, v))) in
      let other : x.recipient_user_id == rec.recipient_user_id ≡ false =
        ground (arith, named rec recs there, eq_iff x.recipient_user_id rec.recipient_user_id) in
      let kept : recipients.at (recipients.save row t) (rec.recipient_user_id, (f, v))
          ≡ recipients.at t (rec.recipient_user_id, (f, v)) =
        recipients.at-save row t (rec.recipient_user_id, (f, v)) ∙ rw other refl in
      save_recipients-at now f v rec recs _ distinct.1 there
      ∙ ap (λ old. some (saved_recipient now f v rec old)) kept

  still-active :
      (now : ℕ) (f v : String) (rec : WrappedKeyRecordDto) (old : Option WrappedKeyRecipient)
      → ((r : WrappedKeyRecipient) → old ≡ some r → is_active r ≡ true)
      → is_active (saved_recipient now f v rec old) ≡ true
  still-active now f v rec none active = refl
  still-active now f v rec (some r) active = active r refl

  -- The one row that a fetch of a version can return.
  fetch-at :
      (caller folder version : String) (s : Tables service) (r : WrappedKeyRecipient)
      → recipients.at s.recipient_table (caller, (folder, version)) ≡ some r
      → is_active r ≡ true
      → wanted_row service caller folder (some version) s ≡ some r
  fetch-at caller folder version s r there active =
      let key = recipients.at-key s.recipient_table (caller, (folder, version)) r there in
      let mine : r.recipient_user_id ≡ caller = ap (λ (k : String × (String × String)). k.0) key in
      let here : r.folder_id ≡ folder = ap (λ (k : String × (String × String)). k.1.0) key in
      let of_version : r.key_version ≡ version =
        ap (λ (k : String × (String × String)). k.1.1) key in
      elim (Option-cases (wanted_row service caller folder (some version) s)) [
        | inl missing ↦
            let miss =
              recipients.find_one-none (active_version caller folder version) s.recipient_table
                (caller, (folder, version)) r missing there in
            let bad : false ≡ true =
              sym miss
              ∙ ground (
                arith,
                eq_iff r.recipient_user_id caller,
                eq_iff r.folder_id folder,
                eq_iff r.key_version version,
              ) in
            cc
        | inr (q, found) ↦
            let (hit, stored) =
              recipients.find_one-some (active_version caller folder version) s.recipient_table q
                found in
            let key : recipient_key q ≡ (caller, (folder, version)) = ground (
              arith,
              eq_iff q.recipient_user_id caller,
              eq_iff q.folder_id folder,
              eq_iff q.key_version version,
            ) in
            found ∙ sym stored ∙ ap (recipients.at s.recipient_table) key ∙ there
      ]

  -- After `publishWrappedKeys`, each recipient of the request who fetches the version that was
  -- published gets the record that the request has for it, if the request names no recipient twice
  -- and the table holds no revoked row of the recipient for that version of the folder.
  pub published_fetchable :
      (now : ℕ) (dto : PublishWrappedKeysDto) (rec : WrappedKeyRecordDto) (s : Tables service)
      → Distinct recipient_of dto.recipients
      → IsIn rec dto.recipients
      → ((r : WrappedKeyRecipient)
          → recipients.at s.recipient_table
              (rec.recipient_user_id, (dto.folder_id, final_version service dto s))
            ≡ some r
          → is_active r ≡ true)
      → fetch_wrapped_key service rec.recipient_user_id
          (record { folder_id = dto.folder_id; key_version = some (final_version service dto s) })
          (publish_wrapped_keys service now dto s).1
        ≡ (ok rec, (publish_wrapped_keys service now dto s).1)
  unfolding fetch_wrapped_key publish_wrapped_keys
  published_fetchable now dto rec s distinct there active =
      let version = final_version service dto s in
      let stored =
        save_recipients-at now dto.folder_id version rec dto.recipients s.recipient_table distinct
          there in
      let old = recipients.at s.recipient_table (rec.recipient_user_id, (dto.folder_id, version)) in
      let row = saved_recipient now dto.folder_id version rec old in
      let found =
        fetch-at rec.recipient_user_id dto.folder_id version
          (publish_wrapped_keys service now dto s).1 row stored
          (still-active now dto.folder_id version rec old active) in
      rw found refl
