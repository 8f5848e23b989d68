-- ===== src/Sharing/KeyDirectory/Handlers.antt =====
-- The operations of `KeyDirectoryService`.
use sentinel_vault.Common.{
  ℕ, String, Bool, ◌&&◌, ◌||◌, Option, none, some, List, [], ◌∷◌, ◌++◌, map, any, is_some, ◌==◌,
  if◌then◌else◌,
}
use sentinel_vault.Common.Text.{is_empty}
use sentinel_vault.Common.Number.{
  Number, int, pos, is_nan, is_exact, at_most, plus_one, parse_int, to_text,
}
use sentinel_vault.Common.Exec.{
  Exec, ok, pure, gets, modify, or_raise, raise_if, ◌>>=◌, ◌>>◌, bad_request, not_found,
}
use sentinel_vault.Common.Repository.{unordered}
use sentinel_vault.Auth.Srp.{Buffer}
use sentinel_vault.Sharing.KeyDirectory.{
  KeyDirectoryService, KeyBundle, PublishKeyBundleDto, WrappedKeyVersion, WrappedKeyRecordDto,
  WrappedKeyRecipient, PublishWrappedKeysDto, RevokeRecipientDto, FetchWrappedKeyDto, new_bundle,
  fingerprint, saved_recipient, record_of, is_active, active_in_folder, active_version, revoke_row,
}

-- `orderBy(column, 'DESC').limit(1)` on the rows that a query finds, for an order of texts.
module _ {Row : Type 0} (is_before : String → String → Bool) (column : Row → String) where
  abbrev pub later : Row → Option Row → Option Row
  later r none = some r
  later r (some q) = if is_before (column r) (column q) then some q else some r

  unfoldable pub last_row : List Row → Option Row
  last_row [] = none
  last_row (r ∷ rows) = later r (last_row rows)

abbrev pub version_of : WrappedKeyVersion → String
version_of v = v.key_version

abbrev pub in_folder : String → WrappedKeyVersion → Bool
in_folder folder v = v.folder_id == folder

abbrev pub row_version : WrappedKeyRecipient → String
row_version r = r.key_version

abbrev pub is_mine : String → WrappedKeyRecipient → Bool
is_mine user r = r.recipient_user_id == user && is_active r

abbrev pub active_in_version : String → String → WrappedKeyRecipient → Bool
active_in_version folder version r =
    r.folder_id == folder && (r.key_version == version && is_active r)

abbrev pub names : String → List WrappedKeyRecordDto → Bool
names user recs = any (λ (r : WrappedKeyRecordDto). r.recipient_user_id == user) recs

abbrev pub map_option : {A B : Type 0} → (A → B) → Option A → Option B
map_option f none = none
map_option f (some a) = some (f a)

-- `latestVersionStr !== null ? parseInt(latestVersionStr, 10) : 0`
abbrev pub latest_number : Option String → Number
latest_number none = int (pos 0)
latest_number (some version) = parse_int version

-- The version that is published: the wanted one, or one more than the latest.
abbrev pub target_version : Option String → Number → Number
target_version latest wanted =
    if is_nan wanted || (is_some latest && at_most wanted (latest_number latest))
    then plus_one (latest_number latest)
    else wanted

module _ (service : KeyDirectoryService) where
  open service use {bundles, versions, recipients, is_before, sha256, to_base64url, beyond}

  pub record Tables : Type 0 where
    pub bundle_table : bundles.Table
    pub version_table : versions.Table
    pub recipient_table : recipients.Table

  unfoldable pub publish_key_bundle : ℕ → PublishKeyBundleDto → Exec Tables KeyBundle
  publish_key_bundle now dto s =
      let bundle = new_bundle now dto (bundles.at s.bundle_table dto.user_id) in
      (ok bundle, record s { bundle_table = bundles.save bundle s.bundle_table })

  -- The bundle of a user who has none: random texts that are nobody's keys.
  abbrev pub made_up_bundle : String → Buffer → Buffer → Buffer → Buffer → PublishKeyBundleDto
  made_up_bundle user x25519 ed25519 mlkem mldsa = record {
    user_id = user;
    x25519_public_key = to_base64url x25519;
    ed25519_public_key = to_base64url ed25519;
    mlkem_encapsulation_key = to_base64url mlkem;
    mldsa_verifying_key = to_base64url mldsa;
    key_fingerprint = fingerprint (sha256 (x25519 ++ (ed25519 ++ (mlkem ++ mldsa))));
  }

  abbrev pub bundle_or_new :
      ℕ → String → Buffer → Buffer → Buffer → Buffer → Option KeyBundle → Exec Tables KeyBundle
  bundle_or_new now user x25519 ed25519 mlkem mldsa (some bundle) = pure bundle
  bundle_or_new now user x25519 ed25519 mlkem mldsa none =
      publish_key_bundle now (made_up_bundle user x25519 ed25519 mlkem mldsa)

  unfoldable pub get_key_bundle :
      ℕ → String → Buffer → Buffer → Buffer → Buffer → Exec Tables KeyBundle
  get_key_bundle now user x25519 ed25519 mlkem mldsa s =
      bundle_or_new now user x25519 ed25519 mlkem mldsa (bundles.at s.bundle_table user) s

  unfoldable pub get_current_key_version : String → Tables → Option String
  get_current_key_version folder s =
      map_option version_of
        (last_row is_before version_of (versions.find unordered (in_folder folder) s.version_table))

  abbrev pub save_version : ℕ → String → String → Tables → Tables
  save_version now folder version s = record s {
    version_table =
        versions.save (record { folder_id = folder; key_version = version; published_at = now })
          s.version_table;
  }

  abbrev pub save_recipients :
      ℕ → String → String → List WrappedKeyRecordDto → recipients.Table → recipients.Table
  save_recipients now folder version [] t = t
  save_recipients now folder version (rec ∷ recs) t = save_recipients now folder version recs (
      recipients.save
        (saved_recipient now folder version rec
          (recipients.at t (rec.recipient_user_id, (folder, version))))
        t)

  abbrev pub final_version : PublishWrappedKeysDto → Tables → String
  final_version dto s =
      let latest = get_current_key_version dto.folder_id s in
      let wanted = parse_int dto.key_version in
      if is_exact wanted && is_exact (latest_number latest)
      then to_text (target_version latest wanted)
      else beyond latest dto.key_version

  unfoldable pub publish_wrapped_keys : ℕ → PublishWrappedKeysDto → Exec Tables (Unit {0})
  publish_wrapped_keys now dto s =
      let version = final_version dto s in
      let s' = save_version now dto.folder_id version s in
      (
        ok tt,
        record s' {
          recipient_table =
              save_recipients now dto.folder_id version dto.recipients s'.recipient_table;
        },
      )

  abbrev pub mark_revoked : ℕ → String → String → Tables → Tables
  mark_revoked now folder user s = record s {
    recipient_table =
        recipients.update (active_in_folder user folder) (revoke_row now) s.recipient_table;
  }

  abbrev pub publish_remaining :
      ℕ → RevokeRecipientDto → List WrappedKeyRecordDto → Exec Tables (Unit {0})
  publish_remaining now dto [] = pure tt
  publish_remaining now dto (rec ∷ recs) = publish_wrapped_keys now (record {
    folder_id = dto.folder_id;
    key_version = dto.new_key_version;
    recipients = rec ∷ recs;
  })

  unfoldable pub revoke_recipient : ℕ → RevokeRecipientDto → Exec Tables (Unit {0})
  revoke_recipient now dto = do
    raise_if (names dto.recipient_user_id dto.remaining_recipients) bad_request
    modify (mark_revoked now dto.folder_id dto.recipient_user_id)
    publish_remaining now dto dto.remaining_recipients

  abbrev pub wanted_row : String → String → Option String → Tables → Option WrappedKeyRecipient
  wanted_row caller folder (some version) s =
      recipients.find_one (active_version caller folder version) s.recipient_table
  wanted_row caller folder none s =
      last_row is_before row_version
        (recipients.find unordered (active_in_folder caller folder) s.recipient_table)

  unfoldable pub fetch_wrapped_key : String → FetchWrappedKeyDto → Exec Tables WrappedKeyRecordDto
  fetch_wrapped_key caller dto = do
    row ← or_raise (← gets (wanted_row caller dto.folder_id dto.key_version)) not_found
    pure (record_of row)

  abbrev pub recipients_of : String → Option String → Tables → List (String × (String × ℕ))
  recipients_of folder none s = []
  recipients_of folder (some version) s =
      if is_empty version
      then []
      else map (λ (r : WrappedKeyRecipient). (r.recipient_user_id, (r.key_version, r.created_at)))
          (recipients.find unordered (active_in_version folder version) s.recipient_table)

  -- The users of the latest version, each with the version and the time of its row.
  unfoldable pub list_recipients_for_folder : String → Exec Tables (List (String × (String × ℕ)))
  list_recipients_for_folder folder s =
      (ok (recipients_of folder (get_current_key_version folder s) s), s)

  -- The folder, the version and the wrapped key of each share of the caller.
  unfoldable pub list_my_shares :
      String → Exec Tables (List (String × (String × WrappedKeyRecordDto)))
  list_my_shares caller s = (
    ok (
        map (λ (r : WrappedKeyRecipient). (r.folder_id, (r.key_version, record_of r)))
          (recipients.find unordered (is_mine caller) s.recipient_table)),
    s,
  )

  -- The requests that change the tables.
  pub data Op : Type 0 where
    publishes_bundle : ℕ → PublishKeyBundleDto → Op
    gets_bundle : ℕ → String → Buffer → Buffer → Buffer → Buffer → Op
    publishes_keys : ℕ → PublishWrappedKeysDto → Op
    revokes : ℕ → RevokeRecipientDto → Op

  unfoldable pub step : Op → Tables → Tables
  step (publishes_bundle now dto) s = (publish_key_bundle now dto s).1
  step (gets_bundle now user x25519 ed25519 mlkem mldsa) s =
      (get_key_bundle now user x25519 ed25519 mlkem mldsa s).1
  step (publishes_keys now dto) s = (publish_wrapped_keys now dto s).1
  step (revokes now dto) s = (revoke_recipient now dto s).1

  unfoldable pub run : List Op → Tables → Tables
  run [] s = s
  run (op ∷ ops) s = run ops (step op s)
