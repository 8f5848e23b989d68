-- ===== src/Sharing/KeyDirectory/Tests.antt =====
-- The key directory on tables in memory.
use sentinel_vault.Common.{
  ℕ, String, Bool, ◌≡◌, ◌≢◌, refl, subst, none, some, List, [], ◌∷◌, ltb, ◌⊎◌, inl, inr, arith,
}
use sentinel_vault.Common.Exec.{ok, err, not_found}
use sentinel_vault.Common.Equality.{string_eq, pair_eq}
use sentinel_vault.Common.Number.{pos, parse_int, decimal}
use sentinel_vault.Common.Repository.Memory.{memory}
use Prim.Native.Char.{code}
use sentinel_vault.Sharing.KeyDirectory.{
  KeyDirectoryService, WrappedKeyVersion, WrappedKeyRecordDto, WrappedKeyRecipient,
  PublishWrappedKeysDto, RevokeRecipientDto, bundle_key, version_key, recipient_key, fingerprint,
  record_of,
}
use sentinel_vault.Sharing.KeyDirectory.Order.{IsTextOrder}
use sentinel_vault.Sharing.KeyDirectory.Handlers.{
  Tables, final_version, publish_wrapped_keys, revoke_recipient, fetch_wrapped_key,
  get_current_key_version, list_recipients_for_folder, list_my_shares, get_key_bundle,
  publish_key_bundle, last_row, Op, publishes_keys, run, step,
}
use sentinel_vault.Sharing.KeyDirectory.Fetch.{fetch_wrapped_key-cases, IsOwn, IsWanted, NoneWanted}
use sentinel_vault.Sharing.KeyDirectory.Revocation.{revoked_locked_out}
use sentinel_vault.Sharing.KeyDirectory.Publication.{published_fetchable}
use sentinel_vault.Sharing.KeyDirectory.Versions.{publish_wrapped_keys-IsNewer, IsNewer, IsExact}

-- Opens what the tests compute with.
directory_open : Unit {0}
unfolding publish_wrapped_keys revoke_recipient fetch_wrapped_key get_current_key_version last_row
    list_recipients_for_folder list_my_shares get_key_bundle publish_key_bundle run step parse_int
    decimal fingerprint
directory_open = tt

-- An order by the first character, which is that of texts on the versions below.
abbrev rank : String → ℕ
rank String.[] = 0
rank (String.◌∷◌ c s) = code c

abbrev first_before : String → String → Bool
first_before a b = ltb (rank a) (rank b)

first_before-IsTextOrder : IsTextOrder first_before
first_before-IsTextOrder = record {
  asymmetric = λ a b h. ground arith;
  not_between = λ a b c h k. ground arith;
}

abbrev service : KeyDirectoryService
service = record {
  bundles = memory bundle_key;
  versions = memory version_key;
  recipients = memory recipient_key;
  is_before = first_before;
  sha256 = λ bytes. bytes;
  to_base64url = λ bytes. "text";
  beyond = λ latest wanted. wanted;
}

abbrev none_yet : Tables service
none_yet = record { bundle_table = ([], tt); version_table = ([], tt); recipient_table = ([], tt) }

abbrev key_for : String → String → WrappedKeyRecordDto
key_for user key = record {
  recipient_user_id = user;
  ephemeral_x25519_public_key = "e";
  mlkem_ciphertext = "c";
  aes_nonce = "n";
  wrapped_folder_key = key;
}

abbrev to_both : String → PublishWrappedKeysDto
to_both version = record {
  folder_id = "f";
  key_version = version;
  recipients = key_for "ann" "a" ∷ key_for "bob" "b" ∷ [];
}

abbrev bob_out : RevokeRecipientDto
bob_out = record {
  folder_id = "f";
  recipient_user_id = "bob";
  new_key_version = "2";
  remaining_recipients = key_for "ann" "a2" ∷ [];
}

abbrev ops : List (Op service)
ops = publishes_keys 1 (to_both "1") ∷ []

abbrev published : Tables service
published = run service ops none_yet

shared_then_revoked :
    let s = (revoke_recipient service 2 bob_out published).1 in
    (get_current_key_version service "f" s ≡ some "2")
    × ((fetch_wrapped_key service "ann" (record { folder_id = "f"; key_version = none }) s).0
        ≡ ok (key_for "ann" "a2"))
    × ((fetch_wrapped_key service "ann" (record { folder_id = "f"; key_version = some "1" }) s).0
        ≡ ok (key_for "ann" "a"))
    × ((fetch_wrapped_key service "bob" (record { folder_id = "f"; key_version = none }) s).0
        ≡ err not_found)
    × ((list_recipients_for_folder service "f" s).0 ≡ ok (("ann", ("2", 2)) ∷ []))
unfolding directory_open
shared_then_revoked = (refl, refl, refl, refl, refl)

-- After the tenth version the latest one is still "9", which no text with "1" in front comes after:
-- the tenth version is published again, over the key that was there.
abbrev tenth : Tables service
tenth = run service (publishes_keys 1 (to_both "9") ∷ publishes_keys 2 (to_both "10") ∷ []) none_yet

tenth_again :
    (get_current_key_version service "f" tenth ≡ some "9")
    × (final_version service (to_both "9") tenth ≡ "10")
    × (final_version service (to_both "10") tenth ≡ "10")
unfolding directory_open
tenth_again = (refl, refl, refl)

fingerprint_test : fingerprint (1 ∷ 2 ∷ 3 ∷ 255 ∷ 255 ∷ 255 ∷ 7 ∷ 7 ∷ []) ≡ "66051 77215"
unfolding directory_open
fingerprint_test = refl

fetch_wrapped_key-cases_example :
    ((r : WrappedKeyRecipient) × (service.recipients.at published.recipient_table (recipient_key r)
        ≡ some r)
      × IsOwn service "bob" "f" r
      × IsWanted service "bob" "f" none r published
      × (fetch_wrapped_key service "bob" (record { folder_id = "f"; key_version = none }) published
          ≡ (ok (record_of r), published)))
    ⊎ (NoneWanted service "bob" "f" none published
        × (fetch_wrapped_key service "bob"
              (record { folder_id = "f"; key_version = none })
              published
            ≡ (err not_found, published)))
fetch_wrapped_key-cases_example =
    fetch_wrapped_key-cases service "bob" (record { folder_id = "f"; key_version = none }) published
      first_before-IsTextOrder

abbrev to_ann : PublishWrappedKeysDto
to_ann = record { folder_id = "f"; key_version = "3"; recipients = key_for "ann" "a3" ∷ [] }

revoked_locked_out_example :
    (fetch_wrapped_key service "bob"
      (record { folder_id = "f"; key_version = some "1" })
      (run service
        (publishes_keys 3 to_ann ∷ [])
        (revoke_recipient service 2 bob_out published).1)).0
    ≡ err not_found
unfolding directory_open
revoked_locked_out_example =
    revoked_locked_out service 2 bob_out (some "1") (publishes_keys 3 to_ann ∷ []) published refl
      (refl, tt)

published_fetchable_example :
    fetch_wrapped_key service "bob"
      (record { folder_id = "f"; key_version = some "2" })
      (publish_wrapped_keys service 2 (to_both "1") published).1
    ≡ (ok (key_for "bob" "b"), (publish_wrapped_keys service 2 (to_both "1") published).1)
unfolding directory_open
published_fetchable_example =
    published_fetchable service 2 (to_both "1") (key_for "bob" "b") published (refl, (refl, tt))
      (inr (inl refl)) (λ r h. cc)

publish_wrapped_keys-IsNewer_example :
    let (answer, s') = publish_wrapped_keys service 9 (to_both "1") published in
    (answer ≡ ok tt)
    × ((row : WrappedKeyVersion) × (service.versions.at s'.version_table (version_key row)
          ≡ some row)
        × (row.folder_id ≡ "f")
        × (row.published_at ≡ 9)
        × IsNewer (get_current_key_version service "f" published) row.key_version
        × ((k : String × String)
            → k ≢ version_key row
            → service.versions.at s'.version_table k
              ≡ service.versions.at published.version_table k))
unfolding directory_open
publish_wrapped_keys-IsNewer_example =
    publish_wrapped_keys-IsNewer service 9 (to_both "1") published refl
      (λ l h. let first : "1" ≡ l = cc in subst (IsExact service) first ((pos 1, refl), refl))
