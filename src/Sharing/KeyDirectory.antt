-- ===== src/Sharing/KeyDirectory.antt =====
-- `KeyDirectoryService` (backend/sharing-service/src/key-directory/key-directory.service.ts): the
-- public keys of users, and the wrapped keys of shared folders. Parameters are the three tables,
-- SHA-256, base64url, the order of texts in the database and the versions that come of numbers which
-- JavaScript does not hold exactly. The request's data is validated by
-- its class before it comes here, and a request that names a recipient twice is taken to save one
-- row after the other. A clock is read once for each request.
pub mod Handlers
pub mod Order
pub mod Fetch
pub mod Revoked
pub mod Revocation
pub mod Publication
pub mod Versions
mod Tests
use sentinel_vault.Common.{
  ℕ, zero, suc, ◌+◌, ◌*◌, ◌%◌, String, Bool, true, false, ◌&&◌, Option, none, some, List, [], ◌∷◌,
  map, ◌==◌, if◌then◌else◌,
}
use sentinel_vault.Common.Text.{is_empty}
use sentinel_vault.Common.Number.{digit_char}
use sentinel_vault.Common.Equality.{string_eq, pair_eq}
use sentinel_vault.Common.Repository.{Repository, unless_undefined}
use sentinel_vault.Auth.Srp.{Buffer}
use Prim.Native.Nat.{◌/◌}

pub record KeyBundle : Type 0 where
  pub user_id : String
  pub x25519_public_key : String
  pub ed25519_public_key : String
  pub mlkem_encapsulation_key : String
  pub mldsa_verifying_key : String
  pub key_fingerprint : String
  pub published_at : ℕ
  pub updated_at : ℕ

pub record PublishKeyBundleDto : Type 0 where
  pub user_id : String
  pub x25519_public_key : String
  pub ed25519_public_key : String
  pub mlkem_encapsulation_key : String
  pub mldsa_verifying_key : String
  pub key_fingerprint : String

pub record WrappedKeyVersion : Type 0 where
  pub folder_id : String
  pub key_version : String
  pub published_at : ℕ

pub record WrappedKeyRecordDto : Type 0 where
  pub recipient_user_id : String
  pub ephemeral_x25519_public_key : String
  pub mlkem_ciphertext : String
  pub aes_nonce : String
  pub wrapped_folder_key : String

-- A row of `wrapped_key_recipients`.
pub record WrappedKeyRecipient : Type 0 where
  pub recipient_user_id : String
  pub folder_id : String
  pub key_version : String
  pub ephemeral_x25519_public_key : String
  pub mlkem_ciphertext : String
  pub aes_nonce : String
  pub wrapped_folder_key : String
  pub revoked_at : Option ℕ
  pub created_at : ℕ

abbrev pub bundle_key : KeyBundle → String
bundle_key b = b.user_id

-- The primary keys of two and of three columns.
abbrev pub version_key : WrappedKeyVersion → String × String
version_key v = (v.folder_id, v.key_version)

abbrev pub recipient_key : WrappedKeyRecipient → String × (String × String)
recipient_key r = (r.recipient_user_id, (r.folder_id, r.key_version))

abbrev pub new_bundle : ℕ → PublishKeyBundleDto → Option KeyBundle → KeyBundle
new_bundle now dto existing = record {
  user_id = dto.user_id;
  x25519_public_key = dto.x25519_public_key;
  ed25519_public_key = dto.ed25519_public_key;
  mlkem_encapsulation_key = dto.mlkem_encapsulation_key;
  mldsa_verifying_key = dto.mldsa_verifying_key;
  key_fingerprint = dto.key_fingerprint;
  published_at = elim existing [ none ↦ now | some b ↦ b.published_at ];
  updated_at = now;
}

-- `(val % 100000).toString().padStart(5, '0')`
abbrev pub pad_five : ℕ → String → String
pad_five n rest = String.◌∷◌ (digit_char (n / 10000 % 10)) (
    String.◌∷◌ (digit_char (n / 1000 % 10)) (
      String.◌∷◌ (digit_char (n / 100 % 10))
        (String.◌∷◌ (digit_char (n / 10 % 10)) (String.◌∷◌ (digit_char (n % 10)) rest))))

abbrev pub separated : String → String
separated s = if is_empty s then "" else String.◌∷◌ " " s

-- The groups of three bytes of a hash, each as five digits, joined by a space.
unfoldable pub fingerprint : Buffer → String
fingerprint (a ∷ b ∷ c ∷ bytes) =
    pad_five ((a * 65536 + b * 256 + c) % 100000) (separated (fingerprint bytes))
fingerprint (a ∷ b ∷ []) = ""
fingerprint (a ∷ []) = ""
fingerprint [] = ""

-- The row that `save` leaves: no `revokedAt` and no `createdAt` are given, so that those of a row
-- with the same key stay.
abbrev pub saved_recipient :
    ℕ → String → String → WrappedKeyRecordDto → Option WrappedKeyRecipient → WrappedKeyRecipient
saved_recipient now folder version rec existing = record {
  recipient_user_id = rec.recipient_user_id;
  folder_id = folder;
  key_version = version;
  ephemeral_x25519_public_key = rec.ephemeral_x25519_public_key;
  mlkem_ciphertext = rec.mlkem_ciphertext;
  aes_nonce = rec.aes_nonce;
  wrapped_folder_key = rec.wrapped_folder_key;
  revoked_at = elim existing [ none ↦ none | some r ↦ r.revoked_at ];
  created_at = elim existing [ none ↦ now | some r ↦ r.created_at ];
}

-- The copy of a row that a fetch returns.
abbrev pub record_of : WrappedKeyRecipient → WrappedKeyRecordDto
record_of r = record {
  recipient_user_id = r.recipient_user_id;
  ephemeral_x25519_public_key = r.ephemeral_x25519_public_key;
  mlkem_ciphertext = r.mlkem_ciphertext;
  aes_nonce = r.aes_nonce;
  wrapped_folder_key = r.wrapped_folder_key;
}

-- `revokedAt IS NULL`
abbrev pub is_active : WrappedKeyRecipient → Bool
is_active r = elim r.revoked_at [ none ↦ true | some t ↦ false ]

abbrev pub active_in_folder : String → String → WrappedKeyRecipient → Bool
active_in_folder user folder r =
    r.folder_id == folder && (r.recipient_user_id == user && is_active r)

abbrev pub active_version : String → String → String → WrappedKeyRecipient → Bool
active_version user folder version r =
    r.recipient_user_id == user
    && (r.folder_id == folder && (r.key_version == version && is_active r))

abbrev pub revoke_row : ℕ → WrappedKeyRecipient → WrappedKeyRecipient
revoke_row now r = record r { revoked_at = some now }

pub record PublishWrappedKeysDto : Type 0 where
  pub folder_id : String
  pub key_version : String
  pub recipients : List WrappedKeyRecordDto

pub record RevokeRecipientDto : Type 0 where
  pub folder_id : String
  pub recipient_user_id : String
  pub new_key_version : String
  pub remaining_recipients : List WrappedKeyRecordDto

pub record FetchWrappedKeyDto : Type 0 where
  pub folder_id : String
  pub key_version : Option String

pub record KeyDirectoryService : Type 1 where
  pub bundles : Repository KeyBundle bundle_key
  pub versions : Repository WrappedKeyVersion version_key
  pub recipients : Repository WrappedKeyRecipient recipient_key
  -- whether a text comes before another one in the order of the database
  pub is_before : String → String → Bool
  pub sha256 : Buffer → Buffer
  pub to_base64url : Buffer → String
  -- the version that is published over the latest one for a wanted text, where one of their
  -- numbers is not exact
  pub beyond : Option String → String → String
