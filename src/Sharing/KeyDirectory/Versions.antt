-- ===== src/Sharing/KeyDirectory/Versions.antt =====
-- The numbers of the versions of a folder's key.
use sentinel_vault.Common.{
  ℕ, zero, suc, String, false, ◌||◌, true, ◌≡◌, ◌≢◌, inl, inr, refl, sym, ◌∙◌, Option, none, some,
  if◌then◌else◌, arith, Bool-cases,
}
use sentinel_vault.Common.Equality.{string_eq, pair_eq}
use sentinel_vault.Common.Number.{
  ℤ, pos, negsuc, Number, nan, int, leb_ℤ, suc_ℤ, at_most, is_nan, is_exact, plus_one, parse_int,
  to_text,
}
use sentinel_vault.Common.Number.Decimal.{parse_int-to_text}
use sentinel_vault.Common.Exec.{ok}
use sentinel_vault.Sharing.KeyDirectory.{
  KeyDirectoryService, WrappedKeyVersion, PublishWrappedKeysDto, version_key,
}
use sentinel_vault.Sharing.KeyDirectory.Handlers.{
  Tables, final_version, target_version, latest_number, publish_wrapped_keys,
  get_current_key_version,
}

abbrev pub IsNumber : String → Type 0
IsNumber v = (z : ℤ) × (parse_int v ≡ int z)

-- The number of the version is above that of the latest one, if there is one.
abbrev pub IsNewer : Option String → String → Type 0
IsNewer none v = IsNumber v
IsNewer (some latest) v =
    (y : ℤ) × (z : ℤ) × (parse_int latest ≡ int y) × (parse_int v ≡ int z) × (leb_ℤ z y ≡ false)

IsNumber-to_text : (z : ℤ) → IsNumber (to_text (int z))
IsNumber-to_text z = (z, parse_int-to_text z)

suc-above : (y : ℤ) → leb_ℤ (suc_ℤ y) y ≡ false
suc-above (pos n) = ground arith
suc-above (negsuc zero) = refl
suc-above (negsuc (suc n)) = ground arith

target_over :
    (y : ℤ) (wanted : Number)
    → (z : ℤ) × ((if is_nan wanted || at_most wanted (int y) then plus_one (int y) else wanted)
        ≡ int z)
      × (leb_ℤ z y ≡ false)
target_over y nan = (suc_ℤ y, refl, suc-above y)
target_over y (int w) = elim (Bool-cases (leb_ℤ w y)) [
  | inl low ↦ (suc_ℤ y, rw low refl, suc-above y)
  | inr high ↦ (w, rw high refl, high)
]

target-IsNewer :
    (latest : Option String) (wanted : Number)
    → ((l : String) → latest ≡ some l → IsNumber l)
    → IsNewer latest (to_text (target_version latest wanted))
target-IsNewer none nan numbered = IsNumber-to_text (pos 1)
target-IsNewer none (int z) numbered = IsNumber-to_text z
target-IsNewer (some l) wanted numbered =
    let (y, e) = numbered l refl in
    let (z, target, above) = target_over y wanted in
    (y, z, e, rw e (rw target (parse_int-to_text z)), above)

newer-IsNumber : (latest : Option String) (v : String) → IsNewer latest v → IsNumber v
newer-IsNumber none v h = h
newer-IsNumber (some l) v (y, z, one, two, above) = (z, two)

module _ (service : KeyDirectoryService) where
  open service use {versions}

  -- The number of the version is one that JavaScript holds exactly.
  abbrev pub IsExact : String → Type 0
  IsExact v = IsNumber v × (is_exact (parse_int v) ≡ true)

  latest_exact :
      (latest : Option String)
      → ((l : String) → latest ≡ some l → IsExact l)
      → is_exact (latest_number latest) ≡ true
  latest_exact none exact = refl
  latest_exact (some l) exact = (exact l refl).1

  final-IsNewer :
      (dto : PublishWrappedKeysDto) (s : Tables service)
      → is_exact (parse_int dto.key_version) ≡ true
      → ((l : String) → get_current_key_version service dto.folder_id s ≡ some l → IsExact l)
      → IsNewer (get_current_key_version service dto.folder_id s) (final_version service dto s)
  final-IsNewer dto s wanted exact =
      let latest = get_current_key_version service dto.folder_id s in
      rw (wanted, latest_exact latest exact)
        (target-IsNewer latest (parse_int dto.key_version) (λ l h. (exact l h).0))

  -- If the number of the wanted version is exact in JavaScript or the text has none, and the
  -- number of the version that `getCurrentKeyVersion` returns for the folder is exact, if there is
  -- one, then `publishWrappedKeys` succeeds and stores, as published now, a version of the folder
  -- whose number is above it; and every version with another key is stored as before.
  pub publish_wrapped_keys-IsNewer :
      (now : ℕ) (dto : PublishWrappedKeysDto) (s : Tables service)
      → is_exact (parse_int dto.key_version) ≡ true
      → ((l : String) → get_current_key_version service dto.folder_id s ≡ some l → IsExact l)
      → let (answer, s') = publish_wrapped_keys service now dto s in
        (answer ≡ ok tt)
        × ((row : WrappedKeyVersion) × (versions.at s'.version_table (version_key row) ≡ some row)
            × (row.folder_id ≡ dto.folder_id)
            × (row.published_at ≡ now)
            × IsNewer (get_current_key_version service dto.folder_id s) row.key_version
            × ((k : String × String)
                → k ≢ version_key row
                → versions.at s'.version_table k ≡ versions.at s.version_table k))
  unfolding publish_wrapped_keys
  publish_wrapped_keys-IsNewer now dto s wanted exact =
      let row : WrappedKeyVersion = record {
        folder_id = dto.folder_id;
        key_version = final_version service dto s;
        published_at = now;
      } in
      (
        refl,
        (
          row,
          versions.at-save row s.version_table (version_key row)
              ∙ rw ((pair_eq.same_key_iff (version_key row) (version_key row)).1 refl) refl,
          refl,
          refl,
          final-IsNewer dto s wanted exact,
          λ k other. elim (Bool-cases (pair_eq.same_key (version_key row) k)) [
            | inl same ↦ absurd (other (sym ((pair_eq.same_key_iff (version_key row) k).0 same)))
            | inr differ ↦ versions.at-save row s.version_table k ∙ rw differ refl
          ],
        ),
      )
