-- ===== src/Sharing/KeyDirectory/Fetch.antt =====
-- What `fetchWrappedKey` returns.
use sentinel_vault.Common.{
  String, true, false, ◌≡◌, ◌≢◌, ◌⊎◌, inl, inr, ap, subst, Option, none, some, eq_iff, arith,
  Option-cases,
}
use sentinel_vault.Common.Exec.{ok, err, not_found}
use sentinel_vault.Common.Equality.{string_eq, pair_eq}
use sentinel_vault.Common.Repository.{unordered}
use sentinel_vault.Sharing.KeyDirectory.{
  KeyDirectoryService, WrappedKeyRecipient, FetchWrappedKeyDto, recipient_key, record_of, is_active,
  active_in_folder, active_version,
}
use sentinel_vault.Sharing.KeyDirectory.Handlers.{
  Tables, row_version, wanted_row, fetch_wrapped_key,
}
use sentinel_vault.Sharing.KeyDirectory.Order.{
  IsTextOrder, last_row-All, last_row-last, listed, nothing_left,
}

-- With no version asked for, no row is another one.
abbrev pub IsOther : Option String → String → Type 0
IsOther none v = ⊥
IsOther (some version) v = v ≢ version

module _ (service : KeyDirectoryService) where
  open service use {recipients, is_before}

  -- The row is the caller's own for the folder, and it is not revoked.
  abbrev pub IsOwn : String → String → WrappedKeyRecipient → Type 0
  IsOwn caller folder r =
      (r.recipient_user_id ≡ caller) × (r.folder_id ≡ folder) × (r.revoked_at ≡ none)

  -- The row of the version, or if none is asked for the one with the last version.
  abbrev pub IsWanted :
      String → String → Option String → WrappedKeyRecipient → Tables service → Type 0
  IsWanted caller folder (some version) r s = r.key_version ≡ version
  IsWanted caller folder none r s =
      (q : WrappedKeyRecipient)
      → recipients.at s.recipient_table (recipient_key q) ≡ some q
      → IsOwn caller folder q
      → is_before r.key_version q.key_version ≡ false

  abbrev pub NoneWanted : String → String → Option String → Tables service → Type 0
  NoneWanted caller folder version s =
      (q : WrappedKeyRecipient)
      → recipients.at s.recipient_table (recipient_key q) ≡ some q
      → IsOwn caller folder q
      → IsOther version q.key_version

  active-none : (r : WrappedKeyRecipient) → is_active r ≡ true → r.revoked_at ≡ none
  active-none r h = ground arith

  active_in_folder-IsOwn :
      (caller folder : String) (r : WrappedKeyRecipient)
      → active_in_folder caller folder r ≡ true
      → IsOwn caller folder r
  active_in_folder-IsOwn caller folder r h =
      ground (arith, eq_iff r.folder_id folder, eq_iff r.recipient_user_id caller)

  IsOwn-active_in_folder :
      (caller folder : String) (r : WrappedKeyRecipient)
      → IsOwn caller folder r
      → active_in_folder caller folder r ≡ true
  IsOwn-active_in_folder caller folder r h =
      ground (arith, eq_iff r.folder_id folder, eq_iff r.recipient_user_id caller)

  pub row-IsOwn :
      (caller folder : String) (version : Option String) (s : Tables service)
      (r : WrappedKeyRecipient)
      → wanted_row service caller folder version s ≡ some r
      → (recipients.at s.recipient_table (recipient_key r) ≡ some r) × IsOwn caller folder r
  row-IsOwn caller folder (some v) s r h =
      let (hit, stored) =
        recipients.find_one-some (active_version caller folder v) s.recipient_table r h in
      (
        stored,
        ground (
          arith,
          eq_iff r.folder_id folder,
          eq_iff r.recipient_user_id caller,
          eq_iff r.key_version v,
        ),
      )
  row-IsOwn caller folder none s r h =
      let found = recipients.find unordered (active_in_folder caller folder) s.recipient_table in
      let (hit, stored) =
        last_row-All is_before row_version _ found r
          (recipients.find-sound unordered (active_in_folder caller folder) s.recipient_table) h in
      (stored, active_in_folder-IsOwn caller folder r hit)

  row-IsWanted :
      (caller folder : String) (version : Option String) (s : Tables service)
      (r : WrappedKeyRecipient)
      → IsTextOrder is_before
      → wanted_row service caller folder version s ≡ some r
      → IsWanted caller folder version r s
  row-IsWanted caller folder (some v) s r order h =
      let (hit, stored) =
        recipients.find_one-some (active_version caller folder v) s.recipient_table r h in
      ground (
        arith,
        eq_iff r.folder_id folder,
        eq_iff r.recipient_user_id caller,
        eq_iff r.key_version v,
      )
  row-IsWanted caller folder none s r order h = λ q there own.
      let found = recipients.find unordered (active_in_folder caller folder) s.recipient_table in
      let (x, after, key) =
        listed is_before row_version found recipient_key _ (recipient_key q)
          (last_row-last is_before row_version found r order h)
          (recipients.find-complete unordered (active_in_folder caller folder) s.recipient_table
            (recipient_key q) q there (IsOwn-active_in_folder caller folder q own)) in
      subst (λ v. is_before r.key_version v ≡ false)
        (ap (λ (k : String × (String × String)). k.1.1) key) after

  wanted-none :
      (caller folder : String) (version : Option String) (s : Tables service)
      → wanted_row service caller folder version s ≡ none
      → NoneWanted caller folder version s
  wanted-none caller folder (some v) s h q there own = λ e.
      let miss =
        recipients.find_one-none (active_version caller folder v) s.recipient_table
          (recipient_key q) q h there in
      ground (
        arith,
        eq_iff q.folder_id folder,
        eq_iff q.recipient_user_id caller,
        eq_iff q.key_version v,
      )
  wanted-none caller folder none s h q there own =
      let found = recipients.find unordered (active_in_folder caller folder) s.recipient_table in
      let (x, bad, key) =
        listed is_before row_version found recipient_key (λ x. ⊥) (recipient_key q)
          (nothing_left is_before row_version found h (λ x. ⊥))
          (recipients.find-complete unordered (active_in_folder caller folder) s.recipient_table
            (recipient_key q) q there (IsOwn-active_in_folder caller folder q own)) in
      bad

  -- A caller gets a copy of a row of its own for the folder that is not revoked: the row of the
  -- version asked for, or with no version asked for the row whose version no other such row's comes
  -- after in the order of the database. The answer is that nothing is found exactly if the table
  -- holds no such row. Nothing is changed.
  pub fetch_wrapped_key-cases :
      (caller : String) (dto : FetchWrappedKeyDto) (s : Tables service)
      → IsTextOrder is_before
      → ((r : WrappedKeyRecipient) × (recipients.at s.recipient_table (recipient_key r) ≡ some r)
          × IsOwn caller dto.folder_id r
          × IsWanted caller dto.folder_id dto.key_version r s
          × (fetch_wrapped_key service caller dto s ≡ (ok (record_of r), s)))
        ⊎ (NoneWanted caller dto.folder_id dto.key_version s
            × (fetch_wrapped_key service caller dto s ≡ (err not_found, s)))
  unfolding fetch_wrapped_key
  fetch_wrapped_key-cases caller dto s order =
      elim (Option-cases (wanted_row service caller dto.folder_id dto.key_version s)) [
        | inl missing ↦
            inr (wanted-none caller dto.folder_id dto.key_version s missing, ground arith)
        | inr (r, found) ↦
            let (stored, own) = row-IsOwn caller dto.folder_id dto.key_version s r found in
            inl (
              r,
              stored,
              own,
              row-IsWanted caller dto.folder_id dto.key_version s r order found,
              ground arith,
            )
      ]
