-- ===== src/Sync/Items/Final.antt =====
-- What the loop of `push` that saves makes of the row under one key.
use sentinel_vault.Common.{
  ◌≤◌, String, Bool, false, ◌≡◌, inl, inr, refl, subst, Option, none, some, List, [], ◌∷◌, eq_iff,
  eq_refl, arith, All, any, Bool-cases, ◌==◌, if◌then◌else◌,
}
use sentinel_vault.Common.Equality.{string_eq}
use sentinel_vault.Common.Repository.{Distinct}
use sentinel_vault.Sync.Items.{EncryptedVaultItem, EncryptedVaultItemDto, saved_row}
use sentinel_vault.Sync.Items.Conflicts.{Accepts}

abbrev pub has_dto_id : String → EncryptedVaultItemDto → Bool
has_dto_id k item = item.id == k

abbrev pub dto_id : EncryptedVaultItemDto → String
dto_id item = item.id

-- What the loop that saves makes of the row under the key `k`.
abbrev pub final :
    String
    → Option String
    → List EncryptedVaultItemDto
    → String
    → Option EncryptedVaultItem
    → Option EncryptedVaultItem
final user target [] k o = o
final user target (item ∷ items) k o =
    final user target items k (if item.id == k then some (saved_row user target item o) else o)

-- The second row can follow the first one: the same item of the same owner, at no lower version.
abbrev pub Follows : Option EncryptedVaultItem → Option EncryptedVaultItem → Type 0
Follows none o = Unit
Follows (some r) none = ⊥
Follows (some r) (some r') = (r'.id ≡ r.id) × (r'.user_id ≡ r.user_id) × (r.version ≤ r'.version)

-- The owner that an item has after a push by the user.
abbrev owner_after : String → Option EncryptedVaultItem → String
owner_after user none = user
owner_after user (some r) = r.user_id

-- The row holds the content and the version of the item, under the owner of the row before, or
-- under the user if there was none.
abbrev pub Carries :
    String → EncryptedVaultItemDto → Option EncryptedVaultItem → Option EncryptedVaultItem → Type 0
Carries user item before after =
    (r : EncryptedVaultItem) × (after ≡ some r)
    × (r.encrypted_blob ≡ item.encrypted_blob)
    × (r.nonce ≡ item.nonce)
    × (r.version ≡ item.version)
    × (r.is_deleted ≡ item.is_deleted)
    × (r.user_id ≡ owner_after user before)

pub row_content :
    (user : String) (target : Option String) (item : EncryptedVaultItemDto)
    (before after : Option EncryptedVaultItem)
    → after ≡ some (saved_row user target item before)
    → Carries user item before after
row_content user target item none after e =
    (saved_row user target item none, e, refl, refl, refl, refl, refl)
row_content user target item (some r) after e =
    (saved_row user target item (some r), e, refl, refl, refl, refl, refl)

module _ (user : String) (target : Option String) where
  pub saved_row-id :
      (item : EncryptedVaultItemDto) (o : Option EncryptedVaultItem)
      → ((r : EncryptedVaultItem) → o ≡ some r → r.id ≡ item.id)
      → (saved_row user target item o).id ≡ item.id
  saved_row-id item none h = refl
  saved_row-id item (some r) h = h r refl

module _ (user : String) (target : Option String) (k : String) where
  -- Every item of the batch under the key `k` is at least at the version of the first row.
  pub final-Follows :
      (items : List EncryptedVaultItemDto) (first : EncryptedVaultItem) (r : EncryptedVaultItem)
      → Follows (some first) (some r)
      → All (λ item. item.id ≡ k → first.version ≤ item.version) items
      → Follows (some first) (final user target items k (some r))
  final-Follows [] first r f h = f
  final-Follows (item ∷ items) first r f h = elim (Bool-cases (item.id == k)) [
    | inl here ↦ rw here (
        final-Follows items first (saved_row user target item (some r))
          (f.0, f.1, h.0 ((eq_iff item.id k).0 here)) h.1)
    | inr other ↦ rw other (final-Follows items first r f h.1)
  ]

  pub final-absent :
      (items : List EncryptedVaultItemDto) (o : Option EncryptedVaultItem)
      → any (has_dto_id k) items ≡ false
      → final user target items k o ≡ o
  final-absent [] o h = refl
  final-absent (item ∷ items) o h = ground (arith, final-absent items o)

module _ (user : String) (target : Option String) where
  -- Saving the same item again writes the same row.
  saved_row_idem :
      (item : EncryptedVaultItemDto) (o : Option EncryptedVaultItem)
      → saved_row user target item (some (saved_row user target item o))
        ≡ saved_row user target item o
  saved_row_idem item none = ground arith
  saved_row_idem item (some r) = ground arith

  pub saved_row-Accepts :
      (item : EncryptedVaultItemDto) (o : Option EncryptedVaultItem)
      → Accepts item (some (saved_row user target item o))
  saved_row-Accepts item none = inr (refl, refl, refl, refl)
  saved_row-Accepts item (some r) = inr (refl, refl, refl, refl)

  final-cons :
      (f : String → Option EncryptedVaultItem) (item : EncryptedVaultItemDto)
      (items ys : List EncryptedVaultItemDto)
      → any (λ y. dto_id y == dto_id item) ys ≡ false
      → All
          (λ y. final user target items y.id (f y.id) ≡ some (saved_row user target y (f y.id)))
          ys
      → All
          (λ y.
            final user target (item ∷ items) y.id (f y.id)
            ≡ some (saved_row user target y (f y.id)))
          ys
  final-cons f item items [] d h = tt
  final-cons f item items (y ∷ ys) d h = (
    ground (arith, eq_iff item.id y.id, eq_iff y.id item.id),
    final-cons f item items ys (ground arith) h.1,
  )

  pub final-stores :
      (f : String → Option EncryptedVaultItem) (items : List EncryptedVaultItemDto)
      → Distinct dto_id items
      → All
          (λ y. final user target items y.id (f y.id) ≡ some (saved_row user target y (f y.id)))
          items
  final-stores f [] d = tt
  final-stores f (item ∷ items) d = (
    rw eq_refl (
        final-absent user target item.id items (some (saved_row user target item (f item.id))) d.0),
    final-cons f item items items d.0 (final-stores f items d.1),
  )

  pub final_idem :
      (k : String) (items : List EncryptedVaultItemDto) (o : Option EncryptedVaultItem)
      → Distinct dto_id items
      → final user target items k (final user target items k o) ≡ final user target items k o
  final_idem k [] o d = refl
  final_idem k (item ∷ items) o d = elim (Bool-cases (item.id == k)) [
    | inl here ↦
        let once = saved_row user target item o in
        let only = λ (r : EncryptedVaultItem).
          final-absent user target k items (some r)
            (subst (λ j. any (has_dto_id j) items ≡ false) ((eq_iff item.id k).0 here) d.0) in
        rw (here, only once, saved_row_idem, only once) refl
    | inr other ↦ rw other (final_idem k items o d.1)
  ]

pub older :
    (item : EncryptedVaultItemDto) (o : Option EncryptedVaultItem) (r : EncryptedVaultItem)
    → Accepts item o
    → o ≡ some r
    → r.version ≤ item.version
older item none r h e = cc
older item (some x) r h e = ground arith
