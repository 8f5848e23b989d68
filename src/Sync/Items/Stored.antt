-- ===== src/Sync/Items/Stored.antt =====
-- What `push` leaves in the table.
use sentinel_vault.Common.{
  ◌≤◌, String, false, ◌≡◌, inl, inr, refl, sym, ◌∙◌, ap, Option, none, some, List, [], ◌∷◌, eq_iff,
  arith, All, any, Option-cases, Bool-cases, ◌==◌, if◌then◌else◌,
}
use sentinel_vault.Common.Exec.{ok}
use sentinel_vault.Common.Equality.{string_eq}
use sentinel_vault.Common.Repository.{Repository, Distinct}
use sentinel_vault.Sync.Items.{
  EncryptedVaultItem, EncryptedVaultItemDto, item_key, has_id, saved_row, push, save_items,
}
use sentinel_vault.Sync.Items.Conflicts.{
  Accepts, find_one-eq-at, detect_conflicts_iff, push-cases, push_accepted_iff,
}
use sentinel_vault.Sync.Items.Final.{
  has_dto_id, dto_id, final, Follows, Carries, row_content, saved_row-id, final-Follows,
  final-absent, saved_row-Accepts, final-stores, final_idem, older,
}

module _ (repo : Repository EncryptedVaultItem item_key) where
  open repo use {Table, at, save, find_one, at-save, at-key}

  module _ (user : String) (target : Option String) where
    at-save_one :
        (item : EncryptedVaultItemDto) (t : Table) (k : String)
        → at (save (saved_row user target item (find_one (has_id item.id) t)) t) k
          ≡ (if item.id == k then some (saved_row user target item (at t k)) else at t k)
    at-save_one item t k =
        rw
          (
            find_one-eq-at repo item.id t,
            at-save,
            saved_row-id user target item (at t item.id) (at-key t item.id),
          )
          (elim (Bool-cases (item.id == k)) [
            | inl here ↦ rw (here, (eq_iff item.id k).0 here) refl
            | inr other ↦ rw other refl
          ])

    at-save_items :
        (items : List EncryptedVaultItemDto) (t : Table) (k : String)
        → at (save_items repo user target items t) k ≡ final user target items k (at t k)
    unfolding save_items
    at-save_items [] t k = refl
    at-save_items (item ∷ items) t k =
        at-save_items items _ k ∙ ap (final user target items k) (at-save_one item t k)

  -- An accepted batch holds no version of an item that is older than the stored one.
  accepted_versions :
      (k : String) (t : Table) (r : EncryptedVaultItem) (items : List EncryptedVaultItemDto)
      → at t k ≡ some r
      → All (λ item. Accepts item (at t item.id)) items
      → All (λ item. item.id ≡ k → r.version ≤ item.version) items
  accepted_versions k t r [] e h = tt
  accepted_versions k t r (item ∷ items) e h =
      (λ same. older item (at t item.id) r h.0 (rw same e), accepted_versions k t r items e h.1)

  -- No push removes a stored item, moves it to another owner, or lowers its version, whatever its
  -- batch holds and whoever sends it.
  pub push-Follows :
      (lower : String → String) (user : String) (items : List EncryptedVaultItemDto)
      (target : Option String) (t : Table) (k : String)
      → Follows (at t k) (at (push repo lower user items target t).1 k)
  push-Follows lower user items target t k = elim (Option-cases (at t k)) [
    | inl absent ↦ rw absent tt
    | inr (r, found) ↦ elim (push-cases repo lower user items target t) [
      | inl (empty, done) ↦
          rw (done, at-save_items, found)
            (final-Follows (lower user) target k items r r (refl, refl, omega arith)
              (accepted_versions k t r items found ((detect_conflicts_iff repo items t).0 empty)))
      | inr (clash, done) ↦ rw (done, found) (refl, refl, omega arith)
    ]
  ]

  push_rows :
      (lower : String → String) (user : String) (items : List EncryptedVaultItemDto)
      (target : Option String) (t : Table)
      → (push repo lower user items target t).0 ≡ ok none
      → Distinct dto_id items
      → All
          (λ item.
            at (push repo lower user items target t).1 item.id
            ≡ some (saved_row (lower user) target item (at t item.id)))
          items
        × ((k : String)
            → any (has_dto_id k) items ≡ false
            → at (push repo lower user items target t).1 k ≡ at t k)
  push_rows lower user items target t accepted d =
      elim (push-cases repo lower user items target t) [
        | inl (empty, done) ↦ rw done (
          simp (at-save_items (lower user) target)
              (final-stores (lower user) target (at t) items d),
          λ k absent.
              at-save_items (lower user) target items t k
              ∙ final-absent (lower user) target k items (at t k) absent,
        )
        | inr (clash, done) ↦ cc
      ]

  carried :
      (user : String) (target : Option String) (t t' : Table) (items : List EncryptedVaultItemDto)
      → All (λ item. at t' item.id ≡ some (saved_row user target item (at t item.id))) items
      → All (λ item. Carries user item (at t item.id) (at t' item.id)) items
  carried user target t t' [] h = tt
  carried user target t t' (item ∷ items) h = (
    row_content user target item (at t item.id) (at t' item.id) h.0,
    carried user target t t' items h.1,
  )

  -- After a push that went through, of a batch without two items of one identifier: each item of
  -- the batch is stored with its content and version, under the owner that it had, or under the
  -- caller if it is new; and no other item has changed.
  pub push_stores :
      (lower : String → String) (user : String) (items : List EncryptedVaultItemDto)
      (target : Option String) (t : Table)
      → (push repo lower user items target t).0 ≡ ok none
      → Distinct dto_id items
      → All
          (λ item.
            Carries
              (lower user)
              item
              (at t item.id)
              (at (push repo lower user items target t).1 item.id))
          items
        × ((k : String)
            → any (has_dto_id k) items ≡ false
            → at (push repo lower user items target t).1 k ≡ at t k)
  push_stores lower user items target t accepted d =
      let (rows, others) = push_rows lower user items target t accepted d in
      (carried (lower user) target t (push repo lower user items target t).1 items rows, others)

  at-push :
      (lower : String → String) (user : String) (items : List EncryptedVaultItemDto)
      (target : Option String) (t : Table) (k : String)
      → (push repo lower user items target t).0 ≡ ok none
      → at (push repo lower user items target t).1 k ≡ final (lower user) target items k (at t k)
  at-push lower user items target t k accepted = elim (push-cases repo lower user items target t) [
    | inl (empty, done) ↦ rw done (at-save_items (lower user) target items t k)
    | inr (clash, done) ↦ cc
  ]

  stored-Accepts :
      (user : String) (target : Option String) (t t' : Table) (items : List EncryptedVaultItemDto)
      → All (λ item. at t' item.id ≡ some (saved_row user target item (at t item.id))) items
      → All (λ item. Accepts item (at t' item.id)) items
  stored-Accepts user target t t' [] h = tt
  stored-Accepts user target t t' (item ∷ items) h = (
    rw h.0 (saved_row-Accepts user target item (at t item.id)),
    stored-Accepts user target t t' items h.1,
  )

  -- A client may retry: pushing a batch without two items of one identifier again, after it went
  -- through, goes through, and changes no item.
  pub push_retry :
      (lower : String → String) (user : String) (items : List EncryptedVaultItemDto)
      (target : Option String) (t : Table)
      → (push repo lower user items target t).0 ≡ ok none
      → Distinct dto_id items
      → let t' = (push repo lower user items target t).1 in
        let (again, t'') = push repo lower user items target t' in
        (again ≡ ok none) × ((k : String) → at t'' k ≡ at t' k)
  push_retry lower user items target t accepted d =
      let t' = (push repo lower user items target t).1 in
      let stored = (push_rows lower user items target t accepted d).0 in
      let again =
        (push_accepted_iff repo lower user items target t').0.1
          (stored-Accepts (lower user) target t t' items stored) in
      (
        again,
        λ k.
            at-push lower user items target t' k again
            ∙ ap (final (lower user) target items k) (at-push lower user items target t k accepted)
            ∙ final_idem (lower user) target k items (at t k) d
            ∙ sym (at-push lower user items target t k accepted),
      )
