-- ===== src/Sync/Items/Conflicts.antt =====
-- When `push` accepts a batch.
use sentinel_vault.Common.{
  ◌<◌, String, false, ◌≡◌, sym, ◌∙◌, false≢true, ◌≢◌, ◌⊎◌, ◌↔◌, inl, inr, refl, Option, none, some,
  List, [], ◌∷◌, eq_iff, arith, All, Option-cases, Bool-cases,
}
use sentinel_vault.Common.Exec.{ok}
use sentinel_vault.Common.Equality.{string_eq}
use sentinel_vault.Common.Repository.{Repository}
use sentinel_vault.Sync.Items.{
  EncryptedVaultItem, EncryptedVaultItemDto, item_key, conflicts_with, has_id, push_if,
  detect_conflicts, push, finish_push, save_items,
}

-- The server takes the item over the stored row: there is none, or it is older, or it has the same
-- version and the same content.
abbrev pub Accepts : EncryptedVaultItemDto → Option EncryptedVaultItem → Type 0
Accepts item none = Unit
Accepts item (some row) =
    (row.version < item.version)
    ⊎ ((row.version ≡ item.version)
        × (item.encrypted_blob ≡ row.encrypted_blob)
        × (item.nonce ≡ row.nonce)
        × (item.is_deleted ≡ row.is_deleted))

conflicts_with_iff :
    (item : EncryptedVaultItemDto) (o : Option EncryptedVaultItem)
    → (conflicts_with item o ≡ false) ↔ Accepts item o
conflicts_with_iff item none = (λ h. tt, λ h. refl)
conflicts_with_iff item (some row) = (
  λ h. ground (arith, eq_iff item.encrypted_blob row.encrypted_blob, eq_iff item.nonce row.nonce),
  λ h. ground (arith, eq_iff item.encrypted_blob row.encrypted_blob, eq_iff item.nonce row.nonce),
)

push_if-nil :
    (item : EncryptedVaultItemDto) (o : Option EncryptedVaultItem)
    (rest : List EncryptedVaultItemDto)
    → (push_if (conflicts_with item o) o rest ≡ []) ↔ (Accepts item o × (rest ≡ []))
push_if-nil item none rest = (λ h. (tt, h), λ h. h.1)
push_if-nil item (some row) rest = elim (Bool-cases (conflicts_with item (some row))) [
  | inl clash ↦
      rw clash (
        λ h. cc,
        λ h. absurd (false≢true (sym ((conflicts_with_iff item (some row)).1 h.0) ∙ clash)),
      )
  | inr fits ↦ rw fits (λ h. ((conflicts_with_iff item (some row)).0 fits, h), λ h. h.1)
]

module _ (repo : Repository EncryptedVaultItem item_key) where
  open repo use {Table, at, find_one, save, at-key, find_one-some, find_one-none}

  pub find_one-eq-at : (id : String) (t : Table) → find_one (has_id id) t ≡ at t id
  find_one-eq-at id t = elim (Option-cases (find_one (has_id id) t)) [
    | inl missing ↦ elim (Option-cases (at t id)) [
      | inl absent ↦ ground arith
      | inr (row, found) ↦ ground (
        arith,
        find_one-none (has_id id) t id row missing found,
        at-key t id row found,
        eq_iff row.id id,
      )
    ]
    | inr (row, found) ↦ ground (arith, find_one-some (has_id id) t row found, eq_iff row.id id)
  ]

  pub detect_conflicts_iff :
      (items : List EncryptedVaultItemDto) (t : Table)
      → (detect_conflicts repo items t ≡ []) ↔ All (λ item. Accepts item (at t item.id)) items
  unfolding detect_conflicts
  detect_conflicts_iff [] t = (λ h. tt, λ h. refl)
  detect_conflicts_iff (item ∷ items) t = rw (find_one-eq-at item.id t) (
    λ h.
        let (fits, rest) = (push_if-nil item (at t item.id) (detect_conflicts repo items t)).0 h in
        (fits, (detect_conflicts_iff items t).0 rest),
    λ h.
        (push_if-nil item (at t item.id) (detect_conflicts repo items t)).1
          (h.0, (detect_conflicts_iff items t).1 h.1),
  )

  finish_push-cases :
      (user : String) (target : Option String) (items cs : List EncryptedVaultItemDto) (t : Table)
      → ((cs ≡ [])
          × (finish_push repo user target items cs t
              ≡ (ok none, save_items repo user target items t)))
        ⊎ ((cs ≢ []) × (finish_push repo user target items cs t ≡ (ok (some cs), t)))
  unfolding finish_push
  finish_push-cases user target items [] t = inl (refl, refl)
  finish_push-cases user target items (c ∷ cs) t = inr (λ e. cc, refl)

  -- The two outcomes of a push.
  pub push-cases :
      (lower : String → String) (user : String) (items : List EncryptedVaultItemDto)
      (target : Option String) (t : Table)
      → ((detect_conflicts repo items t ≡ [])
          × (push repo lower user items target t
              ≡ (ok none, save_items repo (lower user) target items t)))
        ⊎ ((detect_conflicts repo items t ≢ [])
            × (push repo lower user items target t
                ≡ (ok (some (detect_conflicts repo items t)), t)))
  push-cases lower user items target t =
      unfold push in finish_push-cases (lower user) target items (detect_conflicts repo items t) t

  -- A push goes through exactly if the server accepts every item of the batch over the row that it
  -- stored before the push; if it does not go through, it returns at least one conflict and changes
  -- no row.
  pub push_accepted_iff :
      (lower : String → String) (user : String) (items : List EncryptedVaultItemDto)
      (target : Option String) (t : Table)
      → (((push repo lower user items target t).0 ≡ ok none)
          ↔ All (λ item. Accepts item (at t item.id)) items)
        × (((push repo lower user items target t).0 ≡ ok none)
            ⊎ ((conflicts : List EncryptedVaultItemDto) × (conflicts ≢ [])
                × (push repo lower user items target t ≡ (ok (some conflicts), t))))
  push_accepted_iff lower user items target t = elim (push-cases lower user items target t) [
    | inl (empty, done) ↦
        rw done ((λ _. (detect_conflicts_iff items t).0 empty, λ _. refl), inl refl)
    | inr (clash, done) ↦ rw done (
      (λ h. cc, λ fits. absurd (clash ((detect_conflicts_iff items t).1 fits))),
      inr (detect_conflicts repo items t, clash, refl),
    )
  ]
