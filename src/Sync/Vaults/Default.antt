-- ===== src/Sync/Vaults/Default.antt =====
-- The default vault of a user, through every request on vaults and keys.
use sentinel_vault.Common.{
  String, Bool, true, false, false≢true, ◌≡◌, ◌⊎◌, inl, inr, refl, sym, ◌∙◌, Option, none, some, [],
  eq_iff, arith, Bool-cases,
}
use sentinel_vault.Common.Equality.{string_eq}
use sentinel_vault.Common.Repository
use sentinel_vault.Common.Repository.{Repository, unordered, ascending, patch_if, keep_unless}
use sentinel_vault.Sync.Vaults.{UserVault, vault_id, owned_by, no_default}

module _ (vault_repo : Repository UserVault vault_id) where
  open vault_repo use {
    Table, at, find, find_one, save, delete, at-key, at-save, at-update, at-delete,
  }
  open vault_repo use {find_one-some, find_one-none, find-complete}

  -- No user has two default vaults.
  abbrev pub OneDefault : Table → Type 0
  OneDefault t =
      (k j : String) (r q : UserVault)
      → at t k ≡ some r
      → at t j ≡ some q
      → r.user_id ≡ q.user_id
      → r.is_default ≡ true
      → q.is_default ≡ true
      → k ≡ j

  -- A default vault of the user of `vault` is stored under the key of `vault`, if at all.
  abbrev pub Fits : UserVault → Table → Type 0
  Fits vault t =
      (k : String) (q : UserVault)
      → at t k ≡ some q
      → q.user_id ≡ vault.user_id
      → vault.is_default ≡ true
      → q.is_default ≡ true
      → k ≡ vault.id

  pub save-OneDefault :
      (vault : UserVault) (t : Table) → Fits vault t → OneDefault t → OneDefault (save vault t)
  save-OneDefault vault t fits one k j r q er eq u dr dq =
      let at_k = at-save vault t k in
      let at_j = at-save vault t j in
      ground (arith, eq_iff vault.id k, eq_iff vault.id j, one k j r q, fits k r, fits j q)

  kept_row :
      (p : UserVault → Bool) (o : Option UserVault) (r : UserVault)
      → keep_unless p o ≡ some r
      → o ≡ some r
  kept_row p none r e = cc
  kept_row p (some a) r e = ground arith

  delete-at :
      (p : UserVault → Bool) (t : Table) (k : String) (r : UserVault)
      → at (delete p t) k ≡ some r
      → at t k ≡ some r
  delete-at p t k r e = kept_row p (at t k) r (sym (at-delete p t k) ∙ e)

  pub delete-OneDefault :
      (p : UserVault → Bool) (t : Table) → OneDefault t → OneDefault (delete p t)
  delete-OneDefault p t one k j r q er eq =
      one k j r q (delete-at p t k r er) (delete-at p t j q eq)

  -- After the default flags of a user are reset, a stored row is either not a default of the
  -- user, or was stored before.
  reset_row :
      (user : String) (o : Option UserVault) (r : UserVault)
      → patch_if (owned_by user) no_default o ≡ some r
      → ((r.user_id ≡ user) × (r.is_default ≡ false)) ⊎ ((o ≡ some r) × (owned_by user r ≡ false))
  reset_row user none r e = cc
  reset_row user (some a) r e = elim (Bool-cases (owned_by user a)) [
    | inl mine ↦ inl (ground (arith, eq_iff a.user_id user))
    | inr other ↦ inr (ground arith)
  ]

  reset-at :
      (user : String) (t : Table) (k : String) (r : UserVault)
      → at (vault_repo.update (owned_by user) no_default t) k ≡ some r
      → ((r.user_id ≡ user) × (r.is_default ≡ false))
        ⊎ ((at t k ≡ some r) × (owned_by user r ≡ false))
  reset-at user t k r e =
      reset_row user (at t k) r (sym (at-update (owned_by user) no_default t k (λ v. refl)) ∙ e)

  pub reset-OneDefault :
      (user : String) (t : Table)
      → OneDefault t
      → OneDefault (vault_repo.update (owned_by user) no_default t)
  reset-OneDefault user t one k j r q er eq u dr dq = elim (reset-at user t k r er) [
    | inl (_, off) ↦ absurd (false≢true (sym off ∙ dr))
    | inr (old, _) ↦ elim (reset-at user t j q eq) [
      | inl (_, off) ↦ absurd (false≢true (sym off ∙ dq))
      | inr (old', _) ↦ one k j r q old old' u dr dq
    ]
  ]

  pub reset-Fits :
      (vault : UserVault) (t : Table)
      → Fits vault (vault_repo.update (owned_by vault.user_id) no_default t)
  reset-Fits vault t k q e u d dq = elim (reset-at vault.user_id t k q e) [
    | inl (_, off) ↦ absurd (false≢true (sym off ∙ dq))
    | inr (_, other) ↦ ground (arith, eq_iff q.user_id vault.user_id)
  ]

  -- A vault that replaces one of the same owner and with the same flag fits.
  pub same-Fits :
      (old vault : UserVault) (t : Table)
      → at t old.id ≡ some old
      → vault.id ≡ old.id
      → vault.user_id ≡ old.user_id
      → vault.is_default ≡ old.is_default
      → OneDefault t
      → Fits vault t
  same-Fits old vault t found i u f one k q e uq d dq =
      one k old.id q old e found (uq ∙ u) dq (sym f ∙ d) ∙ sym i

  pub empty-Fits :
      (o : Repository.Order UserVault) (vault : UserVault) (t : Table)
      → find o (owned_by vault.user_id) t ≡ []
      → Fits vault t
  empty-Fits o vault t none_found k q e u d dq =
      let listed =
        find-complete o (owned_by vault.user_id) t k q e ((eq_iff q.user_id vault.user_id).1 u) in
      absurd (false≢true (rw none_found at listed))
