-- ===== src/Analysis/Breaches/Stored.antt =====
-- What an insertion leaves in the table of breaches.
use sentinel_vault.Common.{
  ℕ, String, true, ◌≡◌, refl, sym, subst, inl, inr, List, [], ◌∷◌, All, is_some, eq_refl,
  Bool-cases,
}
use sentinel_vault.Common.Equality.{string_eq, pair_eq}
use sentinel_vault.Analysis.Breaches.{
  BreachService, BreachEntry, BreachRow, row_key, source_of, new_row, insert_new,
}

module _ (service : BreachService) where
  open service use {opt_ins, entries}

  abbrev pub Stored : String → BreachEntry → entries.Table → Type 0
  Stored hash b t = is_some (entries.at t (hash, source_of b)) ≡ true

  save-Stored :
      (row : BreachRow) (hash : String) (b : BreachEntry) (t : entries.Table)
      → Stored hash b t
      → Stored hash b (entries.save row t)
  save-Stored row hash b t h =
      elim (Bool-cases (pair_eq.same_key (row_key row) (hash, source_of b))) [
        | inl same ↦ rw (entries.at-save row t (hash, source_of b)) (rw same refl)
        | inr other ↦ rw (entries.at-save row t (hash, source_of b)) (rw other h)
      ]

  pub insert_new-Stored :
      (now : ℕ) (user hash : String) (incoming : List BreachEntry) (b : BreachEntry)
      (t : entries.Table)
      → Stored hash b t
      → Stored hash b (insert_new service now user incoming t).1
  unfolding insert_new
  insert_new-Stored now user hash [] b t h = h
  insert_new-Stored now user hash (x ∷ incoming) b t h =
      elim (Bool-cases (is_some (entries.at t (user, source_of x)))) [
        | inl there ↦ rw there (insert_new-Stored now user hash incoming b t h)
        | inr missing ↦ rw missing (
            insert_new-Stored now user hash incoming b (entries.save (new_row now user x) t)
              (save-Stored (new_row now user x) hash b t h))
      ]

  saved-Stored :
      (now : ℕ) (hash : String) (b : BreachEntry) (t : entries.Table)
      → Stored hash b (entries.save (new_row now hash b) t)
  saved-Stored now hash b t =
      rw (entries.at-save (new_row now hash b) t (hash, source_of b)) (rw eq_refl (rw eq_refl refl))

  pub inserted-Stored :
      (now : ℕ) (hash : String) (incoming : List BreachEntry) (t : entries.Table)
      → All (λ b. Stored hash b (insert_new service now hash incoming t).1) incoming
  unfolding insert_new
  inserted-Stored now hash [] t = tt
  inserted-Stored now hash (b ∷ incoming) t =
      elim (Bool-cases (is_some (entries.at t (hash, source_of b)))) [
        | inl there ↦
            let e : (insert_new service now hash (b ∷ incoming) t).1
                ≡ (insert_new service now hash incoming t).1 =
              rw there refl in
            subst (λ u. All (λ x. Stored hash x u) (b ∷ incoming)) (sym e)
              (
                insert_new-Stored now hash hash incoming b t there,
                inserted-Stored now hash incoming t,
              )
        | inr missing ↦
            let t' = entries.save (new_row now hash b) t in
            let e : (insert_new service now hash (b ∷ incoming) t).1
                ≡ (insert_new service now hash incoming t').1 =
              rw missing refl in
            subst (λ u. All (λ x. Stored hash x u) (b ∷ incoming)) (sym e)
              (
                insert_new-Stored now hash hash incoming b t' (saved-Stored now hash b t),
                inserted-Stored now hash incoming t',
              )
      ]

  pub Stored-insert_new :
      (now : ℕ) (hash : String) (incoming : List BreachEntry) (t : entries.Table)
      → All (λ b. Stored hash b t) incoming
      → insert_new service now hash incoming t ≡ ([], t)
  unfolding insert_new
  Stored-insert_new now hash [] t h = refl
  Stored-insert_new now hash (b ∷ incoming) t h = rw h.0 (Stored-insert_new now hash incoming t h.1)
