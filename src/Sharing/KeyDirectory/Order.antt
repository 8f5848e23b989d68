-- ===== src/Sharing/KeyDirectory/Order.antt =====
-- The last row of a query in the order of texts in the database.
use sentinel_vault.Common.{
  String, Bool, true, false, ◌≡◌, ◌⊎◌, inl, inr, refl, subst, Option, none, some, List, [], ◌∷◌,
  All, any, arith, Bool-cases,
}
use sentinel_vault.Common.Equality.{string_eq, pair_eq}
use sentinel_vault.Sharing.KeyDirectory.Handlers.{last_row, later}

-- What is needed of the order of texts in the database.
pub record IsTextOrder (is_before : String → String → Bool) : Type 0 where
  pub asymmetric : (a b : String) → is_before a b ≡ true → is_before b a ≡ false
  pub not_between :
      (a b c : String) → is_before a b ≡ false → is_before b c ≡ false → is_before a c ≡ false

abbrev Later :
    {Row : Type 0} → (String → String → Bool) → (Row → String) → Row → Option Row → Row → Type 0
Later {Row} is_before column x o r =
    ((o ≡ none) × (x ≡ r))
    ⊎ ((q : Row) × (o ≡ some q)
        × (((is_before (column x) (column q) ≡ true) × (q ≡ r))
            ⊎ ((is_before (column x) (column q) ≡ false) × (x ≡ r))))

module _ {Row : Type 0} (is_before : String → String → Bool) (column : Row → String) where
  later-Later :
      (x : Row) (o : Option Row) (r : Row)
      → later is_before column x o ≡ some r
      → Later is_before column x o r
  later-Later x none r h = inl (refl, cc)
  later-Later x (some q) r h = elim (Bool-cases (is_before (column x) (column q))) [
    | inl before ↦ inr (q, refl, inl (before, ground (arith, before, h)))
    | inr after ↦ inr (q, refl, inr (after, ground (arith, after, h)))
  ]

  -- A list with a row has a last one.
  pub last_row-none : (x : Row) (rows : List Row) → last_row is_before column (x ∷ rows) ≡ none → ⊥
  unfolding last_row
  last_row-none x rows h = go (last_row is_before column rows) h
    where
      go : (o : Option Row) → later is_before column x o ≡ none → ⊥
      go none h = cc
      go (some q) h = ground arith

  pub last_row-All :
      (P : Row → Type 0) (rows : List Row) (r : Row)
      → All P rows
      → last_row is_before column rows ≡ some r
      → P r
  unfolding last_row
  last_row-All P [] r all h = cc
  last_row-All P (x ∷ rows) r all h = elim (later-Later x (last_row is_before column rows) r h) [
    | inl (e, same) ↦ subst P same all.0
    | inr (q, e, inl (before, same)) ↦ subst P same (last_row-All P rows q all.1 e)
    | inr (q, e, inr (after, same)) ↦ subst P same all.0
  ]

  not_before-All :
      (a b : String) (rows : List Row)
      → IsTextOrder is_before
      → is_before a b ≡ false
      → All (λ q. is_before b (column q) ≡ false) rows
      → All (λ q. is_before a (column q) ≡ false) rows
  not_before-All a b [] order h all = tt
  not_before-All a b (q ∷ rows) order h all =
      (order.not_between a b (column q) h all.0, not_before-All a b rows order h all.1)

  self_last : (a : String) → IsTextOrder is_before → is_before a a ≡ false
  self_last a order = elim (Bool-cases (is_before a a)) [
    | inl yes_ ↦ order.asymmetric a a yes_
    | inr no_ ↦ no_
  ]

  pub nothing_left :
      (rows : List Row) → last_row is_before column rows ≡ none → (P : Row → Type 0) → All P rows
  nothing_left [] h P = tt
  nothing_left (x ∷ rows) h P = absurd (last_row-none x rows h)

  -- No row of the list comes after the last row.
  pub last_row-last :
      (rows : List Row) (r : Row)
      → IsTextOrder is_before
      → last_row is_before column rows ≡ some r
      → All (λ q. is_before (column r) (column q) ≡ false) rows
  unfolding last_row
  last_row-last [] r order h = tt
  last_row-last (x ∷ rows) r order h = elim (later-Later x (last_row is_before column rows) r h) [
    | inl (e, same) ↦
        subst (λ y. All (λ q. is_before (column y) (column q) ≡ false) (x ∷ rows)) same
          (self_last (column x) order, nothing_left rows e _)
    | inr (q, e, inl (before, same)) ↦
        subst (λ y. All (λ z. is_before (column y) (column z) ≡ false) (x ∷ rows)) same
          (order.asymmetric (column x) (column q) before, last_row-last rows q order e)
    | inr (q, e, inr (after, same)) ↦
        subst (λ y. All (λ z. is_before (column y) (column z) ≡ false) (x ∷ rows)) same
          (
            self_last (column x) order,
            not_before-All (column x) (column q) rows order after (last_row-last rows q order e),
          )
  ]

  pub listed :
      (rows : List Row) (key : Row → String × (String × String)) (P : Row → Type 0)
      (k : String × (String × String))
      → All P rows
      → any (λ x. pair_eq.same_key (key x) k) rows ≡ true
      → (r : Row) × P r × (key r ≡ k)
  listed [] key P k all h = cc
  listed (x ∷ rows) key P k all h = elim (Bool-cases (pair_eq.same_key (key x) k)) [
    | inl same ↦ (x, all.0, (pair_eq.same_key_iff (key x) k).0 same)
    | inr other ↦ listed rows key P k all.1 (rw other at h)
  ]
