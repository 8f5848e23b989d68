-- ===== src/Common/Repository/Memory.antt =====
-- A repository in memory: a list of rows with distinct keys. It shows that the laws of
-- `Repository` can hold, and the tests and examples run on it. It sorts nothing.
use sentinel_vault.Common.Tests.{if◌then◌else◌, Bool-cases}
use sentinel_vault.Common.Lists.{All, any, find, filter}
use sentinel_vault.Common.Repository.{Repository, keep_unless, patch_if, Distinct}
use mathlib.Core.Path.{◌≡◌, refl, ◌∙◌, subst}
use mathlib.Core.Logic.{inl, inr}
use mathlib.Core.Bool.{Bool, true, false, not}
use mathlib.Core.Option.{Option, none, some}
use mathlib.Core.List.{List, [], ◌∷◌}
use native.Mathlib.Omega.{arith}
use sentinel_vault.Common.Equality.{Eq}

module _ {K : Type 0} ⦃e : Eq K⦄ {Row : Type 0} (key : Row → K) where
  abbrev Rows : Type 0
  Rows = (rows : List Row) × Distinct key rows

  abbrev pub look : List Row → K → Option Row
  look rows k = find (λ r. e.same_key (key r) k) rows

  abbrev upsert : Row → List Row → List Row
  upsert r [] = r ∷ []
  upsert r (x ∷ xs) = if e.same_key (key x) (key r) then r ∷ xs else x ∷ upsert r xs

  abbrev patch_row : (Row → Bool) → (Row → Row) → Row → Row
  patch_row p f x = if p x then (if e.same_key (key (f x)) (key x) then f x else x) else x

  key-patch_row : (p : Row → Bool) (f : Row → Row) (x : Row) → key (patch_row p f x) ≡ key x
  key-patch_row p f x = ground (arith, e.same_key_iff (key (f x)) (key x))

  -- A patch that would change the key is not made.
  abbrev patch : (Row → Bool) → (Row → Row) → List Row → List Row
  patch p f [] = []
  patch p f (x ∷ xs) = patch_row p f x ∷ patch p f xs

  any-upsert :
      (r : Row) (xs : List Row) (k : K)
      → (e.same_key (key r) k) ≡ false
      → any (λ y. e.same_key (key y) k) (upsert r xs) ≡ any (λ y. e.same_key (key y) k) xs
  any-upsert r [] k h = ground arith
  any-upsert r (x ∷ xs) k h = ground (
    arith,
    any-upsert r xs k h,
    e.same_key_iff (key x) (key r),
    e.same_key_iff (key x) k,
    e.same_key_iff (key r) k,
  )

  pub upsert-Distinct : (r : Row) (xs : List Row) → Distinct key xs → Distinct key (upsert r xs)
  upsert-Distinct r [] d = (refl, tt)
  upsert-Distinct r (x ∷ xs) d = elim (Bool-cases (e.same_key (key x) (key r))) [
    | inl same ↦ rw same (rw ((e.same_key_iff (key x) (key r)).0 same) at d.0, d.1)
    | inr other ↦ rw other (
      any-upsert r xs (key x)
            (ground (arith, e.same_key_iff (key x) (key r), e.same_key_iff (key r) (key x)))
          ∙ d.0,
      upsert-Distinct r xs d.1,
    )
  ]

  any-filter : (p q : Row → Bool) (xs : List Row) → any q xs ≡ false → any q (filter p xs) ≡ false
  any-filter p q [] h = refl
  any-filter p q (x ∷ xs) h = ground (arith, any-filter p q xs)

  pub filter-Distinct :
      (p : Row → Bool) (xs : List Row) → Distinct key xs → Distinct key (filter p xs)
  filter-Distinct p [] d = tt
  filter-Distinct p (x ∷ xs) d = elim (Bool-cases (p x)) [
    | inl hit ↦ rw hit (any-filter p _ xs d.0, filter-Distinct p xs d.1)
    | inr miss ↦ rw miss (filter-Distinct p xs d.1)
  ]

  any-patch :
      (p : Row → Bool) (f : Row → Row) (xs : List Row) (k : K)
      → any (λ y. e.same_key (key y) k) (patch p f xs) ≡ any (λ y. e.same_key (key y) k) xs
  any-patch p f [] k = refl
  any-patch p f (x ∷ xs) k = ground (arith, any-patch p f xs k, e.same_key_iff (key (f x)) (key x))

  pub patch-Distinct :
      (p : Row → Bool) (f : Row → Row) (xs : List Row)
      → Distinct key xs
      → Distinct key (patch p f xs)
  patch-Distinct p f [] d = tt
  patch-Distinct p f (x ∷ xs) d =
      (rw (key-patch_row p f x) (any-patch p f xs (key x) ∙ d.0), patch-Distinct p f xs d.1)

  pub look-key : (xs : List Row) (k : K) (r : Row) → look xs k ≡ some r → key r ≡ k
  look-key [] k r h = cc
  look-key (x ∷ xs) k r h = ground (arith, look-key xs k r, e.same_key_iff (key x) k)

  pub look-upsert :
      (r : Row) (xs : List Row) (k : K)
      → look (upsert r xs) k ≡ (if e.same_key (key r) k then some r else look xs k)
  look-upsert r [] k = refl
  look-upsert r (x ∷ xs) k = ground (
    arith,
    look-upsert r xs k,
    e.same_key_iff (key x) (key r),
    e.same_key_iff (key x) k,
    e.same_key_iff (key r) k,
  )

  pub look-patch :
      (p : Row → Bool) (f : Row → Row) (xs : List Row) (k : K)
      → ((r : Row) → key (f r) ≡ key r)
      → look (patch p f xs) k ≡ patch_if p f (look xs k)
  look-patch p f [] k h = refl
  look-patch p f (x ∷ xs) k h = ground (
    arith,
    look-patch p f xs k h,
    h x,
    e.same_key_iff (key (f x)) (key x),
    e.same_key_iff (key x) k,
  )

  look-absent :
      (xs : List Row) (k : K) → any (λ y. e.same_key (key y) k) xs ≡ false → look xs k ≡ none
  look-absent [] k h = refl
  look-absent (x ∷ xs) k h = ground (arith, look-absent xs k)

  -- No other row has the key of the first one.
  look-twin :
      (x : Row) (xs : List Row) (k : K)
      → any (λ y. e.same_key (key y) (key x)) xs ≡ false
      → (e.same_key (key x) k) ≡ true
      → look xs k ≡ none
  look-twin x xs k d same = look-absent xs k (
      subst (λ j. any (λ y. e.same_key (key y) j) xs ≡ false) ((e.same_key_iff (key x) k).0 same) d)

  pub look-reject :
      (p : Row → Bool) (xs : List Row) (k : K)
      → Distinct key xs
      → look (filter (λ r. not (p r)) xs) k ≡ keep_unless p (look xs k)
  look-reject p [] k d = refl
  look-reject p (x ∷ xs) k d = ground (arith, look-reject p xs k d.1, look-twin x xs k d.0)

  pub find-some :
      (p : Row → Bool) (xs : List Row) (r : Row)
      → Distinct key xs
      → find p xs ≡ some r
      → (p r ≡ true) × (look xs (key r) ≡ some r)
  find-some p [] r d h = cc
  find-some p (x ∷ xs) r d h =
      ground
        (arith, find-some p xs r d.1, look-twin x xs (key r) d.0, e.same_key_iff (key x) (key r))

  pub find-none :
      (p : Row → Bool) (xs : List Row) (k : K) (r : Row)
      → find p xs ≡ none
      → look xs k ≡ some r
      → p r ≡ false
  find-none p [] k r h e = cc
  find-none p (x ∷ xs) k r h e = ground (arith, find-none p xs k r)

  weaken :
      (A : Row → Type 0) (x : Row) (xs ys : List Row)
      → any (λ y. e.same_key (key y) (key x)) ys ≡ false
      → All (λ r. A r × (look xs (key r) ≡ some r)) ys
      → All (λ r. A r × (look (x ∷ xs) (key r) ≡ some r)) ys
  weaken A x xs [] h a = tt
  weaken A x xs (y ∷ ys) h a = (
    (a.0.0, ground (arith, e.same_key_iff (key x) (key y), e.same_key_iff (key y) (key x))),
    weaken A x xs ys (ground arith) a.1,
  )

  pub filter_sound :
      (p : Row → Bool) (xs : List Row)
      → Distinct key xs
      → All (λ r. (p r ≡ true) × (look xs (key r) ≡ some r)) (filter p xs)
  filter_sound p [] d = tt
  filter_sound p (x ∷ xs) d = elim (Bool-cases (p x)) [
    | inl hit ↦ rw hit (
      (hit, ground (arith, (e.same_key_iff (key x) (key x)).1 refl)),
      weaken _ x xs _ (any-filter p _ xs d.0) (filter_sound p xs d.1),
    )
    | inr miss ↦ rw miss (weaken _ x xs _ (any-filter p _ xs d.0) (filter_sound p xs d.1))
  ]

  pub filter_complete :
      (p : Row → Bool) (xs : List Row) (k : K) (r : Row)
      → look xs k ≡ some r
      → p r ≡ true
      → any (λ x. e.same_key (key x) k) (filter p xs) ≡ true
  filter_complete p [] k r e h = cc
  filter_complete p (x ∷ xs) k r e h = ground (arith, filter_complete p xs k r)

  abbrev pub memory : Repository Row key
  memory = record {
    Table = Rows;
    at = λ t. look t.0;
    find = λ o p t. filter p t.0;
    find_one = λ p t. find p t.0;
    save = λ r t. (upsert r t.0, upsert-Distinct r t.0 t.1);
    update = λ p f t. (patch p f t.0, patch-Distinct p f t.0 t.1);
    delete = λ p t. (filter (λ r. not (p r)) t.0, filter-Distinct (λ r. not (p r)) t.0 t.1);
    at-key = λ t. look-key t.0;
    at-save = λ r t. look-upsert r t.0;
    at-update = λ p f t. look-patch p f t.0;
    at-delete = λ p t k. look-reject p t.0 k t.1;
    find_one-some = λ p t r. find-some p t.0 r t.1;
    find_one-none = λ p t. find-none p t.0;
    find-sound = λ o p t. filter_sound p t.0 t.1;
    find-complete = λ o p t. filter_complete p t.0;
    find-Distinct = λ o p t. filter-Distinct p t.0 t.1;
  }
