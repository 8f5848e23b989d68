-- ===== src/Sync/Items/Pulled.antt =====
-- What `pull` returns.
use sentinel_vault.Common.{
  String, Bool, true, false, false≢true, ◌&&◌, ◌||◌, ◌≡◌, ◌⊎◌, ◌↔◌, inl, inr, refl, sym, subst, ◌∙◌,
  Option, none, some, List, [], ◌∷◌, map, any, eq_iff, arith, All, Bool-cases, ◌==◌, if◌then◌else◌,
}
use sentinel_vault.Common.Text.{is_empty}
use sentinel_vault.Common.Exec.{ok}
use sentinel_vault.Common.Equality.{string_eq}
use sentinel_vault.Common.Repository.{Repository, Distinct, unordered}
use sentinel_vault.Sync.Items.{
  EncryptedVaultItem, EncryptedVaultItemDto, item_key, map_item_to_dto, is_text, in_folders,
  pull_condition, resolve_user, shared_folders, pull,
}

-- The item belongs to the caller, under the e-mail address or under the identifier.
abbrev Mine : String → String → EncryptedVaultItem → Type 0
Mine user uuid row = (row.user_id ≡ user) ⊎ (row.user_id ≡ uuid)

-- The item is in a folder that is shared with the caller.
abbrev SharedWith : List String → EncryptedVaultItem → Type 0
SharedWith shared row = (f : String) × (row.folder_id ≡ some f) × (any (λ g. g == f) shared ≡ true)

-- What a pull may show: of all vaults the caller's items and those in folders shared with the
-- caller; of one vault the caller's items in it, or those in the shared folder of that name.
abbrev pub Visible : String → String → Option String → List String → EncryptedVaultItem → Type 0
Visible user uuid none shared row = Mine user uuid row ⊎ SharedWith shared row
Visible user uuid (some v) shared row =
    if is_empty v
    then Mine user uuid row ⊎ SharedWith shared row
    else (Mine user uuid row × (row.vault_id ≡ some v))
    ⊎ (SharedWith shared row × (row.folder_id ≡ some v))

is_text_iff : (o : Option String) (s : String) → (is_text o s ≡ true) ↔ (o ≡ some s)
is_text_iff none s = (λ h. cc, λ h. cc)
is_text_iff (some t) s = (λ h. ground (arith, eq_iff t s), λ h. ground (arith, eq_iff t s))

any_same :
    (f : String) (shared : List String) → any (is_text (some f)) shared ≡ any (λ g. g == f) shared
any_same f [] = refl
any_same f (g ∷ shared) = ground (arith, any_same f shared, eq_iff f g, eq_iff g f)

none_shared : (shared : List String) → any (is_text none) shared ≡ false
none_shared [] = refl
none_shared (g ∷ shared) = none_shared shared

folder_iff :
    (shared : List String) (o : Option String)
    → (in_folders shared o ≡ true)
      ↔ ((f : String) × (o ≡ some f) × (any (λ g. g == f) shared ≡ true))
folder_iff shared none = (λ h. absurd (false≢true (sym (none_shared shared) ∙ h)), λ (f, e, h). cc)
folder_iff shared (some f) = (
  λ h. (f, refl, sym (any_same f shared) ∙ h),
  λ (g, e, h). any_same f shared ∙ ground (arith, e, h),
)

-- The caller's own item, in either spelling.
caller_iff :
    (user uuid : String) (row : EncryptedVaultItem) (c : Bool)
    → ((row.user_id == user || (row.user_id == uuid || c)) ≡ true)
      ↔ (Mine user uuid row ⊎ (c ≡ true))
caller_iff user uuid row c = (
  λ h. elim (Bool-cases (row.user_id == user)) [
    | inl here ↦ inl (inl ((eq_iff row.user_id user).0 here))
    | inr other ↦ elim (Bool-cases (row.user_id == uuid)) [
      | inl here ↦ inl (inr ((eq_iff row.user_id uuid).0 here))
      | inr stranger ↦ inr (ground arith)
    ]
  ],
  λ h. ground (arith, eq_iff row.user_id user, eq_iff row.user_id uuid),
)

shared_all :
    (user uuid : String) (shared : List String) (row : EncryptedVaultItem)
    → ((row.user_id == user || (row.user_id == uuid || in_folders shared row.folder_id)) ≡ true)
      ↔ (Mine user uuid row ⊎ SharedWith shared row)
shared_all user uuid shared row =
    let mine = caller_iff user uuid row (in_folders shared row.folder_id) in
    let folder = folder_iff shared row.folder_id in
    (
      λ h. elim (mine.0 h) [ inl m ↦ inl m | inr c ↦ inr (folder.0 c) ],
      λ h. mine.1 (elim h [ inl m ↦ inl m | inr c ↦ inr (folder.1 c) ]),
    )

in_one_vault :
    (a b c d e : Bool)
    → ((a && b || (c && b || d && e)) ≡ true)
      ↔ (((b ≡ true) × ((a || (c || false)) ≡ true)) ⊎ ((d ≡ true) × (e ≡ true)))
in_one_vault a b c d e = (λ h. ground arith, λ h. ground arith)

-- A mine-test without an alternative.
or_false : {A : Type 0} → A ⊎ (false ≡ true) → A
or_false (inl a) = a
or_false (inr h) = absurd (false≢true h)

pull_condition_iff :
    (user uuid : String) (vault : Option String) (shared : List String) (row : EncryptedVaultItem)
    → (pull_condition user uuid vault shared row ≡ true) ↔ Visible user uuid vault shared row
unfolding pull_condition
pull_condition_iff user uuid none shared row = shared_all user uuid shared row
pull_condition_iff user uuid (some v) shared row = elim (Bool-cases (is_empty v)) [
  | inl blank ↦ rw blank (shared_all user uuid shared row)
  | inr named ↦ rw named (
      let mine = caller_iff user uuid row false in
      let text = is_text_iff row.vault_id v in
      let folder = is_text_iff row.folder_id v in
      let split =
        in_one_vault (row.user_id == user) (is_text row.vault_id v) (row.user_id == uuid)
          (any (λ f. f == v) shared) (is_text row.folder_id v) in
      (
        λ h. elim (split.0 h) [
          | inl (here, m) ↦ inl (or_false (mine.0 m), text.0 here)
          | inr (known, here) ↦ inr ((v, folder.0 here, known), folder.0 here)
        ],
        λ h. split.1 (elim h [
          | inl (m, here) ↦ inl (text.1 here, mine.1 (inl m))
          | inr ((f, at_f, known), here) ↦ inr (
            subst (λ g. any (λ x. x == g) shared ≡ true) (ground (arith, at_f, here)) known,
            folder.1 here,
          )
        ]),
      ))
]

abbrev pub dto_key : EncryptedVaultItemDto → String
dto_key d = d.id

any-dtos :
    (k : String) (rows : List EncryptedVaultItem)
    → any (λ d. dto_key d == k) (map map_item_to_dto rows) ≡ any (λ r. item_key r == k) rows
any-dtos k [] = refl
any-dtos k (r ∷ rows) = ground (arith, any-dtos k rows)

Distinct-dtos :
    (rows : List EncryptedVaultItem)
    → Distinct item_key rows
    → Distinct dto_key (map map_item_to_dto rows)
Distinct-dtos [] d = tt
Distinct-dtos (r ∷ rows) d = (any-dtos r.id rows ∙ d.0, Distinct-dtos rows d.1)

module _ (repo : Repository EncryptedVaultItem item_key) where
  open repo use {Table, at, find}

  All-dtos :
      (P : EncryptedVaultItem → Type 0) (b : EncryptedVaultItem → Bool) (t : Table)
      (rows : List EncryptedVaultItem)
      → ((r : EncryptedVaultItem) → b r ≡ true → P r)
      → All (λ r. (b r ≡ true) × (at t r.id ≡ some r)) rows
      → All
          (λ d. (r : EncryptedVaultItem) × (at t d.id ≡ some r) × P r × (d ≡ map_item_to_dto r))
          (map map_item_to_dto rows)
  All-dtos P b t [] f h = tt
  All-dtos P b t (r ∷ rows) f h = ((r, h.0.1, f r h.0.0, refl), All-dtos P b t rows f h.1)

  -- A pull returns, and changes nothing. It returns each stored item that the caller may see, once,
  -- with its stored content, and no other item. The caller is known by the e-mail address in lower
  -- case and by the identifier that the query on users gives; where a query throws, the address
  -- stands for the identifier, or no folder is shared.
  pub pull_exact :
      (user_rows : String → Option (List String))
      (shared_rows : String → String → Option (List String)) (lower : String → String)
      (user_id : String) (vault : Option String) (t : Table)
      → let user = lower user_id in
        let uuid = resolve_user user_rows lower user in
        let shared = shared_folders (shared_rows user uuid) in
        (dtos : List EncryptedVaultItemDto) × (pull repo user_rows shared_rows lower user_id vault t
          ≡ (ok dtos, t))
        × Distinct dto_key dtos
        × All
            (λ d.
              (r : EncryptedVaultItem) × (at t d.id ≡ some r)
              × Visible user uuid vault shared r
              × (d ≡ map_item_to_dto r))
            dtos
        × ((k : String) (r : EncryptedVaultItem)
            → at t k ≡ some r
            → Visible user uuid vault shared r
            → any (λ d. dto_key d == k) dtos ≡ true)
  unfolding pull
  pull_exact user_rows shared_rows lower user_id vault t =
      let user = lower user_id in
      let uuid = resolve_user user_rows lower user in
      let shared = shared_folders (shared_rows user uuid) in
      let seen = pull_condition user uuid vault shared in
      (
        map map_item_to_dto (find unordered seen t),
        refl,
        Distinct-dtos (find unordered seen t) (repo.find-Distinct unordered seen t),
        All-dtos (Visible user uuid vault shared) seen t (find unordered seen t)
            (λ r. (pull_condition_iff user uuid vault shared r).0)
            (repo.find-sound unordered seen t),
        λ k r stored visible.
            any-dtos k (find unordered seen t)
            ∙ repo.find-complete unordered seen t k r stored
                ((pull_condition_iff user uuid vault shared r).1 visible),
      )
