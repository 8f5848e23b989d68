-- ===== src/Common/Repository.antt =====
-- The interface of a TypeORM `Repository`, a parameter of every service that keeps its state in
-- the database. `key` reads the primary key of a row. A `where` condition is a test on rows.
-- `at t k` is what the table `t` holds under the primary key `k`. The laws are documented
-- behaviour of a table with a primary key: a primary key identifies a row, `save` inserts or
-- replaces by primary key, `update` and `delete` change exactly the rows that satisfy the
-- condition, and a read returns exactly the stored rows that satisfy it, each once. Which of
-- several rows `find_one` returns is left open, and so is what an order does to ties.
pub mod Memory
use sentinel_vault.Common.Tests.{if◌then◌else◌}
use sentinel_vault.Common.Lists.{All, any}
use mathlib.Core.Path.{◌≡◌}
use mathlib.Core.Bool.{Bool, true, false}
use mathlib.Core.Option
use mathlib.Core.Option.{Option, none, some}
use mathlib.Core.List.{List, [], ◌∷◌}
use Prim.Native.Nat.{ℕ}
use sentinel_vault.Common.Equality.{Eq}

-- The `order` of a query.
pub data Order (Row : Type 0) : Type 0 where
  unordered : Order Row
  ascending descending : (Row → ℕ) → Order Row

abbrev pub keep_unless {ℓ} : {A : Type ℓ} → (A → Bool) → Option A → Option A
keep_unless p none = none
keep_unless p (some a) = if p a then none else some a

abbrev pub patch_if {ℓ} : {A : Type ℓ} → (A → Bool) → (A → A) → Option A → Option A
patch_if p f none = none
patch_if p f (some a) = if p a then some (f a) else some a

-- What `save` leaves in a column of a stored row: the new value, or the old one if the property
-- is `undefined`.
abbrev pub unless_undefined {ℓ} : {A : Type ℓ} → Option A → Option A → Option A
unless_undefined none old = old
unless_undefined (some a) old = some a

-- No two rows of the list have one key.
abbrev pub Distinct {ℓ κ} : {A : Type ℓ} {K : Type κ} ⦃e : Eq K⦄ → (A → K) → List A → Type 0
Distinct ⦃e⦄ key [] = Unit
Distinct ⦃e⦄ key (x ∷ xs) = (any (λ y. e.same_key (key y) (key x)) xs ≡ false) × Distinct key xs

pub record Repository {K : Type 0} ⦃e : Eq K⦄ (Row : Type 0) (key : Row → K) : Type 1 where
  pub Table : Type 0
  pub at : Table → K → Option Row
  pub find : Order Row → (Row → Bool) → Table → List Row
  pub find_one : (Row → Bool) → Table → Option Row
  pub save : Row → Table → Table
  pub update : (Row → Bool) → (Row → Row) → Table → Table
  pub delete : (Row → Bool) → Table → Table
  pub at-key : (t : Table) (k : K) (r : Row) → at t k ≡ some r → key r ≡ k
  pub at-save :
      (r : Row) (t : Table) (k : K)
      → at (save r t) k ≡ (if e.same_key (key r) k then some r else at t k)
  pub at-update :
      (p : Row → Bool) (f : Row → Row) (t : Table) (k : K)
      → ((r : Row) → key (f r) ≡ key r)
      → at (update p f t) k ≡ patch_if p f (at t k)
  pub at-delete : (p : Row → Bool) (t : Table) (k : K) → at (delete p t) k ≡ keep_unless p (at t k)
  pub find_one-some :
      (p : Row → Bool) (t : Table) (r : Row)
      → find_one p t ≡ some r
      → (p r ≡ true) × (at t (key r) ≡ some r)
  pub find_one-none :
      (p : Row → Bool) (t : Table) (k : K) (r : Row)
      → find_one p t ≡ none
      → at t k ≡ some r
      → p r ≡ false
  pub find-sound :
      (o : Order Row) (p : Row → Bool) (t : Table)
      → All (λ r. (p r ≡ true) × (at t (key r) ≡ some r)) (find o p t)
  pub find-complete :
      (o : Order Row) (p : Row → Bool) (t : Table) (k : K) (r : Row)
      → at t k ≡ some r
      → p r ≡ true
      → any (λ x. e.same_key (key x) k) (find o p t) ≡ true
  pub find-Distinct : (o : Order Row) (p : Row → Bool) (t : Table) → Distinct key (find o p t)
