-- ===== src/Common/Redis.antt =====
-- The interface of the Redis commands that the services use, a parameter of them: a key holds a
-- value until its time to live is over. `read now k t` is what `GET k` answers at the time `now`, in
-- milliseconds; a time to live is in seconds. The laws are documented behaviour of `SET ... EX` and
-- `DEL`.
use sentinel_vault.Common.Tests.{if◌then◌else◌, ltb}
use mathlib.Core.Path.{◌≡◌, refl}
use mathlib.Core.Option.{Option, none, some}
use mathlib.Core.List.{List, [], ◌∷◌}
use Prim.Native.String.{String}
use Prim.Native.Nat.{ℕ, ◌+◌, ◌*◌}
use native.Mathlib.Omega.{arith}
use text.Mathlib.Text.{◌==◌}
use text.Mathlib.TextEquality.{eq_iff}

pub record Redis (V : Type 0) : Type 1 where
  pub Store : Type 0
  pub read : ℕ → String → Store → Option V
  pub set_ex : ℕ → String → V → ℕ → Store → Store
  pub del : String → Store → Store
  pub read-set_ex :
      (now now' : ℕ) (k j : String) (v : V) (ttl : ℕ) (t : Store)
      → read now' j (set_ex now k v ttl t)
        ≡ (if k == j then (if ltb now' (now + ttl * 1000) then some v else none) else read now' j t)
  pub read-del :
      (now : ℕ) (k j : String) (t : Store)
      → read now j (del k t) ≡ (if k == j then none else read now j t)

-- An instance: the entries with the times at which they end.
abbrev Entries : Type 0 → Type 0
Entries V = List (String × V × ℕ)

module _ {V : Type 0} where
  abbrev read_entry : ℕ → String → Entries V → Option V
  read_entry now j [] = none
  read_entry now j ((k, v, end) ∷ es) =
      let rest = read_entry now j es in
      if k == j then (if ltb now end then some v else none) else rest

  abbrev drop_entry : String → Entries V → Entries V
  drop_entry j [] = []
  drop_entry j ((k, v, end) ∷ es) =
      let rest = drop_entry j es in if k == j then rest else (k, v, end) ∷ rest

  pub read-drop_entry :
      (now : ℕ) (k j : String) (es : Entries V)
      → read_entry now j (drop_entry k es) ≡ (if k == j then none else read_entry now j es)
  read-drop_entry now k j [] = ground arith
  read-drop_entry now k j ((i, v, end) ∷ es) =
      ground (arith, read-drop_entry now k j es, eq_iff i k, eq_iff i j, eq_iff k j)

abbrev pub redis : (V : Type 0) → Redis V
redis V = record {
  Store = Entries V;
  read = read_entry;
  set_ex = λ now k v ttl es. (k, v, now + ttl * 1000) ∷ es;
  del = drop_entry;
  read-set_ex = λ now now' k j v ttl es. refl;
  read-del = read-drop_entry;
}
