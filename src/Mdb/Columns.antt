-- ===== src/Mdb/Columns.antt =====
-- include/quekka/Quekka_mdb.hpp, `columns`: one row for each key, in an unordered map. The map is a
-- list of its entries, and a value that is returned by reference is passed in and out.
pub mod Map
pub mod Laws
use tiny_mon.Base.{Bool, true, false, Option, none, some, List}
use tiny_mon.Mdb.Key.{Key}
use tiny_mon.Mdb.Columns.Map.{lookup, emplace, assign, remove}

-- What `upsert` leaves: its result, `is_create`, `before` and the map.
pub record Upserted {ℓ} (K V : Type ℓ) : Type ℓ where
  pub result : Bool
  pub is_create : Bool
  pub before : V
  pub rows : List (K × V)

module _ {ℓ} {K V : Type ℓ} ⦃key : Key K⦄ where
  unfoldable pub has : List (K × V) → K → Bool
  unfolding lookup
  has rows k = elim (lookup rows k) [ none ↦ false | some v ↦ true ]

  -- Whether the key is there, and `out`.
  unfoldable pub get : List (K × V) → K → (out : V) → Bool × V
  unfolding lookup
  get rows k out = elim (lookup rows k) [ none ↦ (false, out) | some v ↦ (true, v) ]

  -- `blank` is `value_type{}`.
  unfoldable pub upsert : (blank : V) → List (K × V) → K → V → Upserted K V
  unfolding lookup emplace assign
  upsert blank rows k v = elim (lookup rows k) [
    | none ↦ record { result = true; is_create = true; before = blank; rows = emplace rows k v }
    | some old ↦ record { result = true; is_create = false; before = old; rows = assign rows k v }
  ]

  -- Whether the key was there, `before` and the map.
  unfoldable pub erase : List (K × V) → K → (before : V) → Bool × V × List (K × V)
  unfolding lookup remove
  erase rows k before = elim (lookup rows k) [
    | none ↦ (false, before, rows)
    | some old ↦ (true, old, remove rows k)
  ]
