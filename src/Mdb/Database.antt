-- ===== src/Mdb/Database.antt =====
-- include/quekka/Quekka_mdb.hpp, `Quekka_mdb`: tables of any record types under names. The tables are
-- on a heap, and a reference to one is its address. `fresh` is the address that `make_unique` gets.
pub mod Laws
pub mod Sound
pub mod Reference
pub mod Reach
pub mod Tests
use tiny_mon.Base.{
  ℕ, ◌≡◌, refl, ap, subst, Bool, true, false, if◌then◌else◌, ◌==◌, Option, none, some, List, [],
}
use tiny_mon.Mdb.Key.{Key}
use tiny_mon.Mdb.Columns.Map.{lookup, emplace, remove}
use tiny_mon.Mdb.Table
use tiny_mon.Mdb.Table.{Table, Future, new_table}

-- The record types that a program uses, with their keys, values and callbacks, and the names of tables.
-- `blank` is `value_type{}`.
pub record Schema : Type 1 where
  pub RecordType : Type 0
  pub same_type : Discrete RecordType
  pub KeyType : RecordType → Type 0
  pub ValueType : RecordType → Type 0
  pub CallbackType : RecordType → Type 0
  pub key : (r : RecordType) → Key (KeyType r)
  pub blank : (r : RecordType) → ValueType r
  pub Name : Type 0
  pub name_key : Key Name

-- What a call of `get_table` comes to; `fault` is an access to a table that is not there.
pub data Result (A : Type 0) : Type 0 where
  returned : A → Result A
  threw : Result A
  fault : Result A

module _ (sc : Schema) where
  open sc use {RecordType, KeyType, ValueType, CallbackType, Name}

  abbrev pub TableOf : RecordType → Type 0
  TableOf r = Table (CallbackType r) (KeyType r) (ValueType r)

  -- A table with its dynamic type.
  pub record Stored : Type 0 where
    pub type : RecordType
    pub table : TableOf type

  pub record Mdb : Type 0 where
    pub tables : List (Name × ℕ)
    pub cell : ℕ → Option Stored

  abbrev pub empty : Mdb
  empty = record { tables = []; cell = λ a. none }

  abbrev pub named : Mdb → Name → Option ℕ
  named db name = lookup ⦃key = sc.name_key⦄ db.tables name

  unfoldable pub update : (ℕ → Option Stored) → ℕ → Option Stored → ℕ → Option Stored
  update cell a c a' = if a == a' then c else cell a'

  abbrev pub cast_by : (st : Stored) (r : RecordType) → Dec (st.type ≡ r) → Option (TableOf r)
  cast_by st r (yes e) = some (subst TableOf e st.table)
  cast_by st r (no ne) = none

  -- `dynamic_cast`.
  unfoldable pub cast : (r : RecordType) → Stored → Option (TableOf r)
  cast r st = cast_by st r (sc.same_type st.type r)

  -- `get_table` at the address that the name has, if any.
  unfoldable pub get_at :
      (r : RecordType)
      → Name
      → Option (CallbackType r)
      → (fresh : ℕ) → Mdb
      → Option ℕ
      → Result ℕ × Mdb
  unfolding update cast
  get_at r name cb fresh db none = (
    returned fresh,
    record {
      tables = emplace ⦃key = sc.name_key⦄ db.tables name fresh;
      cell = update db.cell fresh (some (record { type = r; table = new_table cb }));
    },
  )
  get_at r name cb fresh db (some a) = elim (db.cell a) [
    | none ↦ (fault, db)
    | some st ↦ elim (cast r st) [ none ↦ (threw, db) | some t ↦ (returned a, db) ]
  ]

  unfoldable pub get_table :
      (r : RecordType) → Name → Option (CallbackType r) → (fresh : ℕ) → Mdb → Result ℕ × Mdb
  unfolding get_at
  get_table r name cb fresh db = get_at r name cb fresh db (named db name)

  unfoldable pub has_table : Mdb → Name → Bool
  has_table db name = elim (named db name) [ none ↦ false | some a ↦ true ]

  unfoldable pub drop_at : Mdb → Name → Option ℕ → Bool × Mdb
  unfolding update
  drop_at db name none = (false, db)
  drop_at db name (some a) = (
    true,
    record { tables = remove ⦃key = sc.name_key⦄ db.tables name; cell = update db.cell a none },
  )

  unfoldable pub drop_table : Mdb → Name → Bool × Mdb
  unfolding drop_at
  drop_table db name = drop_at db name (named db name)

  -- The table that a `table<r> &` refers to, if it is there.
  unfoldable pub deref : (r : RecordType) → (address : ℕ) → Mdb → Option (TableOf r)
  unfolding cast
  deref r a db = elim (db.cell a) [ none ↦ none | some st ↦ cast r st ]

  abbrev pub Change : RecordType → Type 0
  Change r = TableOf r → Future (CallbackType r) (KeyType r) (ValueType r) × TableOf r

  -- A change of the table that a reference refers to.
  unfoldable pub change :
      (r : RecordType)
      → (address : ℕ) → Mdb
      → Change r
      → Result (Future (CallbackType r) (KeyType r) (ValueType r) × Mdb)
  unfolding deref update
  change r a db f = elim (deref r a db) [
    | none ↦ fault
    | some t ↦
        let (future, t') = f t in
        returned
          (future, record db { cell = update db.cell a (some (record { type = r; table = t' })) })
  ]

  -- `get_table(...).upsert(...)` and `get_table(...).erase(...)`, where the reference is kept.
  abbrev pub upsert :
      (r : RecordType)
      → (address : ℕ) → KeyType r
      → ValueType r
      → Mdb
      → Result (Future (CallbackType r) (KeyType r) (ValueType r) × Mdb)
  upsert r a k v db = change r a db (λ t. Table.upsert ⦃key = sc.key r⦄ (sc.blank r) t k v)

  abbrev pub erase :
      (r : RecordType)
      → (address : ℕ) → KeyType r
      → Mdb
      → Result (Future (CallbackType r) (KeyType r) (ValueType r) × Mdb)
  erase r a k db = change r a db (λ t. Table.erase ⦃key = sc.key r⦄ (sc.blank r) t k)

  -- `get` through a reference: whether there is a row, and `out`.
  unfoldable pub get :
      (r : RecordType) (address : ℕ)
      → KeyType r
      → (out : ValueType r) → Mdb
      → Result (Bool × ValueType r)
  unfolding deref
  get r a k out db = elim (deref r a db) [
    | none ↦ fault
    | some t ↦ returned (Table.get ⦃key = sc.key r⦄ t k out)
  ]
