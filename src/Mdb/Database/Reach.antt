-- ===== src/Mdb/Database/Reach.antt =====
-- What programs that use include/quekka/Quekka_mdb.hpp can reach.
use tiny_mon.Base.{ℕ, ◌≡◌, ◌≢◌, refl, sym, ap, ◌∙◌, true, false, Option, none, some}
use tiny_mon.Mdb.Columns.Map.{remove, lookup-remove, put_same, put_other}
use tiny_mon.Mdb.Table.{Future}
use tiny_mon.Mdb.Table.Calls.{upsert_op, erase_op, call-Shows}
use tiny_mon.Mdb.Database.{
  Schema, returned, fault, Mdb, empty, named, update, get_at, get_table, has_table, drop_at,
  drop_table, deref, Change, change, upsert, erase, get,
}
use tiny_mon.Mdb.Database.Laws.{update_same, update_other, get_at_other, get_at_same}
use tiny_mon.Mdb.Database.Reference.{deref_freed, deref_stored, change_missing, change-Sound}
use tiny_mon.Mdb.Database.Sound.{Sound, empty-Sound, created-Sound, dropped-Sound}

module _ (sc : Schema) where
  open sc use {RecordType, KeyType, ValueType, CallbackType, Name}

  get_at-Sound :
      (r : RecordType) (name : Name) (cb : Option (CallbackType r)) (fresh : ℕ) (db : Mdb sc)
      → db.cell fresh ≡ none
      → Sound sc db
      → (o : Option ℕ) → named sc db name ≡ o
      → Sound sc (get_at sc r name cb fresh db o).1 × ((get_at sc r name cb fresh db o).0 ≢ fault)
  unfolding get_at
  get_at-Sound r name cb fresh db unused h none e =
      (created-Sound sc r name cb fresh db unused e h, λ bad. cc)
  get_at-Sound r name cb fresh db unused h (some a) e =
      let (st, at) = h.stored name a e in
      elim (sc.same_type st.type r) [
        | no ne ↦ rw (get_at_other sc r name cb fresh db a st at ne) (h, λ bad. cc)
        | yes same ↦ rw (get_at_same sc r name cb fresh db a st at same) (h, λ bad. cc)
      ]

  drop_at-Sound :
      (name : Name) (db : Mdb sc) (o : Option ℕ)
      → named sc db name ≡ o
      → Sound sc db
      → Sound sc (drop_at sc db name o).1
  unfolding drop_at
  drop_at-Sound name db none e h = h
  drop_at-Sound name db (some a) e h = dropped-Sound sc name a db e h

-- The states that the calls of a program reach. A new table gets an address that is not in use, and
-- a call through a reference to a table that is gone, or of another type, leads nowhere.
pub data Reach (sc : Schema) : Mdb sc → Type 0 where
  start : Reach sc (empty sc)
  gets :
      {db : Mdb sc} (r : sc.RecordType) (name : sc.Name) (cb : Option (sc.CallbackType r))
      (fresh : ℕ)
      → db.cell fresh ≡ none
      → Reach sc db
      → Reach sc (get_table sc r name cb fresh db).1
  drops : {db : Mdb sc} (name : sc.Name) → Reach sc db → Reach sc (drop_table sc db name).1
  upserts :
      {db db' : Mdb sc} (r : sc.RecordType) (a : ℕ) (k : sc.KeyType r) (v : sc.ValueType r)
      {future : Future (sc.CallbackType r) (sc.KeyType r) (sc.ValueType r)}
      → upsert sc r a k v db ≡ returned (future, db')
      → Reach sc db
      → Reach sc db'
  erases :
      {db db' : Mdb sc} (r : sc.RecordType) (a : ℕ) (k : sc.KeyType r)
      {future : Future (sc.CallbackType r) (sc.KeyType r) (sc.ValueType r)}
      → erase sc r a k db ≡ returned (future, db')
      → Reach sc db
      → Reach sc db'

module _ (sc : Schema) where
  -- Whatever tables a program gets, drops and changes, each name has a table of its own that is on the
  -- heap, no name has two entries, and no key has two rows in a table.
  pub Reach-Sound : {db : Mdb sc} → Reach sc db → Sound sc db
  unfolding get_table drop_table
  Reach-Sound start = empty-Sound sc
  Reach-Sound (gets {db} r name cb fresh unused reach) =
      (get_at-Sound sc r name cb fresh db unused (Reach-Sound reach) (named sc db name) refl).0
  Reach-Sound (drops {db} name reach) =
      drop_at-Sound sc name db (named sc db name) refl (Reach-Sound reach)
  Reach-Sound (upserts {db} {db'} r a k v {future} e reach) =
      change-Sound sc r a db _ future db'
        (λ t u.
          (call-Shows ⦃key = sc.key r⦄ (sc.blank r) t.callback _ (upsert_op k v) t
            (record { callback = refl; maps = refl; unique = u })).unique)
        e (Reach-Sound reach)
  Reach-Sound (erases {db} {db'} r a k {future} e reach) =
      change-Sound sc r a db _ future db'
        (λ t u.
          (call-Shows ⦃key = sc.key r⦄ (sc.blank r) t.callback _ (erase_op k) t
            (record { callback = refl; maps = refl; unique = u })).unique)
        e (Reach-Sound reach)

  -- `get_table` in a program always returns a reference or throws: it never meets a table that is gone.
  pub get_table_safe :
      {db : Mdb sc} (r : sc.RecordType) (name : sc.Name) (cb : Option (sc.CallbackType r))
      (fresh : ℕ)
      → Reach sc db
      → db.cell fresh ≡ none
      → (get_table sc r name cb fresh db).0 ≢ fault
  unfolding get_table
  get_table_safe {db} r name cb fresh reach unused =
      (get_at-Sound sc r name cb fresh db unused (Reach-Sound reach) (named sc db name) refl).1

  -- A reference to a table dangles when the table is dropped: the name is gone, each call through the
  -- reference is a fault, whatever type it has, be it a change, as `upsert` and `erase` are, or `get`, and
  -- the tables of all other names stay as they are, also for the references to them.
  pub drop_table_dangles :
      {db : Mdb sc} (name : sc.Name) (a : ℕ)
      → Reach sc db
      → named sc db name ≡ some a
      → (db' : Mdb sc) × (drop_table sc db name ≡ (true, db'))
        × (has_table sc db' name ≡ false)
        × ((r : sc.RecordType) (f : Change sc r) → change sc r a db' f ≡ fault)
        × ((r : sc.RecordType) (k : sc.KeyType r) (out : sc.ValueType r)
            → get sc r a k out db' ≡ fault)
        × ((r : sc.RecordType) (n : sc.Name) (a' : ℕ)
            → name ≢ n
            → named sc db n ≡ some a'
            → (named sc db' n ≡ some a') × (deref sc r a' db' ≡ deref sc r a' db))
  unfolding drop_table drop_at has_table get
  drop_table_dangles {db} name a reach has_name =
      let h = Reach-Sound reach in
      let db' : Mdb sc = record {
        tables = remove ⦃key = sc.name_key⦄ db.tables name;
        cell = update sc db.cell a none;
      } in
      let gone : named sc db' name ≡ none =
        lookup-remove ⦃key = sc.name_key⦄ db.tables name name h.unique
        ∙ put_same ⦃key = sc.name_key⦄ name none _ in
      (
        db',
        rw has_name refl,
        rw (has_table, gone) refl,
        λ r f. change_missing sc r a db' f (deref_freed sc r a db' (update_same sc db.cell a none)),
        λ r k out. rw (get, deref_freed sc r a db' (update_same sc db.cell a none)) refl,
        λ r n a' other has_n.
            let (st, at) = h.stored n a' has_n in
            let apart : a ≢ a' =
              λ same. other (h.apart name n a' (has_name ∙ ap some same) has_n) in
            (
              lookup-remove ⦃key = sc.name_key⦄ db.tables name n h.unique
                  ∙ put_other ⦃key = sc.name_key⦄ name n none _ other
                  ∙ has_n,
              deref_stored sc r a' db' st (update_other sc db.cell a a' none apart ∙ at)
                  ∙ sym (deref_stored sc r a' db st at),
            ),
      )
