-- ===== src/Mdb/Database/Reference.antt =====
-- Calls through a reference to a table of include/quekka/Quekka_mdb.hpp.
use tiny_mon.Base.{
  ℕ, ◌≡◌, ◌≢◌, refl, sym, ap, subst, ◌∙◌, true, Option, none, some, Option-cases, inl, inr,
}
use tiny_mon.Mdb.Columns.Map.{Unique}
use tiny_mon.Mdb.Table
use tiny_mon.Mdb.Table.{Future}
use tiny_mon.Mdb.Table.Calls
use tiny_mon.Mdb.Table.Calls.{upsert_op, erase_op, view, Shows, call-Shows}
use tiny_mon.Mdb.Database.{
  Schema, Result, returned, threw, fault, TableOf, Stored, Mdb, update, cast, deref, Change, change,
  upsert, get,
}
use tiny_mon.Mdb.Database.Laws.{update_same, update_other, cast_exact, cast-Stored}
use tiny_mon.Mdb.Database.Sound.{Sound, written-Sound}

module _ (sc : Schema) where
  open sc use {RecordType, KeyType, ValueType, CallbackType, Name}

  pub deref_freed :
      (r : RecordType) (a : ℕ) (db : Mdb sc) → db.cell a ≡ none → deref sc r a db ≡ none
  unfolding deref
  deref_freed r a db e = rw (deref, e) refl

  pub deref_stored :
      (r : RecordType) (a : ℕ) (db : Mdb sc) (st : Stored sc)
      → db.cell a ≡ some st
      → deref sc r a db ≡ cast sc r st
  unfolding deref
  deref_stored r a db st e = rw (deref, e) refl

  pub deref-at :
      (r : RecordType) (a : ℕ) (db : Mdb sc) (t : TableOf sc r)
      → deref sc r a db ≡ some t
      → db.cell a ≡ some (record { type = r; table = t })
  deref-at r a db t e = elim (Option-cases (db.cell a)) [
    | inl freed ↦ let missing = deref_freed r a db freed in absurd cc
    | inr (st, at) ↦ at ∙ ap some (cast-Stored sc r st t (sym (deref_stored r a db st at) ∙ e))
  ]

  module _ (r : RecordType) (a : ℕ) (db : Mdb sc) (f : Change sc r) where
    pub change_missing : deref sc r a db ≡ none → change sc r a db f ≡ fault
    unfolding change
    change_missing e = rw (change, e) refl

    pub change_found :
        (t : TableOf sc r)
        → deref sc r a db ≡ some t
        → change sc r a db f
          ≡ returned (
            (f t).0,
            record db { cell = update sc db.cell a (some (record { type = r; table = (f t).1 })) },
          )
    unfolding change
    change_found t e = rw (change, e) refl

    -- The tables that a change leaves.
    abbrev left : Result (Future (CallbackType r) (KeyType r) (ValueType r) × Mdb sc) → Mdb sc
    left (returned (future, db')) = db'
    left threw = db
    left fault = db

    pub change-Sound :
        (future : Future (CallbackType r) (KeyType r) (ValueType r)) (db' : Mdb sc)
        → ((t : TableOf sc r)
            → Unique ⦃key = sc.key r⦄ t.rows
            → Unique ⦃key = sc.key r⦄ (f t).1.rows)
        → change sc r a db f ≡ returned (future, db')
        → Sound sc db
        → Sound sc db'
    change-Sound future db' keeps e h = elim (Option-cases (deref sc r a db)) [
      | inl missing ↦ let stopped = change_missing missing in absurd cc
      | inr (t, found) ↦
          let at = deref-at r a db t found in
          subst (Sound sc) (ap left (sym (change_found t found) ∙ e))
            (written-Sound sc r a t (f t).1 db at (keeps t (h.keyed a _ at)) h)
    ]

  deref_same :
      (r : RecordType) (a : ℕ) (db db' : Mdb sc)
      → db.cell a ≡ db'.cell a
      → deref sc r a db ≡ deref sc r a db'
  unfolding deref
  deref_same r a db db' e = rw (deref, e) refl

  get-deref :
      (r : RecordType) (a : ℕ) (k : KeyType r) (out : ValueType r) (db : Mdb sc)
      (o : Option (TableOf sc r))
      → deref sc r a db ≡ o
      → get sc r a k out db
        ≡ elim o [ none ↦ fault | some t ↦ returned (Table.get ⦃key = sc.key r⦄ t k out) ]
  unfolding get
  get-deref r a k out db o e = rw (get, e) refl

  -- A reference reads what was written through it, and the references to other tables read what they
  -- read before.
  pub get-upsert :
      (r : RecordType) (a : ℕ) (k : KeyType r) (v out : ValueType r) (db : Mdb sc)
      (t : TableOf sc r)
      → deref sc r a db ≡ some t
      → (future : Future (CallbackType r) (KeyType r) (ValueType r)) × (db' : Mdb sc) × (upsert sc r
            a k v db
          ≡ returned (future, db'))
        × (get sc r a k out db' ≡ returned (true, v))
        × ((a' : ℕ) (r' : RecordType) (k' : KeyType r') (out' : ValueType r')
            → a ≢ a'
            → get sc r' a' k' out' db' ≡ get sc r' a' k' out' db)
  get-upsert r a k v out db t found = (
    _,
    _,
    change_found r a db _ t found,
    get-deref r a k out _ (some t')
          (deref_stored r a _ _ (update_same sc db.cell a _) ∙ cast_exact sc r t')
        ∙ ap returned (Calls.get-upsert ⦃key = sc.key r⦄ (sc.blank r) t k v out),
    λ a' r' k' out' ne.
        get-deref r' a' k' out' _ (deref sc r' a' db)
          (deref_same r' a' _ db (update_other sc db.cell a a' _ ne))
        ∙ sym (get-deref r' a' k' out' db (deref sc r' a' db) refl),
  )
    where
      t' : TableOf sc r
      t' = (Table.upsert ⦃key = sc.key r⦄ (sc.blank r) t k v).1
