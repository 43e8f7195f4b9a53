-- ===== src/Mdb/Database/Laws.antt =====
-- `getTable` of include/quekka/Quekka_mdb.hpp and the types of the tables.
use tiny_mon.Base.{
  ℕ, ◌≡◌, ◌≢◌, refl, sym, ap, subst, ◌∙◌, Option, none, some, Option-cases, inl, inr, ◌⊎◌, ==_self,
  ==_ne,
}
use mathlib.Core.HLevel.{hedberg}
use native.Mathlib.Decide.{ℕ_discrete}
use mathlib.Core.Path.{Singl, contract, subst_refl}
use mathlib.Core.Option.{some-injective}
use tiny_mon.Mdb.Columns.Map.{put_same, lookup-emplace}
use tiny_mon.Mdb.Table.{new_table}
use tiny_mon.Mdb.Database.{
  Schema, Result, returned, threw, fault, TableOf, Stored, Mdb, named, update, cast, cast_by,
  get_at, get_table,
}

module _ (sc : Schema) where
  open sc use {RecordType, CallbackType, Name}

  pub update_same :
      (cell : ℕ → Option (Stored sc)) (a : ℕ) (c : Option (Stored sc)) → update sc cell a c a ≡ c
  unfolding update
  update_same cell a c = rw (==_self a)

  pub update_other :
      (cell : ℕ → Option (Stored sc)) (a a' : ℕ) (c : Option (Stored sc))
      → a ≢ a'
      → update sc cell a c a' ≡ cell a'
  unfolding update
  update_other cell a a' c ne = rw (==_ne a a' ne)

  -- Where a table in `update` is from.
  pub update-cases :
      (cell : ℕ → Option (Stored sc)) (a a' : ℕ) (c : Option (Stored sc)) (st : Stored sc)
      → update sc cell a c a' ≡ some st
      → ((a ≡ a') × (c ≡ some st)) ⊎ ((a ≢ a') × (cell a' ≡ some st))
  update-cases cell a a' c st e = elim (ℕ_discrete a a') [
    | yes same ↦ inl (same, sym (update_same cell a c) ∙ ap (update sc cell a c) same ∙ e)
    | no ne ↦ inr (ne, sym (update_other cell a a' c ne) ∙ e)
  ]

  -- A table whose type is changed along an equation is the same table.
  stored_subst :
      (s r : RecordType) (e : s ≡ r) (t : TableOf sc s)
      → Path
          (Stored sc)
          (record { type = s; table = t })
          (record { type = r; table = subst (TableOf sc) e t })
  stored_subst s r e t =
      subst
        (λ (x : Singl s).
          Path (Stored sc) (record { type = s; table = t })
            (record { type = x.0; table = subst (TableOf sc) x.1 t }))
        (contract e)
        (ap {A = TableOf sc s} (λ u. record { type = s; table = u })
          (sym (subst_refl (TableOf sc) t)))

  cast_by-Stored :
      (st : Stored sc) (r : RecordType) (d : Dec (st.type ≡ r))
      → (st.type ≡ r
          → (t : TableOf sc r) × (cast_by sc st r d ≡ some t)
            × (st ≡ record { type = r; table = t }))
        × (st.type ≢ r → cast_by sc st r d ≡ none)
  cast_by-Stored st r (yes e) =
      (λ e'. (_, refl, stored_subst st.type r e st.table), λ ne. absurd (ne e))
  cast_by-Stored st r (no ne) = (λ e. absurd (ne e), λ _. refl)

  -- `dynamic_cast` finds the table if its type is the one asked for.
  pub cast-same :
      (r : RecordType) (st : Stored sc)
      → st.type ≡ r
      → (t : TableOf sc r) × (cast sc r st ≡ some t) × (st ≡ record { type = r; table = t })
  unfolding cast
  cast-same r st = (cast_by-Stored st r (sc.same_type st.type r)).0

  pub cast-other : (r : RecordType) (st : Stored sc) → st.type ≢ r → cast sc r st ≡ none
  unfolding cast
  cast-other r st = (cast_by-Stored st r (sc.same_type st.type r)).1

  pub cast-Stored :
      (r : RecordType) (st : Stored sc) (t : TableOf sc r)
      → cast sc r st ≡ some t
      → st ≡ record { type = r; table = t }
  cast-Stored r st t e = elim (sc.same_type st.type r) [
    | no ne ↦ let none_found = cast-other r st ne in absurd cc
    | yes same ↦
        let (t', step, same_table) = cast-same r st same in
        same_table
        ∙ ap {A = TableOf sc r} (λ x. record { type = r; table = x })
            (some-injective t' t (sym step ∙ e))
  ]

  pub cast_exact :
      (r : RecordType) (t : TableOf sc r) → cast sc r (record { type = r; table = t }) ≡ some t
  unfolding cast
  cast_exact r t =
      elim (sc.same_type r r) as (λ d. cast_by sc (record { type = r; table = t }) r d ≡ some t) [
        | yes e ↦ ap some (
            ap (λ p. subst (TableOf sc) p t) (hedberg sc.same_type r r e refl)
            ∙ subst_refl (TableOf sc) t)
        | no ne ↦ absurd (ne refl)
      ]

  -- A name that has a table of type `r` at `address`.
  pub record Typed (r : RecordType) (name : Name) (address : ℕ) (db : Mdb sc) : Type 0 where
    pub entry : named sc db name ≡ some address
    pub stored : Stored sc
    pub at : db.cell address ≡ some stored
    pub type : stored.type ≡ r

  as_returned : Result ℕ × Mdb sc → ℕ × Mdb sc
  as_returned (returned a, d) = (a, d)
  as_returned (threw, d) = (0, d)
  as_returned (fault, d) = (0, d)

  module _ (r : RecordType) (name : Name) (cb : Option (CallbackType r)) (fresh : ℕ)
      (db : Mdb sc) where
    pub get_at_freed :
        (a : ℕ) → db.cell a ≡ none → get_at sc r name cb fresh db (some a) ≡ (fault, db)
    unfolding get_at
    get_at_freed a e = rw (get_at, e) refl

    pub get_at_other :
        (a : ℕ) (st : Stored sc)
        → db.cell a ≡ some st
        → st.type ≢ r
        → get_at sc r name cb fresh db (some a) ≡ (threw, db)
    unfolding get_at
    get_at_other a st e ne = rw (get_at, e, cast-other r st ne) refl

    pub get_at_same :
        (a : ℕ) (st : Stored sc)
        → db.cell a ≡ some st
        → st.type ≡ r
        → get_at sc r name cb fresh db (some a) ≡ (returned a, db)
    unfolding get_at
    get_at_same a st e same = let (t, step, _) = cast-same r st same in rw (get_at, e, step) refl

    get_at-Typed :
        (address : ℕ) (db' : Mdb sc) (o : Option ℕ)
        → named sc db name ≡ o
        → get_at sc r name cb fresh db o ≡ (returned address, db')
        → Typed r name address db'
    unfolding get_at as_returned
    get_at-Typed address db' none e got =
        subst (λ (x : ℕ × Mdb sc). Typed r name x.0 x.1) (ap as_returned got)
          (record {
            entry =
                lookup-emplace ⦃key = sc.name_key⦄ db.tables name name fresh e
                ∙ put_same ⦃key = sc.name_key⦄ name (some fresh) _;
            stored = record { type = r; table = new_table cb };
            at = update_same db.cell fresh _;
            type = refl;
          })
    get_at-Typed address db' (some a) e got = elim (Option-cases (db.cell a)) [
      | inl freed ↦ let stopped = get_at_freed a freed in absurd cc
      | inr (st, there) ↦ elim (sc.same_type st.type r) [
        | no ne ↦ let stopped = get_at_other a st there ne in absurd cc
        | yes same ↦
            subst (λ (x : ℕ × Mdb sc). Typed r name x.0 x.1)
              (ap as_returned (sym (get_at_same a st there same) ∙ got))
              (record { entry = e; stored = st; at = there; type = same })
      ]
    ]

  Typed-get_table :
      (r r' : RecordType) (name : Name) (address : ℕ) (db : Mdb sc) (cb : Option (CallbackType r'))
      (fresh : ℕ)
      → Typed r name address db
      → (r ≡ r' → get_table sc r' name cb fresh db ≡ (returned address, db))
        × (r ≢ r' → get_table sc r' name cb fresh db ≡ (threw, db))
  unfolding get_table
  Typed-get_table r r' name address db cb fresh t = (
    λ same. rw t.entry (get_at_same r' name cb fresh db address t.stored t.at (t.type ∙ same)),
    λ other.
        rw t.entry
          (get_at_other r' name cb fresh db address t.stored t.at (λ e. other (sym t.type ∙ e))),
  )

  -- A name keeps the type of its table. After `get_table` has returned a reference, another call with
  -- the same name returns the same reference if it asks for the same record type, whatever callback it
  -- brings, and throws if it asks for another; both leave all tables as they are.
  pub get_table_again :
      (r r' : RecordType) (name : Name) (cb : Option (CallbackType r))
      (cb' : Option (CallbackType r')) (fresh fresh' address : ℕ) (db db' : Mdb sc)
      → get_table sc r name cb fresh db ≡ (returned address, db')
      → (r ≡ r' → get_table sc r' name cb' fresh' db' ≡ (returned address, db'))
        × (r ≢ r' → get_table sc r' name cb' fresh' db' ≡ (threw, db'))
  unfolding get_table
  get_table_again r r' name cb cb' fresh fresh' address db db' got =
      Typed-get_table r r' name address db' cb' fresh'
        (get_at-Typed r name cb fresh db address db' (named sc db name) refl got)
