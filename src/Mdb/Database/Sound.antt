-- ===== src/Mdb/Database/Sound.antt =====
-- The invariant of the tables in include/quekka/Quekka_mdb.hpp under the calls of a program, and the
-- references to a table that is dropped.
use tiny_mon.Base.{ℕ, ◌≡◌, ◌≢◌, ◌⊎◌, sym, ap, subst, ◌∙◌, Option, none, some, inl, inr}
use mathlib.Core.Option.{some-injective}
use native.Mathlib.Decide.{ℕ_discrete}
use tiny_mon.Mdb.Columns.Map.{
  lookup, Unique, Unique-emplace, Unique-remove, lookup-emplace, lookup-remove, put-cases,
}
use tiny_mon.Mdb.Database.{Schema, TableOf, Stored, Mdb, empty, named, update, get_at, drop_at}
use tiny_mon.Mdb.Database.Laws.{update_same, update_other, update-cases}

module _ (sc : Schema) where
  open sc use {RecordType, KeyType, ValueType, CallbackType, Name}

  -- The keys of a table are unique.
  abbrev Keyed : Stored sc → Type 0
  Keyed st = Unique ⦃key = sc.key st.type⦄ st.table.rows

  -- Each name has a table of its own, and the keys of each table are unique.
  pub record Sound (db : Mdb sc) : Type 0 where
    pub unique : Unique ⦃key = sc.name_key⦄ db.tables
    pub stored :
        (n : Name) (a : ℕ) → named sc db n ≡ some a → (st : Stored sc) × (db.cell a ≡ some st)
    pub apart : (n n' : Name) (a : ℕ) → named sc db n ≡ some a → named sc db n' ≡ some a → n ≡ n'
    pub keyed : (a : ℕ) (st : Stored sc) → db.cell a ≡ some st → Keyed st

  pub empty-Sound : Sound (empty sc)
  unfolding lookup Unique
  empty-Sound = record {
    unique = tt;
    stored = λ n a e. absurd cc;
    apart = λ n n' a e e'. absurd cc;
    keyed = λ a st e. absurd cc;
  }

  -- A new table at an address that is not in use.
  pub created-Sound :
      (r : RecordType) (name : Name) (cb : Option (CallbackType r)) (fresh : ℕ) (db : Mdb sc)
      → db.cell fresh ≡ none
      → named sc db name ≡ none
      → Sound db
      → Sound (get_at sc r name cb fresh db none).1
  unfolding get_at Unique
  created-Sound r name cb fresh db unused unnamed h = record {
    unique = Unique-emplace ⦃key = sc.name_key⦄ db.tables name fresh h.unique;
    stored = λ n a e. elim (origin n a e) [
      | inl (_, at_fresh) ↦ (
        _,
        ap (update sc db.cell fresh _) (sym (some-injective fresh a at_fresh))
            ∙ update_same sc db.cell fresh _,
      )
      | inr (_, old) ↦
          let (st, at) = h.stored n a old in
          (st, update_other sc db.cell fresh a _ (in_use a st at) ∙ at)
    ];
    apart = λ n n' a e e'. elim (origin n a e) [
      | inl (named_n, at_fresh) ↦ elim (origin n' a e') [
        | inl (named_n', _) ↦ sym named_n ∙ named_n'
        | inr (_, old) ↦ absurd (not_old n' a at_fresh old)
      ]
      | inr (_, old) ↦ elim (origin n' a e') [
        | inl (_, at_fresh) ↦ absurd (not_old n a at_fresh old)
        | inr (_, old') ↦ h.apart n n' a old old'
      ]
    ];
    keyed = λ a st e. elim (update-cases sc db.cell fresh a _ st e) [
      | inl (_, new) ↦ subst Keyed (some-injective _ st new) tt
      | inr (_, old) ↦ h.keyed a st old
    ];
  }
    where
      origin :
          (n : Name) (a : ℕ)
          → named sc (get_at sc r name cb fresh db none).1 n ≡ some a
          → ((name ≡ n) × (some fresh ≡ some a)) ⊎ ((name ≢ n) × (named sc db n ≡ some a))
      origin n a e =
          put-cases ⦃key = sc.name_key⦄ name n (some fresh) (named sc db) a
            (sym (lookup-emplace ⦃key = sc.name_key⦄ db.tables name n fresh unnamed) ∙ e)

      in_use : (a : ℕ) (st : Stored sc) → db.cell a ≡ some st → fresh ≢ a
      in_use a st at e = let gone = sym unused ∙ ap db.cell e ∙ at in absurd cc

      not_old : (n : Name) (a : ℕ) → some fresh ≡ some a → named sc db n ≡ some a → ⊥
      not_old n a at_fresh old =
          let (st, at) = h.stored n a old in in_use a st at (some-injective fresh a at_fresh)

  pub dropped-Sound :
      (name : Name) (a : ℕ) (db : Mdb sc)
      → named sc db name ≡ some a
      → Sound db
      → Sound (drop_at sc db name (some a)).1
  unfolding drop_at
  dropped-Sound name a db has_name h = record {
    unique = Unique-remove ⦃key = sc.name_key⦄ db.tables name h.unique;
    stored = λ n a' e.
        let (ne, old) = origin n a' e in
        let (st, at) = h.stored n a' old in
        (
          st,
          update_other sc db.cell a a' none
                (λ same. ne (h.apart name n a' (has_name ∙ ap some same) old))
              ∙ at,
        );
    apart = λ n n' a' e e'. h.apart n n' a' (origin n a' e).1 (origin n' a' e').1;
    keyed = λ a' st e. elim (update-cases sc db.cell a a' none st e) [
      | inl (_, new) ↦ absurd cc
      | inr (_, old) ↦ h.keyed a' st old
    ];
  }
    where
      origin :
          (n : Name) (a' : ℕ)
          → named sc (drop_at sc db name (some a)).1 n ≡ some a'
          → (name ≢ n) × (named sc db n ≡ some a')
      origin n a' e =
          elim (put-cases ⦃key = sc.name_key⦄ name n none (named sc db) a'
            (sym (lookup-remove ⦃key = sc.name_key⦄ db.tables name n h.unique) ∙ e)) [
              | inl (_, new) ↦ absurd cc
              | inr old ↦ old
            ]

  -- A table in place of another of the same type.
  pub written-Sound :
      (r : RecordType) (a : ℕ) (t t' : TableOf sc r) (db : Mdb sc)
      → db.cell a ≡ some (record { type = r; table = t })
      → Unique ⦃key = sc.key r⦄ t'.rows
      → Sound db
      → Sound (record db { cell = update sc db.cell a (some (record { type = r; table = t' })) })
  written-Sound r a t t' db at u h = record {
    unique = h.unique;
    stored = λ n a' e. elim (ℕ_discrete a a') [
      | yes same ↦ (_, ap (update sc db.cell a _) (sym same) ∙ update_same sc db.cell a _)
      | no ne ↦ let (st, at') = h.stored n a' e in (st, update_other sc db.cell a a' _ ne ∙ at')
    ];
    apart = h.apart;
    keyed = λ a' st e. elim (update-cases sc db.cell a a' _ st e) [
      | inl (_, new) ↦ subst Keyed (some-injective _ st new) u
      | inr (_, old) ↦ h.keyed a' st old
    ];
  }
