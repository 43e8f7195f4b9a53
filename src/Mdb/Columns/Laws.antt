-- ===== src/Mdb/Columns/Laws.antt =====
-- The operations of `columns` against a function from keys to values.
use tiny_mon.Base.{
  ◌≡◌, refl, sym, Bool, true, false, not, Option, none, some, List, Option-cases, inl, inr,
}
use tiny_mon.Mdb.Key.{Key}
use tiny_mon.Mdb.Columns.{has, get, upsert, erase}
use tiny_mon.Mdb.Columns.Map.{
  lookup, emplace, assign, remove, put_absent, put, Unique, lookup-emplace, lookup-assign,
  lookup-remove, Unique-emplace, Unique-assign, Unique-remove,
}

-- A value, or the default.
abbrev pub value_or {ℓ} : {V : Type ℓ} → V → Option V → V
value_or d none = d
value_or d (some v) = v

abbrev pub is_some {ℓ} : {V : Type ℓ} → Option V → Bool
is_some none = false
is_some (some v) = true

module _ {ℓ} {K V : Type ℓ} ⦃key : Key K⦄ where
  pub has-lookup : (rows : List (K × V)) (k : K) → has rows k ≡ is_some (lookup rows k)
  unfolding has
  has-lookup rows k = elim (Option-cases (lookup rows k)) [
    | inl e ↦ rw (has, e) refl
    | inr (v, e) ↦ rw (has, e) refl
  ]

  pub get-lookup :
      (rows : List (K × V)) (k : K) (out : V)
      → get rows k out ≡ (is_some (lookup rows k), value_or out (lookup rows k))
  unfolding get
  get-lookup rows k out = elim (Option-cases (lookup rows k)) [
    | inl e ↦ rw (get, e) refl
    | inr (v, e) ↦ rw (get, e) refl
  ]

  -- What `upsert` answers and leaves.
  pub record Upserts (blank : V) (rows : List (K × V)) (k : K) (v : V) : Type ℓ where
    pub result : (upsert blank rows k v).result ≡ true
    pub is_create : (upsert blank rows k v).is_create ≡ not (is_some (lookup rows k))
    pub before : (upsert blank rows k v).before ≡ value_or blank (lookup rows k)
    pub maps : (k' : K) → lookup (upsert blank rows k v).rows k' ≡ put k (some v) (lookup rows) k'
    pub unique : Unique rows → Unique (upsert blank rows k v).rows

  pub upsert_absent :
      (blank : V) (rows : List (K × V)) (k : K) (v : V)
      → lookup rows k ≡ none
      → upsert blank rows k v
        ≡ record { result = true; is_create = true; before = blank; rows = emplace rows k v }
  unfolding upsert
  upsert_absent blank rows k v e = rw (upsert, e) refl

  pub upsert_present :
      (blank : V) (rows : List (K × V)) (k : K) (v old : V)
      → lookup rows k ≡ some old
      → upsert blank rows k v
        ≡ record { result = true; is_create = false; before = old; rows = assign rows k v }
  unfolding upsert
  upsert_present blank rows k v old e = rw (upsert, e) refl

  pub erase_absent :
      (rows : List (K × V)) (k : K) (before : V)
      → lookup rows k ≡ none
      → erase rows k before ≡ (false, before, rows)
  unfolding erase
  erase_absent rows k before e = rw (erase, e) refl

  pub erase_present :
      (rows : List (K × V)) (k : K) (before old : V)
      → lookup rows k ≡ some old
      → erase rows k before ≡ (true, old, remove rows k)
  unfolding erase
  erase_present rows k before old e = rw (erase, e) refl

  pub upsert-Upserts : (blank : V) (rows : List (K × V)) (k : K) (v : V) → Upserts blank rows k v
  upsert-Upserts blank rows k v = elim (Option-cases (lookup rows k)) [
    | inl e ↦ record {
      result = rw (upsert_absent blank rows k v e) refl;
      is_create = rw (upsert_absent blank rows k v e, e) refl;
      before = rw (upsert_absent blank rows k v e, e) refl;
      maps = λ k'. rw (upsert_absent blank rows k v e) (lookup-emplace rows k k' v e);
      unique = λ u. rw (upsert_absent blank rows k v e) (Unique-emplace rows k v u);
    }
    | inr (old, e) ↦ record {
      result = rw (upsert_present blank rows k v old e) refl;
      is_create = rw (upsert_present blank rows k v old e, e) refl;
      before = rw (upsert_present blank rows k v old e, e) refl;
      maps = λ k'. rw (upsert_present blank rows k v old e) (lookup-assign rows k k' v old e);
      unique = λ u. rw (upsert_present blank rows k v old e) (Unique-assign rows k v u);
    }
  ]

  -- What `erase` answers and leaves.
  pub record Erases (rows : List (K × V)) (k : K) (before : V) : Type ℓ where
    pub result : (erase rows k before).0 ≡ is_some (lookup rows k)
    pub old : (erase rows k before).1 ≡ value_or before (lookup rows k)
    pub maps : (k' : K) → lookup (erase rows k before).2 k' ≡ put k none (lookup rows) k'
    pub unique : Unique (erase rows k before).2

  pub erase-Erases : (rows : List (K × V)) (k : K) (before : V) → Unique rows → Erases rows k before
  erase-Erases rows k before u = elim (Option-cases (lookup rows k)) [
    | inl e ↦ record {
      result = rw (erase_absent rows k before e, e) refl;
      old = rw (erase_absent rows k before e, e) refl;
      maps = λ k'. rw (erase_absent rows k before e) (sym (put_absent (lookup rows) k k' e));
      unique = rw (erase_absent rows k before e) u;
    }
    | inr (old, e) ↦ record {
      result = rw (erase_present rows k before old e, e) refl;
      old = rw (erase_present rows k before old e, e) refl;
      maps = λ k'. rw (erase_present rows k before old e) (lookup-remove rows k k' u);
      unique = rw (erase_present rows k before old e) (Unique-remove rows k u);
    }
  ]
