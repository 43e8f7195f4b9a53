-- ===== src/Mdb/Table/Calls.antt =====
-- Sequences of the operations that change a table of include/quekka/Quekka_mdb.hpp, and what they mean
-- for a function from keys to values.
use tiny_mon.Base.{
  ◌≡◌, refl, ap, fun_ext, ◌∙◌, true, Bool-cases, inl, inr, Option, none, some, List, [], ◌∷◌,
}
use tiny_mon.Mdb.Key.{Key}
use tiny_mon.Mdb.Columns
use tiny_mon.Mdb.Columns.Map.{lookup, put, put_same, Unique}
use tiny_mon.Mdb.Columns.Laws.{value_or, is_some, get-lookup, upsert-Upserts, erase-Erases}
use tiny_mon.Mdb.Table.{Table, Future, new_table, upsert, erase, get}

-- A call of `upsert` or of `erase`.
pub data Op {ℓ} (K V : Type ℓ) : Type ℓ where
  upsert_op : K → V → Op K V
  erase_op : K → Op K V

module _ {ℓ} {K V : Type ℓ} ⦃key : Key K⦄ where
  -- What a call means.
  abbrev pub meaning : Op K V → (K → Option V) → K → Option V
  meaning (upsert_op k v) m = put k (some v) m
  meaning (erase_op k) m = put k none m

  abbrev pub meanings : List (Op K V) → (K → Option V) → K → Option V
  meanings [] m = m
  meanings (o ∷ os) m = meanings os (meaning o m)

  -- A table as a function.
  abbrev pub view : {C : Type ℓ} → Table C K V → K → Option V
  view t = lookup t.rows

  module _ (blank : V) where
    abbrev pub call : {C : Type ℓ} → Op K V → Table C K V → Future C K V × Table C K V
    call (upsert_op k v) t = upsert blank t k v
    call (erase_op k) t = erase blank t k

    -- The futures of a sequence of calls, and the table after it.
    abbrev pub calls :
        {C : Type ℓ} → List (Op K V) → Table C K V → List (Future C K V) × Table C K V
    calls [] t = ([], t)
    calls (o ∷ os) t = let (f, t') = call o t in let (fs, t'') = calls os t' in (f ∷ fs, t'')

-- A table whose rows have unique keys, with a callback and a view.
pub record Shows {ℓ} {C K V : Type ℓ} ⦃key : Key K⦄ (cb : Option C) (m : K → Option V)
    (t : Table C K V) : Type ℓ where
  pub callback : t.callback ≡ cb
  pub maps : view t ≡ m
  pub unique : Unique t.rows

module _ {ℓ} {C K V : Type ℓ} ⦃key : Key K⦄ (blank : V) where
  -- The table after `Columns.erase`, whatever it found.
  erase-rows :
      (t : Table C K V) (k : K)
      → (erase blank t k).1 ≡ record t { rows = (Columns.erase t.rows k blank).2 }
  unfolding erase
  erase-rows t k = elim (Bool-cases (Columns.erase t.rows k blank).0) [
    | inl e ↦ rw (erase, e) refl
    | inr e ↦ rw (erase, e) refl
  ]

  pub call-Shows :
      (cb : Option C) (m : K → Option V) (o : Op K V) (t : Table C K V)
      → Shows cb m t
      → Shows cb (meaning o m) (call blank o t).1
  unfolding upsert
  call-Shows cb m (upsert_op k v) t h =
      let r = upsert-Upserts blank t.rows k v in
      record {
        callback = h.callback;
        maps = fun_ext r.maps ∙ ap (put k (some v)) h.maps;
        unique = r.unique h.unique;
      }
  call-Shows cb m (erase_op k) t h =
      let r = erase-Erases t.rows k blank h.unique in
      rw (erase-rows t k) (record {
        callback = h.callback;
        maps = fun_ext r.maps ∙ ap (put k none) h.maps;
        unique = r.unique;
      })

  -- A sequence of calls of `upsert` and `erase` keeps the keys of a table unique and its callback, and
  -- changes the table, seen as a function from keys to values, the way that the calls mean.
  pub calls-Shows :
      (cb : Option C) (m : K → Option V) (os : List (Op K V)) (t : Table C K V)
      → Shows cb m t
      → Shows cb (meanings os m) (calls blank os t).1
  calls-Shows cb m [] t h = h
  calls-Shows cb m (o ∷ os) t h =
      calls-Shows cb (meaning o m) os (call blank o t).1 (call-Shows cb m o t h)

  -- After a sequence of calls on a new table, `get` finds what the calls mean: whether there is a value
  -- for the key, and the value, or what was in `out` before.
  pub get-calls :
      (cb : Option C) (os : List (Op K V)) (k : K) (out : V)
      → get (calls blank os (new_table cb)).1 k out
        ≡ (is_some (meanings os (λ _. none) k), value_or out (meanings os (λ _. none) k))
  unfolding get Unique
  get-calls cb os k out =
      let h =
        calls-Shows cb (λ _. none) os (new_table cb)
          (record { callback = refl; maps = fun_ext (λ k'. refl); unique = tt }) in
      get-lookup (calls blank os (new_table cb)).1.rows k out
      ∙ ap (λ (x : K → Option V). (is_some (x k), value_or out (x k))) h.maps

  -- `get` after `upsert`.
  pub get-upsert :
      (t : Table C K V) (k : K) (v out : V) → get (upsert blank t k v).1 k out ≡ (true, v)
  unfolding get upsert
  get-upsert t k v out =
      get-lookup (Columns.upsert blank t.rows k v).rows k out
      ∙ ap (λ o. (is_some o, value_or out o))
          ((upsert-Upserts blank t.rows k v).maps k ∙ put_same k (some v) _)
