-- ===== src/Mdb/Table/Order.antt =====
-- When the events of a table in include/quekka/Quekka_mdb.hpp reach the callback in the order of the
-- calls: if the caller waits for each future.
use tiny_mon.Base.{
  ◌≡◌, Bool, subst, refl, sym, ap, ◌∙◌, ◌⊎◌, inl, inr, true, false, Option, none, some, List, [],
  ◌∷◌, ◌++◌, append_assoc, append-nil, length, length-append, arith,
}
use mathlib.Core.List.{Perm}
use tiny_mon.Mdb.Key.{Key}
use tiny_mon.Mdb.Columns
use tiny_mon.Mdb.Columns.Map.{lookup, put_same}
use tiny_mon.Mdb.Columns.Laws.{upsert-Upserts}
use tiny_mon.Mdb.Table.{Future, ready, started, Table, new_table, upsert}
use tiny_mon.Mdb.Table.Calls.{Op, upsert_op, view, call, calls, Shows}
use tiny_mon.Mdb.Table.Replay.{told, replay, AllHonest, Logs, calls-Logs}
use tiny_mon.Mdb.Table.Threads.{
  tasks, events, tasks-append, told-tasks, State, Reach, start, calls_op, runs, calls-snoc,
  Reach-table, Reach-Perm,
}

-- At most one thread.
abbrev Single {ℓ} : {A : Type ℓ} → List A → Type ℓ
Single {A} ts = (ts ≡ []) ⊎ ((task : A) × (ts ≡ task ∷ []))

Single-tasks {ℓ} : {C K V : Type ℓ} (f : Future C K V) → Single (tasks (f ∷ []))
Single-tasks ready = inl refl
Single-tasks (started task) = inr (task, refl)

-- What is before and behind the only thread.
alone {ℓ} :
    {A : Type ℓ} (ts xs ys : List A) (a : A)
    → Single ts
    → ts ≡ xs ++ (a ∷ ys)
    → (xs ≡ []) × (ys ≡ [])
alone ts [] ys a (inl e) e' = absurd cc
alone ts (x ∷ xs) ys a (inl e) e' = absurd cc
alone ts [] ys a (inr (b, e)) e' = (refl, cc)
alone ts (x ∷ xs) ys a (inr (b, e)) e' =
    absurd (omega (arith, ap length (sym e ∙ e'), length-append xs (a ∷ ys)))

module _ {ℓ} {C K V : Type ℓ} ⦃key : Key K⦄ (blank : V) (t : Table C K V) where
  Reach-Single : {os : List (Op K V)} {s : State C K V} → Reach blank true t os s → Single s.pending
  Reach-Single start = inl refl
  Reach-Single (calls_op {os} {s} o idle r) = rw (idle refl) (Single-tasks (call blank o s.table).0)
  Reach-Single (runs {os} {s} xs ys task e r) =
      let (e', e'') = alone s.pending xs ys task (Reach-Single r) e in rw (e', e'') (inl refl)

  Reach-in_order :
      {os : List (Op K V)} {s : State C K V}
      → Reach blank true t os s
      → s.ran ++ s.pending ≡ tasks (calls blank os t).0
  Reach-in_order start = refl
  Reach-in_order (calls_op {os} {s} o idle r) =
      rw
        (
          calls-snoc blank os o t,
          tasks-append (calls blank os t).0 ((call blank o (calls blank os t).1).0 ∷ []),
          ← Reach-table blank t r,
          ← append_assoc s.ran s.pending (tasks ((call blank o s.table).0 ∷ [])),
          Reach-in_order r,
        )
        refl
  Reach-in_order (runs {os} {s} xs ys task e r) =
      let (e', e'') = alone s.pending xs ys task (Reach-Single r) e in
      append_assoc s.ran (task ∷ []) (xs ++ ys)
      ∙ rw (e', e'') refl
      ∙ ap (λ ts. s.ran ++ ts) (sym e)
      ∙ Reach-in_order r

  -- The callback is told all that happens to the table, and each change once, if not in the order of the
  -- calls. After any calls on a table with the callback `cb`, whether their caller waits or not, and with
  -- its threads run in any order, the threads that have called the callback and those that have not yet
  -- are, in some order, threads that log the table: each calls `cb`, each event is true of the state
  -- before it, and the events applied to the first state give the table.
  pub Reach-Logs :
      (cb : C) (m : K → Option V) {waits : Bool} {os : List (Op K V)} {s : State C K V}
      → Shows (some cb) m t
      → Reach blank waits t os s
      → (fs : List (Future C K V)) × Perm (s.ran ++ s.pending) (tasks fs)
        × Logs blank cb fs m (view s.table)
  Reach-Logs cb m {os} {s} h r = (
    (calls blank os t).0,
    Reach-Perm blank t r,
    subst (λ (x : Table C K V). Logs blank cb (calls blank os t).0 m (view x))
        (sym (Reach-table blank t r)) (calls-Logs blank cb os t m h),
  )

  -- A caller that waits for each future before the next call, on a table with a callback, has the
  -- callback called in the order of the calls: when no thread is left, the events in the order in which
  -- the callback was told them are each true of the state before, and applied to the first state they
  -- give the table.
  pub waiting-replay :
      (cb : C) (m : K → Option V) {os : List (Op K V)} {s : State C K V}
      → Shows (some cb) m t
      → Reach blank true t os s
      → s.pending ≡ []
      → AllHonest blank (events s.ran) m × (replay (events s.ran) m ≡ view s.table)
  waiting-replay cb m {os} {s} h r none_left =
      let logs = calls-Logs blank cb os t m h in
      let order : events s.ran ≡ told (calls blank os t).0 =
        ap events
          (sym (append-nil s.ran) ∙ ap (λ ts. s.ran ++ ts) (sym none_left) ∙ Reach-in_order r)
        ∙ sym (told-tasks (calls blank os t).0) in
      rw (order, Reach-table blank t r) (logs.honest, logs.replays)

module _ {ℓ} {C K V : Type ℓ} ⦃key : Key K⦄ (blank : V) where
  -- A caller that does not wait can be told the changes in the wrong order: after it has stored `v` and
  -- then `w` under one key in a new table, the table holds `w`, and there is an order of the threads in
  -- which a reader of the events ends with `v`.
  pub overtaken :
      (cb : C) (k : K) (v w : V)
      → (s : State C K V) × Reach blank false
          (new_table (some cb))
          (upsert_op k v ∷ upsert_op k w ∷ [])
          s
        × (s.pending ≡ [])
        × (view s.table k ≡ some w)
        × (replay (events s.ran) (λ _. none) k ≡ some v)
  unfolding upsert Columns.upsert lookup
  overtaken cb k v w =
      let t = new_table (some cb) in
      let upserted = upsert-Upserts blank ((k, v) ∷ []) k w in
      let one = calls_op (upsert_op k v) (λ e. cc) start in
      let two = calls_op (upsert_op k w) (λ e. cc) one in
      let other = runs (tasks ((call blank (upsert_op k v) t).0 ∷ [])) [] _ refl two in
      (
        _,
        runs [] [] _ refl other,
        refl,
        upserted.maps k ∙ put_same k (some w) _,
        put_same k (some v) _,
      )
