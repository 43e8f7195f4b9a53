-- ===== src/Mdb/Table/Threads.antt =====
-- The threads that a table in include/quekka/Quekka_mdb.hpp starts, run in any order, and the order in
-- which the callback is called.
use tiny_mon.Base.{◌≡◌, refl, ap, subst, Bool, true, List, [], ◌∷◌, ◌++◌, append_assoc, map}
use mathlib.Core.List.Perm
use mathlib.Core.List.{Perm, perm_middle}
use tiny_mon.Mdb.Key.{Key}
use tiny_mon.Mdb.Table.{Event, Task, Future, ready, started, Table}
use tiny_mon.Mdb.Table.Calls.{Op, call, calls}
use tiny_mon.Mdb.Table.Replay.{told}

abbrev pub tasks {ℓ} : {C K V : Type ℓ} → List (Future C K V) → List (Task C K V)
tasks [] = []
tasks (ready ∷ fs) = tasks fs
tasks (started task ∷ fs) = task ∷ tasks fs

abbrev pub events {ℓ} : {C K V : Type ℓ} → List (Task C K V) → List (Event K V)
events ts = map (λ task. task.event) ts

pub tasks-append {ℓ} :
    {C K V : Type ℓ} (fs gs : List (Future C K V)) → tasks (fs ++ gs) ≡ tasks fs ++ tasks gs
tasks-append [] gs = refl
tasks-append (ready ∷ fs) gs = tasks-append fs gs
tasks-append (started task ∷ fs) gs = ap (λ ts. task ∷ ts) (tasks-append fs gs)

pub told-tasks {ℓ} : {C K V : Type ℓ} (fs : List (Future C K V)) → told fs ≡ events (tasks fs)
told-tasks [] = refl
told-tasks (ready ∷ fs) = told-tasks fs
told-tasks (started task ∷ fs) = ap (λ es. task.event ∷ es) (told-tasks fs)

-- A table, the threads that have not called the callback, and those that have, in their order.
pub record State {ℓ} (C K V : Type ℓ) : Type ℓ where
  pub table : Table C K V
  pub pending : List (Task C K V)
  pub ran : List (Task C K V)

abbrev pub initial {ℓ} : {C K V : Type ℓ} → Table C K V → State C K V
initial t = record { table = t; pending = []; ran = [] }

module _ {ℓ} {C K V : Type ℓ} ⦃key : Key K⦄ (blank : V) (waits : Bool) (t : Table C K V) where
  -- The calls that have been made and the state: one more call, by a caller that `waits` for each
  -- future or not, or one more thread that calls the callback.
  pub data Reach : List (Op K V) → State C K V → Type ℓ where
    start : Reach [] (initial t)
    calls_op :
        {os : List (Op K V)} {s : State C K V} (o : Op K V)
        → (waits ≡ true → s.pending ≡ [])
        → Reach os s
        → Reach (os ++ (o ∷ [])) (record {
          table = (call blank o s.table).1;
          pending = s.pending ++ tasks ((call blank o s.table).0 ∷ []);
          ran = s.ran;
        })
    runs :
        {os : List (Op K V)} {s : State C K V} (xs ys : List (Task C K V)) (task : Task C K V)
        → s.pending ≡ xs ++ (task ∷ ys)
        → Reach os s
        → Reach os (record { table = s.table; pending = xs ++ ys; ran = s.ran ++ (task ∷ []) })

module _ {ℓ} {C K V : Type ℓ} ⦃key : Key K⦄ (blank : V) where
  pub calls-snoc :
      (os : List (Op K V)) (o : Op K V) (t : Table C K V)
      → calls blank (os ++ (o ∷ [])) t ≡ (
        (calls blank os t).0 ++ ((call blank o (calls blank os t).1).0 ∷ []),
        (call blank o (calls blank os t).1).1,
      )
  calls-snoc [] o t = refl
  calls-snoc (o' ∷ os) o t =
      ap (λ (x : List (Future C K V) × Table C K V). ((call blank o' t).0 ∷ x.0, x.1))
        (calls-snoc os o (call blank o' t).1)

  module _ (t : Table C K V) where
    pub Reach-table :
        {waits : Bool} {os : List (Op K V)} {s : State C K V}
        → Reach blank waits t os s
        → s.table ≡ (calls blank os t).1
    Reach-table start = refl
    Reach-table (calls_op {os} {s} o idle r) =
        rw (calls-snoc os o t) (ap (λ x. (call blank o x).1) (Reach-table r))
    Reach-table (runs xs ys task e r) = Reach-table r

    -- No thread is lost, and none runs twice.
    pub Reach-Perm :
        {waits : Bool} {os : List (Op K V)} {s : State C K V}
        → Reach blank waits t os s
        → Perm (s.ran ++ s.pending) (tasks (calls blank os t).0)
    Reach-Perm start = Perm.refl []
    Reach-Perm (calls_op {os} {s} o idle r) =
        rw
          (
            calls-snoc os o t,
            tasks-append (calls blank os t).0 ((call blank o (calls blank os t).1).0 ∷ []),
            ← Reach-table r,
            ← append_assoc s.ran s.pending (tasks ((call blank o s.table).0 ∷ [])),
          )
          (Perm.append_right _ (Reach-Perm r))
    Reach-Perm (runs {os} {s} xs ys task e r) = rw (append_assoc s.ran (task ∷ []) (xs ++ ys)) (
        Perm.trans (Perm.append_left s.ran (Perm.symm (perm_middle xs ys)))
          (subst (λ ts. Perm (s.ran ++ ts) (tasks (calls blank os t).0)) e (Reach-Perm r)))
