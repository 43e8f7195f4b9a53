-- ===== src/Mdb/Table/Replay.antt =====
-- The events that the callback of a table in include/quekka/Quekka_mdb.hpp is told, as a log of the
-- table.
use tiny_mon.Base.{
  ◌≡◌, refl, sym, ap, fun_ext, subst, ◌∙◌, Option, none, some, Option-cases, inl, inr, List, [],
  ◌∷◌,
}
use tiny_mon.Mdb.Key.{Key}
use tiny_mon.Mdb.Columns.Map.{lookup, put, put_absent}
use tiny_mon.Mdb.Columns.Laws.{upsert_absent, upsert_present, erase_absent, erase_present}
use tiny_mon.Mdb.Table.{
  Crud, create, update, delete, Event, Task, Future, ready, started, Table, upsert, erase,
}
use tiny_mon.Mdb.Table.Calls.{
  Op, upsert_op, erase_op, meaning, view, call, calls, Shows, call-Shows,
}

-- The events of the threads that a sequence of calls started, and their callbacks.
abbrev pub told {ℓ} : {C K V : Type ℓ} → List (Future C K V) → List (Event K V)
told [] = []
told (ready ∷ fs) = told fs
told (started task ∷ fs) = task.event ∷ told fs

-- The threads call `cb`.
abbrev pub AllCall {ℓ} : {C K V : Type ℓ} → C → List (Future C K V) → Type ℓ
AllCall cb [] = Unit
AllCall cb (ready ∷ fs) = AllCall cb fs
AllCall cb (started task ∷ fs) = (task.cb ≡ cb) × AllCall cb fs

abbrev pub outcome {ℓ} : {V : Type ℓ} → Crud → (after : V) → Option V
outcome create after = some after
outcome update after = some after
outcome delete after = none

module _ {ℓ} {K V : Type ℓ} ⦃key : Key K⦄ where
  -- What a reader of the events makes of one of them, and of all of them.
  abbrev pub apply : Event K V → (K → Option V) → K → Option V
  apply e m = put e.key (outcome e.op e.after) m

  abbrev pub replay : List (Event K V) → (K → Option V) → K → Option V
  replay [] m = m
  replay (e ∷ es) m = replay es (apply e m)

  module _ (blank : V) where
    -- What an event says of the state before it is true.
    abbrev pub Honest : Event K V → (K → Option V) → Type ℓ
    Honest e m = elim e.op [
      | create ↦ (m e.key ≡ none) × (e.before ≡ blank)
      | update ↦ m e.key ≡ some e.before
      | delete ↦ (m e.key ≡ some e.before) × (e.after ≡ blank)
    ]

    abbrev pub AllHonest : List (Event K V) → (K → Option V) → Type ℓ
    AllHonest [] m = Unit
    AllHonest (e ∷ es) m = Honest e m × AllHonest es (apply e m)

-- How the future of a call tells what the call does to `m`: a thread whose event says so, or no
-- thread, and then the call changes nothing.
data Tells {ℓ} {C K V : Type ℓ} ⦃key : Key K⦄ (blank : V) (cb : C) (o : Op K V) (m : K → Option V)
    : Future C K V → Type ℓ where
  silent : meaning o m ≡ m → Tells blank cb o m ready
  tells :
      {task : Task C K V}
      → task.cb ≡ cb
      → Honest blank task.event m
      → apply task.event m ≡ meaning o m
      → Tells blank cb o m (started task)

module _ {ℓ} {C K V : Type ℓ} ⦃key : Key K⦄ (blank : V) where
  call-Tells :
      (cb : C) (m : K → Option V) (o : Op K V) (t : Table C K V)
      → Shows (some cb) m t
      → Tells blank cb o m (call blank o t).0
  unfolding upsert erase
  call-Tells cb m (upsert_op k v) t h = elim (Option-cases (lookup t.rows k)) [
    | inl e ↦
        rw (upsert_absent blank t.rows k v e, h.callback)
          (tells refl (ap (λ (f : K → Option V). f k) (sym h.maps) ∙ e, refl) refl)
    | inr (old, e) ↦
        rw (upsert_present blank t.rows k v old e, h.callback)
          (tells refl (ap (λ (f : K → Option V). f k) (sym h.maps) ∙ e) refl)
  ]
  call-Tells cb m (erase_op k) t h = elim (Option-cases (lookup t.rows k)) [
    | inl e ↦
        rw (call, erase, erase_absent t.rows k blank e)
          (silent
            (fun_ext (λ k'. put_absent m k k' (ap (λ (f : K → Option V). f k) (sym h.maps) ∙ e))))
    | inr (old, e) ↦
        rw
          (
            call,
            erase,
            erase_present t.rows k blank old e,
            erase_present t.rows k blank old e,
            h.callback,
          )
          (tells refl (ap (λ (f : K → Option V). f k) (sym h.maps) ∙ e, refl) refl)
  ]

  -- The futures of a sequence of calls log the change from `m` to `m'`.
  pub record Logs (cb : C) (fs : List (Future C K V)) (m m' : K → Option V) : Type ℓ where
    pub callbacks : AllCall cb fs
    pub honest : AllHonest blank (told fs) m
    pub replays : replay (told fs) m ≡ m'

  Logs-cons :
      (cb : C) (o : Op K V) (m m' : K → Option V) (f : Future C K V) (fs : List (Future C K V))
      → Tells blank cb o m f
      → Logs cb fs (meaning o m) m'
      → Logs cb (f ∷ fs) m m'
  Logs-cons cb o m m' _ fs (silent same) rest =
      subst (λ x. Logs cb (ready ∷ fs) x m') same
        (record { callbacks = rest.callbacks; honest = rest.honest; replays = rest.replays })
  Logs-cons cb o m m' _ fs (tells {task} calls_cb honest applied) rest = record {
    callbacks = (calls_cb, rest.callbacks);
    honest = (honest, subst (AllHonest blank (told fs)) (sym applied) rest.honest);
    replays = ap (replay (told fs)) applied ∙ rest.replays;
  }

  -- The callback of a table is told what happens to it. Of a sequence of calls on a table with a
  -- callback `cb`, in the order of the calls: each thread calls `cb`, each event is true of the state
  -- before it (nothing and the default value for a new row, the old value for a changed or deleted
  -- one), and whoever applies the events to the first state has the last one.
  pub calls-Logs :
      (cb : C) (os : List (Op K V)) (t : Table C K V) (m : K → Option V)
      → Shows (some cb) m t
      → Logs cb (calls blank os t).0 m (view (calls blank os t).1)
  calls-Logs cb [] t m h = record { callbacks = tt; honest = tt; replays = sym h.maps }
  calls-Logs cb (o ∷ os) t m h =
      Logs-cons cb o m _ _ _ (call-Tells cb m o t h)
        (calls-Logs cb os (call blank o t).1 (meaning o m) (call-Shows blank (some cb) m o t h))
