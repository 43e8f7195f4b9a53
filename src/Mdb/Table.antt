-- ===== src/Mdb/Table.antt =====
-- include/quekka/Quekka_mdb.hpp, `table`: columns, and a callback that is told of each change in a
-- thread of its own. The thread is a task, which holds copies of what it tells.
pub mod Calls
pub mod Replay
pub mod Threads
pub mod Order
use tiny_mon.Base.{Bool, true, false, Option, none, some, List, []}
use tiny_mon.Mdb.Key.{Key}
use tiny_mon.Mdb.Columns
use tiny_mon.Mdb.Columns.{Upserted}

pub data Crud : Type 0 where
  create : Crud
  update : Crud
  delete : Crud

abbrev pub crud : (is_create : Bool) → Crud
crud true = create
crud false = update

-- The arguments of a callback.
pub record Event {ℓ} (K V : Type ℓ) : Type ℓ where
  pub key : K
  pub op : Crud
  pub before : V
  pub after : V

-- A detached thread that calls the callback `cb`.
pub record Task {ℓ} (C K V : Type ℓ) : Type ℓ where
  pub cb : C
  pub event : Event K V

-- `std::future<void>`: ready, or to be made ready by a thread.
pub data Future {ℓ} (C K V : Type ℓ) : Type ℓ where
  ready : Future C K V
  started : Task C K V → Future C K V

-- `callback` is `none` where the source has an empty function.
pub record Table {ℓ} (C K V : Type ℓ) : Type ℓ where
  pub rows : List (K × V)
  pub callback : Option C

module _ {ℓ} {C K V : Type ℓ} where
  -- The constructor.
  abbrev pub new_table : Option C → Table C K V
  new_table cb = record { rows = []; callback = cb }

  abbrev pub dispatch_callback_async : Option C → K → Crud → (before after : V) → Future C K V
  dispatch_callback_async none k op before after = ready
  dispatch_callback_async (some cb) k op before after =
      started
        (record { cb = cb; event = record { key = k; op = op; before = before; after = after } })

  module _ ⦃key : Key K⦄ (blank : V) where
    unfoldable pub upsert : Table C K V → K → V → Future C K V × Table C K V
    unfolding Columns.upsert
    upsert t k v =
        let u = Columns.upsert blank t.rows k v in
        (
          dispatch_callback_async t.callback k (crud u.is_create) u.before v,
          record t { rows = u.rows },
        )

    unfoldable pub erase : Table C K V → K → Future C K V × Table C K V
    unfolding Columns.erase
    erase t k =
        let (found, before, rows) = Columns.erase t.rows k blank in
        elim found [
          | false ↦ (ready, record t { rows = rows })
          | true ↦
              (dispatch_callback_async t.callback k delete before blank, record t { rows = rows })
        ]

  module _ ⦃key : Key K⦄ where
    unfoldable pub get : Table C K V → K → (out : V) → Bool × V
    unfolding Columns.get
    get t k out = Columns.get t.rows k out
