-- ===== src/Clients/HeapTable.antt =====
-- The linked list implements the table of clients, whatever unused addresses `malloc` gives.
pub mod Samples
use tiny_mon.Base.{
  ℕ, ◌≤◌, ◌≡◌, ◌≢◌, ◌⊎◌, refl, ap, subst, inl, inr, Bool, true, false, Option, none, some, List, [],
  ◌∷◌, map, length, arith,
}
use mathlib.Core.Option.{some-injective}
use native.Mathlib.Decide.{dec_lt, ℕ_discrete}
use tiny_mon.Os.{Address}
use tiny_mon.Clients.{
  Ptr, null, Info, Node, Manager, Outcome, ok, fault, out_of_fuel, new_info, max_clients, create,
  destroy, add, find, remove, count,
}
use tiny_mon.Clients.Chain.{Cells, Chain, Holds, find_cell, erase_cell}
use tiny_mon.Clients.Laws.{find-find_cell, add-Holds, add_refused, destroy-frees}
use tiny_mon.Clients.Removal.{remove-Holds}
use tiny_mon.Clients.Table.{ClientTable, find_info, erase_info}

abbrev pub infos : Cells → List Info
infos = map (λ c. c.1)

-- The client that a pointer points to.
pub info_at : Option Manager → Option Ptr → Option Info
info_at none p = none
info_at (some m) none = none
info_at (some m) (some p) = elim (m.cell p) [ none ↦ none | some n ↦ some n.info ]

abbrev pub Shows : Option Manager → List Info → Type 0
Shows none xs = ⊥
Shows (some m) xs = (cells : Cells) × Holds m cells × (infos cells ≡ xs)

length-infos : (cells : Cells) → length (infos cells) ≡ length cells
length-infos [] = refl
length-infos (c ∷ cells) = omega (arith, length-infos cells)

infos-erase_cell :
    (cells : Cells) (fd : ℕ) → infos (erase_cell cells fd) ≡ erase_info (infos cells) fd
unfolding erase_cell erase_info
infos-erase_cell [] fd = refl
infos-erase_cell ((p, i) ∷ cells) fd = ground (arith, infos-erase_cell cells fd)

info_at-find_cell :
    (m : Manager) (p : Ptr) (cells : Cells) (fd : ℕ)
    → Chain m.cell p cells
    → info_at (some m) (find_cell cells fd) ≡ find_info (infos cells) fd
unfolding info_at find_cell find_info
info_at-find_cell m p [] fd c = refl
info_at-find_cell m p ((q, i) ∷ cells) fd (next, e, ne, out, at, c) =
    ground (arith, info_at-find_cell m next cells fd c)

module _ (malloc : Manager → Ptr) where
  fresh : Option Manager → Ptr
  fresh none = null
  fresh (some m) = malloc m

  add_info : Option Manager → ℕ → Address → Option Info × Option Manager
  unfolding fresh info_at
  add_info t fd addr = let (p, t') = add (fresh t) t fd addr in (info_at t' p, t')

  -- `malloc` has no address left.
  abbrev Exhausted : Option Manager → Type 0
  Exhausted none = ⊥
  Exhausted (some m) = malloc m ≡ null

  abbrev find_result : Option Manager → Outcome (Option Ptr) → Outcome (Option Info)
  find_result t (ok p) = ok (info_at t p)
  find_result t fault = fault
  find_result t out_of_fuel = out_of_fuel

  module _ (unused : (m : Manager) → malloc m ≢ null → m.cell (malloc m) ≡ none) where
    add_info-Shows :
        (t : Option Manager) (xs : List Info) (fd : ℕ) (addr : Address)
        → Shows t xs
        → (((length xs ≡ max_clients) ⊎ Exhausted t) × (add_info t fd addr ≡ (none, t)))
          ⊎ ((t' : Option Manager) × (add_info t fd addr ≡ (some (new_info fd addr), t'))
              × Shows t' (new_info fd addr ∷ xs))
    unfolding add_info
    add_info-Shows none xs fd addr h = absurd h
    add_info-Shows (some m) xs fd addr (cells, h, e) = elim (dec_lt (length cells) max_clients) [
      | no full ↦ inl (
        inl (omega (arith, h.bounded, length-infos cells, ap length e)),
        rw (add_refused m cells (malloc m) fd addr h (inl (omega (arith, h.bounded)))),
      )
      | yes room ↦ elim (ℕ_discrete (malloc m) null) [
        | yes exhausted ↦
            inl (inr exhausted, rw (add_refused m cells (malloc m) fd addr h (inr exhausted)))
        | no ne ↦
            let (m', step, h') = add-Holds m cells (malloc m) fd addr h room ne (unused m ne) in
            inr (
              some m',
              ground (arith, step, h'.chain.4),
              ((malloc m, new_info fd addr) ∷ cells, h', ap (λ l. new_info fd addr ∷ l) e),
            )
      ]
    ]

    find_result-Shows :
        (t : Option Manager) (xs : List Info) (fd : ℕ)
        → Shows t xs
        → find_result t (find t fd) ≡ ok (find_info xs fd)
    find_result-Shows none xs fd h = absurd h
    find_result-Shows (some m) xs fd (cells, h, e) =
        rw (find-find_cell m cells fd h, ← e)
          (ap ok (info_at-find_cell m m.clients cells fd h.chain))

    remove-Shows :
        (t : Option Manager) (xs : List Info) (fd : ℕ)
        → Shows t xs
        → (t' : Option Manager) × (remove t fd ≡ ok t') × Shows t' (erase_info xs fd)
    remove-Shows none xs fd h = absurd h
    remove-Shows (some m) xs fd (cells, h, e) =
        let (m', step, h', same, freed) = remove-Holds m cells fd h in
        (some m', step, (erase_cell cells fd, h', rw (infos-erase_cell cells fd, e)))

    count-Shows : (t : Option Manager) (xs : List Info) → Shows t xs → count t ≡ length xs
    unfolding count
    count-Shows none xs h = absurd h
    count-Shows (some m) xs (cells, h, e) = rw (← e) (omega (arith, h.counted, length-infos cells))

    length-Shows : (t : Option Manager) (xs : List Info) → Shows t xs → length xs ≤ max_clients
    length-Shows none xs h = absurd h
    length-Shows (some m) xs (cells, h, e) = rw (← e) (omega (arith, h.bounded, length-infos cells))

    destroyed : Outcome (Ptr → Option Node) → Outcome (Unit {0})
    destroyed (ok cell) = ok tt
    destroyed fault = fault
    destroyed out_of_fuel = out_of_fuel

    destroy-Shows :
        (t : Option Manager) (xs : List Info) → Shows t xs → destroyed (destroy t) ≡ ok tt
    unfolding destroyed
    destroy-Shows none xs h = absurd h
    destroy-Shows (some m) xs (cells, h, e) =
        let (cell', step, gone) = destroy-frees m cells h in rw step

    create_mgr : Bool → Option (Option Manager)
    create_mgr memory = elim (create memory) [ none ↦ none | some m ↦ some (some m) ]

    create_mgr-Shows : (b : Bool) (t : Option Manager) → create_mgr b ≡ some t → Shows t []
    unfolding create_mgr create
    create_mgr-Shows true t e =
        subst (λ t. Shows t []) (some-injective _ _ e)
          ([], record { chain = refl; counted = refl; bounded = omega arith }, refl)
    create_mgr-Shows false t e = cc

    -- The manager of libsocket.c as a table of clients.
    pub heap_table : ClientTable
    unfolding add_info create_mgr destroyed
    heap_table = record {
      Table = Option Manager;
      Shows = Shows;
      Exhausted = Exhausted;
      create = create_mgr;
      destroy = λ t. destroyed (destroy t);
      add = add_info;
      find = λ t fd. find_result t (find t fd);
      remove = remove;
      count = count;
      create-Shows = create_mgr-Shows;
      destroy-Shows = destroy-Shows;
      add-Shows = add_info-Shows;
      find-Shows = find_result-Shows;
      remove-Shows = remove-Shows;
      count-Shows = count-Shows;
      length-Shows = length-Shows;
    }
