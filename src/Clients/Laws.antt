-- ===== src/Clients/Laws.antt =====
-- The operations of the client manager against the chain of its nodes.
use tiny_mon.Base.{
  ℕ, zero, suc, ◌+◌, ◌<◌, ◌≡◌, ◌≢◌, refl, ◌⊎◌, false, true, if◌then◌else◌, Option, none, some, [],
  ◌∷◌, arith, length, int_inc,
}
use tiny_mon.Os.{Address}
use tiny_mon.Clients.{
  Ptr, null, new_info, create, destroy, destroy_loop, Node, node, Manager, max_clients, update, ok,
  add, find_loop, find,
}
use tiny_mon.Clients.Chain.{Cells, has, Chain, find_cell, Holds, Chain-update, not-has_of_unused}

update-at : (cell : Ptr → Option Node) (p : Ptr) (c : Option Node) → update cell p c p ≡ c
unfolding update
update-at cell p c = ground arith

module _ (m : Manager) (fd : ℕ) where
  find_loop-find_cell :
      (fuel : ℕ) (p : Ptr) (xs : Cells)
      → Chain m.cell p xs
      → length xs < fuel
      → find_loop fuel m p fd ≡ ok (find_cell xs fd)
  unfolding find_loop find_cell
  find_loop-find_cell zero p xs c lt = absurd (omega arith)
  find_loop-find_cell (suc fuel) p [] c lt = rw c
  find_loop-find_cell (suc fuel) p ((q, i) ∷ xs) (next, e, ne, out, at, c) lt =
      ground (arith, find_loop-find_cell fuel next xs c)

-- On a well-formed manager `client_manager_find` returns the first node with the descriptor, and null
-- if there is none.
pub find-find_cell :
    (m : Manager) (xs : Cells) (fd : ℕ) → Holds m xs → find (some m) fd ≡ ok (find_cell xs fd)
unfolding find
find-find_cell m xs fd h =
    find_loop-find_cell m fd (m.client_count + 1) m.clients xs h.chain (omega (arith, h.counted))

-- With room for one more and an unused address from `malloc`, `client_manager_add` puts a new node
-- in front of a well-formed list, which stays well formed.
pub add-Holds :
    (m : Manager) (xs : Cells) (fresh : Ptr) (fd : ℕ) (addr : Address)
    → Holds m xs
    → length xs < max_clients
    → fresh ≢ null
    → m.cell fresh ≡ none
    → (m' : Manager) × (add fresh (some m) fd addr ≡ (some fresh, some m'))
      × Holds m' ((fresh, new_info fd addr) ∷ xs)
unfolding add
add-Holds m xs fresh fd addr h room ne unused = (
  record {
    clients = fresh;
    client_count = int_inc m.client_count;
    cell = update m.cell fresh (some (node (new_info fd addr) m.clients));
  },
  ground (arith, h.counted),
  record {
    chain = (
      m.clients,
      refl,
      ne,
      out,
      update-at m.cell fresh _,
      Chain-update m.cell m.clients fresh _ xs out h.chain,
    );
    counted = ground (arith, h.counted);
    bounded = room;
  },
)
  where
    out : has xs fresh ≡ false
    out = not-has_of_unused m.cell m.clients fresh xs h.chain unused

-- At 1000 clients, and where `malloc` fails, `client_manager_add` returns null and leaves a
-- well-formed manager as it was.
pub add_refused :
    (m : Manager) (xs : Cells) (fresh : Ptr) (fd : ℕ) (addr : Address)
    → Holds m xs
    → (length xs ≡ max_clients) ⊎ (fresh ≡ null)
    → add fresh (some m) fd addr ≡ (none, some m)
unfolding add
add_refused m xs fresh fd addr h full = ground (arith, h.counted)

destroy_loop-frees :
    (fuel : ℕ) (p : Ptr) (cell : Ptr → Option Node) (xs : Cells)
    → Chain cell p xs
    → length xs < fuel
    → (cell' : Ptr → Option Node) × (destroy_loop fuel p cell ≡ ok cell')
      × ((a : Ptr) → cell' a ≡ (if has xs a then none else cell a))
unfolding destroy_loop update
destroy_loop-frees zero p cell xs c lt = absurd (omega arith)
destroy_loop-frees (suc fuel) p cell [] c lt = (cell, ground arith, λ a. refl)
destroy_loop-frees (suc fuel) p cell ((q, i) ∷ xs) (next, e, ne, out, at, c) lt =
    let (cell', step, gone) =
      destroy_loop-frees fuel next (update cell q none) xs (Chain-update cell next q none xs out c)
        (omega arith) in
    (cell', ground (arith, step), λ a. ground (arith, gone a))

-- `client_manager_destroy` frees each node of a well-formed list once, and touches nothing else.
pub destroy-frees :
    (m : Manager) (xs : Cells)
    → Holds m xs
    → (cell' : Ptr → Option Node) × (destroy (some m) ≡ ok cell')
      × ((a : Ptr) → cell' a ≡ (if has xs a then none else m.cell a))
unfolding destroy
destroy-frees m xs h =
    destroy_loop-frees (m.client_count + 1) m.clients m.cell xs h.chain (omega (arith, h.counted))

-- A new manager has no clients.
pub create-Holds : (m : Manager) × (create true ≡ some m) × Holds m []
unfolding create
create-Holds = (
  record { clients = null; client_count = 0; cell = λ p. none },
  refl,
  record { chain = refl; counted = refl; bounded = omega arith },
)
