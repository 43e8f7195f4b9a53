-- ===== src/Clients.antt =====
-- src/internal/libsocket.c and client.h, the client manager: a linked list on the heap, whose head
-- and counter are fields of the manager. `mgr` is `none` where the source has a null pointer, and
-- the heap of the nodes is part of the manager's state. The loops run on fuel.
pub mod HeapTable
pub mod Laws
pub mod Removal
pub mod Refines
pub mod Tests
pub mod Table
pub mod Chain
use tiny_mon.Base.{
  ℕ, zero, suc, ◌+◌, Option, none, some, Bool, true, false, not, ◌==◌, leb, ◌&&◌, if◌then◌else◌,
  int_inc, int_dec, is_negative,
}
use tiny_mon.Os.{Address}

abbrev pub Ptr : Type 0
Ptr = ℕ

abbrev pub null : Ptr
null = 0

abbrev pub max_clients : ℕ
max_clients = 1000

-- `client_info_t`; `user_data` is a pointer.
pub record Info : Type 0 where
  pub fd : ℕ
  pub addr : Address
  pub user_data : Ptr

-- What `client_manager_add` stores.
abbrev pub new_info : ℕ → Address → Info
new_info fd addr = record { fd = fd; addr = addr; user_data = null }

pub record Node : Type 0 where
  pub info : Info
  pub next : Ptr

abbrev pub node : Info → Ptr → Node
node i p = record { info = i; next = p }

-- The manager and the nodes that are allocated.
pub record Manager : Type 0 where
  pub clients : Ptr
  pub client_count : ℕ
  pub cell : Ptr → Option Node

unfoldable pub update : (Ptr → Option Node) → Ptr → Option Node → Ptr → Option Node
update cell p c a = if a == p then c else cell a

-- `fault` is an access to a pointer that holds no node.
pub data Outcome (A : Type 0) : Type 0 where
  ok : A → Outcome A
  fault : Outcome A
  out_of_fuel : Outcome A

abbrev pub with_node : {A : Type 0} → Option Node → (Node → Outcome A) → Outcome A
with_node none k = fault
with_node (some n) k = k n

-- A new manager, or the null pointer if `calloc` fails.
unfoldable pub create : (memory : Bool) → Option Manager
create memory =
    if memory then some (record { clients = null; client_count = 0; cell = λ p. none }) else none

unfoldable pub destroy_loop : (fuel : ℕ) → Ptr → (Ptr → Option Node) → Outcome (Ptr → Option Node)
destroy_loop zero p cell = out_of_fuel
destroy_loop (suc fuel) p cell = elim (p == null) [
  | true ↦ ok cell
  | false ↦ with_node (cell p) (λ n. destroy_loop fuel n.next (update cell p none))
]

-- The nodes that stay allocated; the manager itself is freed too.
unfoldable pub destroy : Option Manager → Outcome (Ptr → Option Node)
unfolding destroy_loop
destroy none = ok (λ p. none)
destroy (some m) = destroy_loop (m.client_count + 1) m.clients m.cell

-- `fresh` is what `malloc` returns.
unfoldable pub add_node : (fresh : Ptr) → Manager → (fd : ℕ) → Address → Option Ptr × Manager
add_node fresh m fd addr =
    if not (is_negative m.client_count) && leb max_clients m.client_count
    then (none, m)
    else if fresh == null
    then (none, m)
    else (
      some fresh,
      record {
        clients = fresh;
        client_count = int_inc m.client_count;
        cell = update m.cell fresh (some (node (new_info fd addr) m.clients));
      },
    )

unfoldable pub find_loop : (fuel : ℕ) → Manager → Ptr → (fd : ℕ) → Outcome (Option Ptr)
find_loop zero m p fd = out_of_fuel
find_loop (suc fuel) m p fd = elim (p == null) [
  | true ↦ ok none
  | false ↦
      with_node (m.cell p)
        (λ n. if n.info.fd == fd then ok (some p) else find_loop fuel m n.next fd)
]

-- A pointer to a pointer to a node: to the manager's head, or to a node's successor.
pub data Link : Type 0 where
  head : Link
  next_of : Ptr → Link

unfoldable pub read_link : Link → Manager → Option Ptr
read_link head m = some m.clients
read_link (next_of p) m = elim (m.cell p) [ none ↦ none | some n ↦ some n.next ]

unfoldable pub write_link : Link → Ptr → Manager → Manager
write_link head v m = record m { clients = v }
write_link (next_of p) v m = record m {
  cell = update m.cell p (elim (m.cell p) [ none ↦ none | some n ↦ some (node n.info v) ]);
}

abbrev pub with_ptr : {A : Type 0} → Option Ptr → (Ptr → Outcome A) → Outcome A
with_ptr none k = fault
with_ptr (some p) k = k p

-- `*pp = (*pp)->next`, `free` and the counter.
unfoldable pub unlink : Link → Ptr → Node → Manager → Manager
unfolding write_link
unlink pp p n m =
    let m' = write_link pp n.next m in
    record m' { cell = update m'.cell p none; client_count = int_dec m'.client_count }

unfoldable pub remove_loop : (fuel : ℕ) → Manager → Link → (fd : ℕ) → Outcome Manager
unfolding read_link unlink
remove_loop zero m pp fd = out_of_fuel
remove_loop (suc fuel) m pp fd = with_ptr (read_link pp m) (λ p. elim (p == null) [
  | true ↦ ok m
  | false ↦
      with_node (m.cell p)
        (λ n. if n.info.fd == fd then ok (unlink pp p n m) else remove_loop fuel m (next_of p) fd)
])

unfoldable pub add :
    (fresh : Ptr) → Option Manager → (fd : ℕ) → Address → Option Ptr × Option Manager
unfolding add_node
add fresh none fd addr = (none, none)
add fresh (some m) fd addr = let (info, m') = add_node fresh m fd addr in (info, some m')

unfoldable pub find : Option Manager → (fd : ℕ) → Outcome (Option Ptr)
unfolding find_loop
find none fd = ok none
find (some m) fd = find_loop (m.client_count + 1) m m.clients fd

abbrev pub as_mgr : Outcome Manager → Outcome (Option Manager)
as_mgr (ok m) = ok (some m)
as_mgr fault = fault
as_mgr out_of_fuel = out_of_fuel

unfoldable pub remove : Option Manager → (fd : ℕ) → Outcome (Option Manager)
unfolding remove_loop
remove none fd = ok none
remove (some m) fd = as_mgr (remove_loop (m.client_count + 1) m head fd)

unfoldable pub count : Option Manager → ℕ
count none = 0
count (some m) = m.client_count
