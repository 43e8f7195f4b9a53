-- ===== src/Clients/Tests.antt =====
-- A manager with two clients, and the operations of the client manager on it.
use tiny_mon.Base.{
  List, ◌≡◌, refl, true, false, ◌==◌, if◌then◌else◌, Option, none, some, [], ◌∷◌, arith,
}
use tiny_mon.Os.{Address}
use tiny_mon.Clients.{Ptr, Node, node, new_info, Manager, ok, find, remove, destroy}
use tiny_mon.Clients.Chain.{Cells, has, Holds, erase_cell}
use tiny_mon.Clients.Refines.{Op}
use tiny_mon.Clients.Laws.{destroy-frees}
use tiny_mon.Clients.Removal.{remove-Holds}

abbrev pub home : Address
home = record { ip = 0x7f00_0001; port = 8080 }

abbrev two_cells : Cells
two_cells = (16, new_info 7 home) ∷ (32, new_info 5 home) ∷ []

abbrev two_clients : Manager
two_clients = record {
  clients = 16;
  client_count = 2;
  cell = λ p.
      if p == 16
      then some (node (new_info 7 home) 32)
      else if p == 32
      then some (node (new_info 5 home) 0)
      else none;
}

two_clients-Holds : Holds two_clients two_cells
two_clients-Holds = record {
  chain = (32, refl, ground arith, refl, refl, (0, refl, ground arith, refl, refl, refl));
  counted = refl;
  bounded = omega arith;
}

find-test : find (some two_clients) 5 ≡ ok (some 32)
unfolding find
find-test = refl

remove-Holds_example :
    (m' : Manager) × (remove (some two_clients) 5 ≡ ok (some m'))
    × Holds m' (erase_cell two_cells 5)
    × ((a : Ptr) → has two_cells a ≡ false → m'.cell a ≡ two_clients.cell a)
    × ((a : Ptr)
        → has two_cells a ≡ true
        → has (erase_cell two_cells 5) a ≡ false
        → m'.cell a ≡ none)
remove-Holds_example = remove-Holds two_clients two_cells 5 two_clients-Holds

destroy-frees_example :
    (cell' : Ptr → Option Node) × (destroy (some two_clients) ≡ ok cell')
    × ((a : Ptr) → cell' a ≡ (if has two_cells a then none else two_clients.cell a))
destroy-frees_example = destroy-frees two_clients two_cells two_clients-Holds

abbrev calls : List Op
calls = Op.add 7 (record { ip = 1; port = 9 }) ∷ Op.find 7 ∷ Op.remove 7 ∷ Op.find 7 ∷ Op.count ∷ []
