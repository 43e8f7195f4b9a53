-- ===== src/Clients/HeapTable/Samples.antt =====
-- Tables of linked lists with no client and with one.
use tiny_mon.Base.{Option, ◌≡◌, ◌≢◌, refl, ◌==◌, if◌then◌else◌, none, some, [], ◌∷◌, arith}
use tiny_mon.Clients.{Ptr, null, Manager, Info, Node, node}
use tiny_mon.Clients.Table.{ClientTable}
use tiny_mon.Clients.HeapTable.{heap_table}

-- An allocator with room for two nodes.
abbrev pub pick : Ptr → Option Node → Ptr → Ptr
pick p none rest = p
pick p (some n) rest = rest

abbrev pub malloc : Manager → Ptr
malloc m = pick 16 (m.cell 16) (pick 32 (m.cell 32) null)

pick-unused :
    (m : Manager) (p rest : Ptr) (o : Option Node)
    → m.cell p ≡ o
    → (rest ≢ null → m.cell rest ≡ none)
    → pick p o rest ≢ null
    → m.cell (pick p o rest) ≡ none
pick-unused m p rest none e other ne = e
pick-unused m p rest (some n) e other ne = other ne

pub malloc-unused : (m : Manager) → malloc m ≢ null → m.cell (malloc m) ≡ none
malloc-unused m =
    pick-unused m 16 _ (m.cell 16) refl
      (pick-unused m 32 null (m.cell 32) refl (λ ne. absurd (ne refl)))

abbrev pub table : ClientTable
table = heap_table malloc malloc-unused

pub empty_table : table.Table
unfolding heap_table
empty_table = some (record { clients = null; client_count = 0; cell = λ p. none })

pub empty_table-Shows : table.Shows empty_table []
unfolding heap_table empty_table
empty_table-Shows = ([], record { chain = refl; counted = refl; bounded = omega arith }, refl)

pub single_table : Info → table.Table
unfolding heap_table
single_table i = some (record {
  clients = 16;
  client_count = 1;
  cell = λ p. if p == 16 then some (node i null) else none;
})

pub single_table-Shows : (i : Info) → table.Shows (single_table i) (i ∷ [])
unfolding heap_table single_table
single_table-Shows i = (
  (16, i) ∷ [],
  record {
    chain = (null, refl, ground arith, refl, refl, refl);
    counted = refl;
    bounded = omega arith;
  },
  refl,
)
