-- ===== src/Clients/Chain.antt =====
-- The nodes that a manager's list runs through, as a predicate on the heap.
use tiny_mon.Base.{
  ℕ, ◌≡◌, ◌≢◌, refl, Bool, true, false, ◌||◌, Option, none, some, List, [], ◌∷◌, arith, ◌==◌,
  if◌then◌else◌, length, ◌+◌, ◌≤◌,
}
use tiny_mon.Clients.{Ptr, null, Info, Node, node, Manager, max_clients, update}

-- The address and the contents of each node, from the head on.
abbrev pub Cells : Type 0
Cells = List (Ptr × Info)

abbrev pub has : Cells → Ptr → Bool
has [] a = false
has ((p, _) ∷ xs) a = (a == p) || has xs a

-- From `p` the successors lead through the distinct nodes `xs`, and then to null.
abbrev pub Chain : (Ptr → Option Node) → Ptr → Cells → Type 0
Chain cell p [] = p ≡ null
Chain cell p ((q, i) ∷ xs) =
    (next : Ptr) × (p ≡ q)
    × (q ≢ null)
    × (has xs q ≡ false)
    × (cell q ≡ some (node i next))
    × Chain cell next xs

-- The first node with the descriptor `fd`.
unfoldable pub find_cell : Cells → ℕ → Option Ptr
find_cell [] fd = none
find_cell ((p, i) ∷ xs) fd = if i.fd == fd then some p else find_cell xs fd

unfoldable pub contains : Cells → ℕ → Bool
contains [] fd = false
contains ((p, i) ∷ xs) fd = (i.fd == fd) || contains xs fd

-- The nodes without the first that has the descriptor `fd`.
unfoldable pub erase_cell : Cells → ℕ → Cells
erase_cell [] fd = []
erase_cell ((p, i) ∷ xs) fd = if i.fd == fd then xs else (p, i) ∷ erase_cell xs fd

pub record Holds (m : Manager) (xs : Cells) : Type 0 where
  pub chain : Chain m.cell m.clients xs
  pub counted : m.client_count ≡ length xs
  pub bounded : length xs ≤ max_clients

-- A chain survives any change that spares its nodes.
pub Chain-frame :
    (cell cell' : Ptr → Option Node) (p : Ptr) (xs : Cells)
    → ((a : Ptr) → has xs a ≡ true → cell' a ≡ cell a)
    → Chain cell p xs
    → Chain cell' p xs
Chain-frame cell cell' p [] same c = c
Chain-frame cell cell' p ((q, i) ∷ xs) same (next, e, ne, out, at, c) = (
  next,
  e,
  ne,
  out,
  ground (arith, same q),
  Chain-frame cell cell' next xs (λ a h. same a (ground arith)) c,
)

pub Chain-update :
    (cell : Ptr → Option Node) (p a : Ptr) (n : Option Node) (xs : Cells)
    → has xs a ≡ false
    → Chain cell p xs
    → Chain (update cell a n) p xs
unfolding update
Chain-update cell p a n xs out c =
    Chain-frame cell (λ b. if b == a then n else cell b) p xs (λ b h. ground arith) c

pub not-has-erase_cell :
    (xs : Cells) (fd : ℕ) (a : Ptr) → has xs a ≡ false → has (erase_cell xs fd) a ≡ false
unfolding erase_cell
not-has-erase_cell [] fd a h = refl
not-has-erase_cell (x ∷ xs) fd a h = ground (arith, not-has-erase_cell xs fd a)

pub length-erase_cell :
    (xs : Cells) (fd : ℕ)
    → length xs ≡ length (erase_cell xs fd) + (if contains xs fd then 1 else 0)
unfolding erase_cell contains
length-erase_cell [] fd = refl
length-erase_cell (x ∷ xs) fd = ground (arith, length-erase_cell xs fd)

-- An address that holds no node is not on the chain.
pub not-has_of_unused :
    (cell : Ptr → Option Node) (p a : Ptr) (xs : Cells)
    → Chain cell p xs
    → cell a ≡ none
    → has xs a ≡ false
not-has_of_unused cell p a [] c unused = refl
not-has_of_unused cell p a ((q, i) ∷ xs) (next, e, ne, out, at, c) unused =
    ground (arith, not-has_of_unused cell next a xs c)
