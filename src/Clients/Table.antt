-- ===== src/Clients/Table.antt =====
-- What the server uses of the client manager (client.h), as operations and laws. A table stands for
-- the list of its clients, the newest first, and `Exhausted` for the lack of memory for one more.
use tiny_mon.Base.{
  ℕ, ◌≤◌, ◌≡◌, ◌⊎◌, Bool, Option, none, some, List, [], ◌∷◌, ◌==◌, if◌then◌else◌, length,
}
use tiny_mon.Os.{Address}
use tiny_mon.Clients.{Info, Outcome, ok, new_info, max_clients}

-- The newest client with the descriptor.
unfoldable pub find_info : List Info → ℕ → Option Info
find_info [] fd = none
find_info (i ∷ xs) fd = if i.fd == fd then some i else find_info xs fd

-- The clients without the newest that has the descriptor.
unfoldable pub erase_info : List Info → ℕ → List Info
erase_info [] fd = []
erase_info (i ∷ xs) fd = if i.fd == fd then xs else i ∷ erase_info xs fd

pub record ClientTable : Type 1 where
  pub Table : Type 0
  pub Shows : Table → List Info → Type 0
  pub Exhausted : Table → Type 0
  pub create : (memory : Bool) → Option Table
  pub destroy : Table → Outcome (Unit {0})
  pub add : Table → (fd : ℕ) → Address → Option Info × Table
  pub find : Table → (fd : ℕ) → Outcome (Option Info)
  pub remove : Table → (fd : ℕ) → Outcome Table
  pub count : Table → ℕ
  pub create-Shows : (m : Bool) (t : Table) → create m ≡ some t → Shows t []
  pub destroy-Shows : (t : Table) (xs : List Info) → Shows t xs → destroy t ≡ ok tt
  pub add-Shows :
      (t : Table) (xs : List Info) (fd : ℕ) (addr : Address)
      → Shows t xs
      → (((length xs ≡ max_clients) ⊎ Exhausted t) × (add t fd addr ≡ (none, t)))
        ⊎ ((t' : Table) × (add t fd addr ≡ (some (new_info fd addr), t'))
            × Shows t' (new_info fd addr ∷ xs))
  pub find-Shows :
      (t : Table) (xs : List Info) (fd : ℕ) → Shows t xs → find t fd ≡ ok (find_info xs fd)
  pub remove-Shows :
      (t : Table) (xs : List Info) (fd : ℕ)
      → Shows t xs
      → (t' : Table) × (remove t fd ≡ ok t') × Shows t' (erase_info xs fd)
  pub count-Shows : (t : Table) (xs : List Info) → Shows t xs → count t ≡ length xs
  pub length-Shows : (t : Table) (xs : List Info) → Shows t xs → length xs ≤ max_clients
