-- ===== src/Server/Distinct.antt =====
-- The descriptors of a server of src/internal/libsocket.c on a kernel that gives out unused ones.
pub mod Tests
use tiny_mon.Base.{
  ℕ, ◌≡◌, ◌≢◌, refl, sym, ap, subst, ◌∙◌, Option, none, some, List, [], ◌∷◌, ◌++◌, ==_self, ==_ne,
}
use mathlib.Core.Option.{some-injective}
use tiny_mon.Os.{Sys, Reply, Call, Run, done}
use tiny_mon.Os.Descriptors.{live}
use tiny_mon.Os.Ensures
use tiny_mon.Os.Ensures.{Ensures}
use tiny_mon.Os.Fresh.{Absent, Distinct, AllUnused, Distinct-live}
use tiny_mon.Clients.{Info, ok}
use tiny_mon.Clients.Table.{ClientTable, find_info}
use tiny_mon.Server.{Server}
use tiny_mon.Server.Lifecycle.{socket_server_start}
use tiny_mon.Server.Owns.{Polite, Owns, fds}
use tiny_mon.Server.Loop.{socket_server_start-Owns}

abbrev pub All : (Info → Type 0) → List Info → Type 0
All P [] = Unit {0}
All P (c ∷ xs) = P c × All P xs

ended : {A : Type 0} {Q : A → Sys → Type 0} {a : A} {s : Sys} → Ensures Q (done a s) → Q a s
ended (Ensures.ends q) = q

module _ (base : List ℕ) where
  -- A client in front that has another descriptor is not found in place of the others.
  All-cons :
      (i : Info) (xs ys : List Info)
      → Absent i.fd (fds ys ++ base)
      → All (λ c. find_info xs c.fd ≡ some c) ys
      → All (λ c. find_info (i ∷ xs) c.fd ≡ some c) ys
  unfolding find_info
  All-cons i xs [] out found = tt
  All-cons i xs (c ∷ ys) out found =
      (rw (==_ne i.fd c.fd out.0) found.0, All-cons i xs ys out.1 found.1)

  found-All :
      (xs : List Info) → Distinct (fds xs ++ base) → All (λ c. find_info xs c.fd ≡ some c) xs
  unfolding find_info
  found-All [] d = tt
  found-All (i ∷ xs) d = (rw (==_self i.fd) refl, All-cons i xs xs d.0 (found-All xs d.1))

module _ (ct : ClientTable) (base : List ℕ) where
  open ct use {Table, Shows}

  find-All :
      (t : Table) (xs ys : List Info)
      → Shows t xs
      → All (λ c. find_info xs c.fd ≡ some c) ys
      → All (λ c. ct.find t c.fd ≡ ok (some c)) ys
  find-All t xs [] h found = tt
  find-All t xs (c ∷ ys) h found =
      (ct.find-Shows t xs c.fd h ∙ ap ok found.0, find-All t xs ys h found.1)

  -- Let the kernel give out unused descriptors only. When a server has been started, with an epoll handler
  -- and polite callbacks, and with its clients' descriptors open beside `base`, and has returned, then the
  -- descriptors of its clients are all different, none of them is in `base`, and a search in the table
  -- for the descriptor of a client finds that client.
  pub socket_server_start-Distinct :
      (server server' : Server Table) (s t : Sys) (code : ℕ)
      → server.epoll ≢ none
      → Polite server.callbacks
      → Owns ct base server s
      → socket_server_start ct (some server) s ≡ done (code, some server') t
      → AllUnused t.trace
      → (xs : List Info) × Shows server'.client_mgr xs
        × Distinct (fds xs ++ base)
        × All (λ c. ct.find server'.client_mgr c.fd ≡ ok (some c)) xs
  socket_server_start-Distinct server server' s t code ne polite owns run unused =
      let (zero', server'', same, kept, (xs, h, l)) =
        ended (subst (Ensures _) run (socket_server_start-Owns ct base server s ne polite owns)) in
      let h' : Shows server'.client_mgr xs =
        subst (λ (x : Server Table). Shows x.client_mgr xs)
          (sym (some-injective server' server'' same)) h in
      let distinct : Distinct (fds xs ++ base) = subst Distinct l (Distinct-live t.trace unused) in
      (xs, h', distinct, find-All server'.client_mgr xs xs h' (found-All base xs distinct))
