-- ===== src/Server/Capacity.antt =====
-- How many descriptors a server of src/internal/libsocket.c holds.
use tiny_mon.Base.{
  ℕ, suc, ◌+◌, ◌≤◌, ◌≡◌, ◌≢◌, refl, ap, none, some, List, [], ◌∷◌, length, length-append, arith,
}
use tiny_mon.Os.{Sys}
use tiny_mon.Os.Descriptors.{live}
use tiny_mon.Os.Ensures
use tiny_mon.Os.Ensures.{Ensures}
use tiny_mon.Clients.{Info}
use tiny_mon.Clients.Table.{ClientTable}
use tiny_mon.Server.{Server}
use tiny_mon.Server.Lifecycle.{socket_server_start}
use tiny_mon.Server.Owns.{Polite, Owns, fds}
use tiny_mon.Server.Loop.{socket_server_start-Owns}

length-fds : (xs : List Info) → length (fds xs) ≡ length xs
length-fds [] = refl
length-fds (i ∷ xs) = ap suc (length-fds xs)

module _ (ct : ClientTable) (base : List ℕ) where
  open ct use {Table, Shows}

  -- The count of the clients is that of the descriptors beside `base`, and not above 1000.
  abbrev pub Counted : Server Table → Sys → Type 0
  Counted server t =
      (length (live t.trace) ≡ ct.count server.client_mgr + length base)
      × (ct.count server.client_mgr ≤ 1000)

  Owns-Counted : (server : Server Table) (t : Sys) → Owns ct base server t → Counted server t
  Owns-Counted server t (xs, h, l) =
      let count = ct.count-Shows server.client_mgr xs h in
      let bound = ct.length-Shows server.client_mgr xs h in
      (
        omega (arith, ap length l, length-append (fds xs) base, length-fds xs, count),
        omega (arith, count, bound),
      )

  -- Let a server have an epoll handler and polite callbacks, and let what is open beside `base` be the
  -- descriptors of its clients. Starting it never faults nor uses its fuel up. Whenever it returns, the
  -- result is 0, and as many descriptors are open beside `base` as `client_manager_count` says, which
  -- is at most 1000.
  pub socket_server_start-Counted :
      (server : Server Table) (s : Sys)
      → server.epoll ≢ none
      → Polite server.callbacks
      → Owns ct base server s
      → Ensures
          (λ (code, out) t.
            (code ≡ 0) × (server' : Server Table) × (out ≡ some server') × Counted server' t)
          (socket_server_start ct (some server) s)
  socket_server_start-Counted server s ne polite owns =
      Ensures.weaken (socket_server_start-Owns ct base server s ne polite owns)
        λ _ t (zero', server', same, kept, owns').
          (zero', server', same, Owns-Counted server' t owns')
