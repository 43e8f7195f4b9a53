-- ===== src/Server/Disconnect.antt =====
-- `socket_server_disconnect`, which a callback may use, and the end of the client that it leaves.
use tiny_mon.Base.{ℕ, ◌≡◌, ap, ◌∙◌, some, List, ◌++◌}
use tiny_mon.Os.{Sys, Call, ◌>>◌}
use tiny_mon.Os.Descriptors.{live, closed}
use tiny_mon.Os.Ensures
use tiny_mon.Os.Ensures.{Ensures, ends, sys-Answered}
use tiny_mon.Clients.{Info}
use tiny_mon.Clients.Table.{ClientTable, find_info, erase_info}
use tiny_mon.Server.{Server, drop_client}
use tiny_mon.Server.Lifecycle.{socket_server_disconnect}
use tiny_mon.Server.Owns.{Polite, fds, remove-Quiet, closed-fds}

module _ (ct : ClientTable) where
  open ct use {Table, Shows}

  drop_client-closed :
      (server : Server Table) (s : Sys) (xs : List Info) (fd : ℕ) (c : Info)
      → Polite server.callbacks
      → Shows server.client_mgr xs
      → Ensures
          (λ server' t.
            (live t.trace ≡ closed fd (live s.trace)) × Shows server'.client_mgr (erase_info xs fd))
          (drop_client ct server fd c s)
  unfolding drop_client
  drop_client-closed server s xs fd c polite h = Ensures.bind (polite.on_disconnected c s) λ _ t q.
      Ensures.bind (remove-Quiet server.epoll fd t) λ r u q'.
        Ensures.bind (sys-Answered (Call.close fd) u) λ r' v a.
          let (mgr, step, h') = ct.remove-Shows server.client_mgr xs fd h in
          rw step (ends (ap live a.trace ∙ ap (closed fd) (q'.1 ∙ q.1), h'))

  -- A client that is disconnected stays in the table. When it is dropped later its descriptor is closed
  -- a second time, behind the first: of what is then open besides the other clients, a descriptor with
  -- the same number is lost.
  pub disconnect-twice :
      (server : Server Table) (s : Sys) (xs : List Info) (client : Info) (base : List ℕ)
      → Polite server.callbacks
      → Shows server.client_mgr xs
      → find_info xs client.fd ≡ some client
      → live s.trace ≡ fds xs ++ base
      → Ensures
          (λ server' t.
            (live t.trace ≡ closed client.fd (fds (erase_info xs client.fd) ++ base))
            × Shows server'.client_mgr (erase_info xs client.fd))
          ((do socket_server_disconnect (some client); drop_client ct server client.fd client) s)
  unfolding socket_server_disconnect
  disconnect-twice server s xs client base polite h found l =
      Ensures.bind
        (Ensures.bind (sys-Answered (Call.close client.fd) s) λ r t a. ends (ap live a.trace))
        λ _ t l'.
          Ensures.weaken (drop_client-closed server t xs client.fd client polite h)
            λ server' u (l'', h'). (
              l''
                  ∙ ap (closed client.fd)
                      (l' ∙ ap (closed client.fd) l ∙ closed-fds xs base client.fd client found),
              h',
            )
