-- ===== src/Server/Release.antt =====
-- `socket_server_create` and `socket_server_destroy`: the descriptors that they open and close.
use tiny_mon.Base.{ℕ, ◌≡◌, ◌≢◌, ◌⊎◌, ==_ne, ap, ◌∙◌, Option, none, some, List, ◌∷◌, minus_one}
use tiny_mon.Os.{Sys, Call, ◌>>=◌, ◌>>◌}
use tiny_mon.Os.Descriptors.{live, closed}
use tiny_mon.Os.Ensures
use tiny_mon.Os.Ensures.{Ensures, ends, exits, Answered, sys-Answered}
use tiny_mon.Epoll
use tiny_mon.Epoll.{Handler}
use tiny_mon.Socket.Laws.{close-live}
use tiny_mon.Clients.{Info}
use tiny_mon.Clients.Table.{ClientTable}
use tiny_mon.Server.{Server, Callbacks}
use tiny_mon.Server.Lifecycle.{socket_server_destroy}
use tiny_mon.Server.Owns.{Owns}

destroy-live :
    (h : Handler) (s : Sys)
    → h.epoll_fd ≢ minus_one
    → Ensures (λ _ t. live t.trace ≡ closed h.epoll_fd (live s.trace)) (Epoll.destroy (some h) s)
unfolding Epoll.destroy
destroy-live h s ne =
    rw (==_ne h.epoll_fd minus_one ne)
      (Ensures.bind (sys-Answered (Call.close h.epoll_fd) s) λ r t a. ends (ap live a.trace))

module _ (ct : ClientTable) where
  open ct use {Table, Shows}

  -- What a creation leaves: nothing new, or a server that owns its two descriptors and has no clients.
  abbrev pub Created : List ℕ → Option Callbacks → Option (Server Table) → Sys → Type 0
  Created ds callbacks o t =
      ((o ≡ none) × (live t.trace ≡ ds))
      ⊎ ((server : Server Table) × (h : Handler) × (o ≡ some server)
          × (callbacks ≡ some server.callbacks)
          × (server.epoll ≡ some h)
          × (h.epoll_fd ≢ minus_one)
          × (server.listen_fd ≢ minus_one)
          × Owns ct (h.epoll_fd ∷ server.listen_fd ∷ ds) server t)

  -- Destroying a server with valid descriptors and a well-formed table closes its listening socket and
  -- its epoll descriptor, and no other descriptor: those of its clients stay open.
  pub socket_server_destroy-live :
      (server : Server Table) (h : Handler) (xs : List Info) (s : Sys)
      → server.epoll ≡ some h
      → h.epoll_fd ≢ minus_one
      → server.listen_fd ≢ minus_one
      → Shows server.client_mgr xs
      → Ensures
          (λ _ t. live t.trace ≡ closed h.epoll_fd (closed server.listen_fd (live s.trace)))
          (socket_server_destroy ct (some server) s)
  unfolding socket_server_destroy
  socket_server_destroy-live server h xs s e ne ne' shows =
      rw (==_ne server.listen_fd minus_one ne', e)
        (Ensures.bind (Ensures.bind (close-live server.listen_fd s) λ _ t l. ends l) λ _ t l.
          Ensures.bind (destroy-live h t ne) λ _ u l'.
            rw (ct.destroy-Shows server.client_mgr xs shows) (ends (l' ∙ ap (closed h.epoll_fd) l)))
