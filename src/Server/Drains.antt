-- ===== src/Server/Drains.antt =====
-- `handle_accept` and the edge-triggered events: it goes on until there is nothing left to accept.
use tiny_mon.Base.{
  ℕ, zero, suc, ◌+◌, ◌<◌, ◌≡◌, refl, ap, subst, ◌∙◌, ◌==◌, ◌||◌, List, ◌∷◌, ◌++◌, length, arith,
  minus_one,
}
use tiny_mon.Os.{Sys, Call, Reply, eagain, ewouldblock}
use tiny_mon.Os.Descriptors.{live}
use tiny_mon.Os.Ensures
use tiny_mon.Os.Ensures.{Ensures, ends, Answered, sys-Answered, length-script}
use tiny_mon.Socket.{tcp_socket_accept}
use tiny_mon.Clients.Table.{ClientTable}
use tiny_mon.Server.{Server, rounds, handle_accept}
use tiny_mon.Server.Owns.{Polite, Owns, fds, Polite-same}
use tiny_mon.Server.Accept.{admit-Kept}

-- The last call was an `accept` that found no connection.
abbrev pub Drained : ℕ → Sys → Type 0
Drained listen_fd t =
    (r : Reply) × (older : List (Call × Reply)) × (t.trace ≡ (Call.accept listen_fd, r) ∷ older)
    × (r.value ≡ minus_one)

accept-Answered :
    (listen_fd : ℕ) (s : Sys)
    → Ensures
        (λ (fd, addr) t. (r : Reply) × Answered (Call.accept listen_fd) s r t × (fd ≡ r.value))
        (tcp_socket_accept listen_fd s)
unfolding tcp_socket_accept
accept-Answered listen_fd s =
    Ensures.bind (sys-Answered (Call.accept listen_fd) s) λ r t a. ends (r, a, refl)

module _ (ct : ClientTable) (base : List ℕ) where
  open ct use {Table}

  accept_loop-Drained :
      (fuel : ℕ) (server : Server Table) (s : Sys)
      → length s.script < fuel
      → Polite server.callbacks
      → Owns ct base server s
      → Ensures (λ _ t. Drained server.listen_fd t) (handle_accept ct fuel server s)
  unfolding handle_accept
  accept_loop-Drained zero server s lt polite o = absurd (omega arith)
  accept_loop-Drained (suc fuel) server s lt polite (xs, h, l) =
      Ensures.bind (accept-Answered server.listen_fd s) λ (fd, addr) t (r, a, same_fd).
        let taken = length-script a in
        Ensures.branch (fd == minus_one) _ _ t
          (λ e.
            let drained : Drained server.listen_fd t =
              (r, s.trace, a.trace, ground (arith, same_fd)) in
            Ensures.branch (t.errno == eagain || t.errno == ewouldblock) _ _ t (λ _. ends drained)
              (λ _. ends drained))
          (λ e.
            let opened : live t.trace ≡ fd ∷ (fds xs ++ base) =
              ap live a.trace ∙ rw (← same_fd, e, l) in
            Ensures.bind (admit-Kept ct base server t xs fd addr polite h opened) λ server' u k.
              subst (λ (n : ℕ). Ensures (λ _ v. Drained n v) (handle_accept ct fuel server' u))
                (ap {A = Server Table} (λ x. x.listen_fd) k.same)
                (accept_loop-Drained fuel server' u (omega (arith, taken, k.shorter))
                  (Polite-same ct base server server' k.same polite) k.owns))

  -- With polite callbacks, and for a server that owns what is open beside `base`, `handle_accept`
  -- returns only after an `accept` that returned -1: it goes on while connections come, as an
  -- edge-triggered event asks.
  pub handle_accept-Drained :
      (server : Server Table) (s : Sys)
      → Polite server.callbacks
      → Owns ct base server s
      → Ensures (λ _ t. Drained server.listen_fd t) (handle_accept ct (rounds ct s) server s)
  handle_accept-Drained server s polite o =
      accept_loop-Drained (length s.script + 1) server s (omega arith) polite o
