-- ===== src/Server/Loop.antt =====
-- `epoll_event_callback`, the event loop and `socket_server_start`: no descriptor is lost.
use tiny_mon.Base.{
  ℕ, zero, suc, ◌%◌, ◌<◌, ◌≡◌, ◌≢◌, refl, ap, sym, subst, ◌∙◌, inl, inr, not, ◌&&◌, ◌==◌,
  if◌then◌else◌, Bool-cases, Option, none, some, List, [], ◌∷◌, length, arith, minus_one,
  is_negative, take,
}
use tiny_mon.Os.{Event, Sys, Call, eintr}
use tiny_mon.Os.Descriptors.{live}
use tiny_mon.Os.Ensures
use tiny_mon.Os.Ensures.{Ensures, ends, Answered, sys-Answered, length-script}
use tiny_mon.Epoll
use tiny_mon.Epoll.{Handler, dispatch}
use tiny_mon.Clients.Table.{ClientTable}
use tiny_mon.Server.{Server, rounds, epoll_event_callback}
use tiny_mon.Server.Lifecycle.{event_loop, socket_server_start}
use tiny_mon.Server.Owns.{Quiet, quiet, Polite, Owns, Kept, Polite-same, Kept-trans}
use tiny_mon.Server.Accept.{handle_accept-Kept}
use tiny_mon.Server.Receive.{handle_client-Kept}

module _ (ct : ClientTable) (base : List ℕ) where
  open ct use {Table, Shows}

  pub callback-Kept :
      (ptr events : ℕ) (server : Server Table) (s : Sys)
      → Polite server.callbacks
      → Owns ct base server s
      → Ensures (Kept ct base server s) (epoll_event_callback ct ptr events server s)
  unfolding epoll_event_callback
  callback-Kept ptr events server s polite o =
      elim (Bool-cases (ptr % 0x1_0000_0000 == server.listen_fd)) [
        | inl e ↦ rw e (handle_accept-Kept ct base (rounds ct s) server s (omega arith) polite o)
        | inr e ↦ rw e (handle_client-Kept ct base (rounds ct s) server s _ (omega arith) polite o)
      ]

  dispatch-Kept :
      (ready : List Event) (server : Server Table) (s : Sys)
      → Polite server.callbacks
      → Owns ct base server s
      → Ensures (Kept ct base server s) (dispatch (epoll_event_callback ct) ready server s)
  unfolding dispatch
  dispatch-Kept [] server s polite o =
      ends (record { owns = o; shorter = omega arith; same = refl })
  dispatch-Kept (e ∷ es) server s polite o =
      Ensures.bind (callback-Kept e.ptr e.events server s polite o) λ server' t k.
        Ensures.weaken
          (dispatch-Kept es server' t (Polite-same ct base server server' k.same polite) k.owns)
          (λ server'' u k'. Kept-trans ct base server s server' t server'' u k.shorter k.same k')

  wait-Kept :
      (o : Option Handler) (timeout : ℕ) (server : Server Table) (s : Sys)
      → o ≢ none
      → Polite server.callbacks
      → Owns ct base server s
      → Ensures
          (λ (ret, server') t.
            Kept ct base server s server' t × (length t.script < length s.script))
          (Epoll.wait o timeout (some (epoll_event_callback ct)) server s)
  unfolding Epoll.wait
  wait-Kept none timeout server s ne polite owns = absurd (ne refl)
  wait-Kept (some h) timeout server s ne polite (xs, sh, l) =
      Ensures.bind (sys-Answered (Call.epoll_wait h.epoll_fd timeout) s) λ r t a.
        let q : Quiet s t = quiet a (ap live a.trace) in
        Ensures.branch (r.value == minus_one) _ _ t
          (λ e. ends (
            record { owns = (xs, sh, q.1 ∙ l); shorter = q.0; same = refl },
            omega (arith, length-script a),
          ))
          (λ e.
            Ensures.bind
              (dispatch-Kept (if is_negative r.value then [] else take r.value r.ready) server t
                polite (xs, sh, q.1 ∙ l))
              λ server' u k. ends (
                Kept-trans ct base server s server t server' u q.0 refl k,
                omega (arith, length-script a, k.shorter),
              ))

  pub event_loop-Kept :
      (fuel : ℕ) (server : Server Table) (s : Sys)
      → length s.script < fuel
      → server.epoll ≢ none
      → Polite server.callbacks
      → Owns ct base server s
      → Ensures (Kept ct base server s) (event_loop ct fuel server s)
  unfolding event_loop
  event_loop-Kept zero server s lt ne polite o = absurd (omega arith)
  event_loop-Kept (suc fuel) server s lt ne polite o =
      Ensures.branch (s.running == 0) _ _ s
        (λ e. ends (record { owns = o; shorter = omega arith; same = refl }))
        (λ e.
          Ensures.bind (wait-Kept server.epoll minus_one server s ne polite o)
            λ (ret, server') t (k, less).
              Ensures.branch (ret == minus_one && not (t.errno == eintr)) _ _ t (λ _. ends k)
                (λ _.
                  Ensures.weaken
                    (event_loop-Kept fuel server' t (omega arith)
                      (subst (λ (o : Option Handler). o ≢ none)
                        (sym (ap {A = Server Table} (λ x. x.epoll) k.same)) ne)
                      (Polite-same ct base server server' k.same polite) k.owns)
                    (λ server'' u k'.
                      Kept-trans ct base server s server' t server'' u k.shorter k.same k')))

  -- A server with an epoll handler and polite callbacks, whose clients' descriptors are what is open
  -- beside `base`, returns 0 from its event loop whenever it returns, with its fuel never used up. What
  -- is open then are the descriptors of the clients in its table, and `base`, and nothing of the server
  -- but its table has changed.
  pub socket_server_start-Owns :
      (server : Server Table) (s : Sys)
      → server.epoll ≢ none
      → Polite server.callbacks
      → Owns ct base server s
      → Ensures
          (λ (code, out) t.
            (code ≡ 0)
            × (server' : Server Table) × (out ≡ some server')
            × (server' ≡ record server { client_mgr = server'.client_mgr })
            × Owns ct base server' t)
          (socket_server_start ct (some server) s)
  unfolding socket_server_start
  socket_server_start-Owns server s ne polite (xs, h, l) =
      Ensures.bind (polite.on_start (record s { running = 1 })) λ _ t q.
        Ensures.bind
          (event_loop-Kept (rounds ct t) server t (omega arith) ne polite (xs, h, q.1 ∙ l))
          λ server' u k.
            Ensures.bind ((Polite-same ct base server server' k.same polite).on_stop u)
              λ _ v q'. ends (refl, server', refl, k.same, (k.owns.0, k.owns.1, q'.1 ∙ k.owns.2))
