-- ===== src/Server/Echo/Loop.antt =====
-- The event loop of the server that sends back.
use tiny_mon.Base.{
  ℕ, zero, suc, ◌%◌, ◌≡◌, ◌≢◌, refl, inl, inr, not, ◌&&◌, ◌==◌, if◌then◌else◌, Bool-cases, Option,
  none, some, List, [], ◌∷◌, ◌++◌, take, minus_one, is_negative,
}
use tiny_mon.Os.{Sys, Call, Reply, Event, eintr}
use tiny_mon.Os.Descriptors.{live}
use tiny_mon.Os.Ensures
use tiny_mon.Os.Ensures.{Ensures}
use tiny_mon.Os.Holds
use tiny_mon.Os.Holds.{Holds}
use tiny_mon.Epoll
use tiny_mon.Epoll.{Handler, dispatch}
use tiny_mon.Clients.{Info}
use tiny_mon.Clients.Table.{ClientTable}
use tiny_mon.Server.{Server, rounds, epoll_event_callback}
use tiny_mon.Server.Lifecycle.{event_loop, socket_server_start}
use tiny_mon.Server.Owns.{Polite, fds}
use tiny_mon.Server.Loop.{socket_server_start-Owns}
use tiny_mon.Server.Echo.{Echoes, EchoesSoFar, Echoing, epoll_wait-Keeps}
use tiny_mon.Server.Echo.Handlers.{
  Led, Led-trans, Echoing-same, handle_accept-Led, handle_client-Led,
}

module _ (ct : ClientTable) (old : List (Call × Reply)) where
  open ct use {Table, Shows}

  callback-Led :
      (ptr events : ℕ) (server : Server Table) (s : Sys) (xs : List Info)
      → Echoing old server.callbacks
      → Shows server.client_mgr xs
      → Echoes old s.trace
      → Holds (EchoesSoFar old) (Led ct old server) (epoll_event_callback ct ptr events server s)
  unfolding epoll_event_callback
  callback-Led ptr events server s xs echoing h e =
      elim (Bool-cases (ptr % 0x1_0000_0000 == server.listen_fd)) [
        | inl same ↦ rw same (handle_accept-Led ct old (rounds ct s) server s xs echoing h e)
        | inr other ↦ rw other (handle_client-Led ct old (rounds ct s) server s xs _ echoing h e)
      ]

  dispatch-Led :
      (ready : List Event) (server : Server Table) (s : Sys) (xs : List Info)
      → Echoing old server.callbacks
      → Shows server.client_mgr xs
      → Echoes old s.trace
      → Holds
          (EchoesSoFar old)
          (Led ct old server)
          (dispatch (epoll_event_callback ct) ready server s)
  unfolding dispatch
  dispatch-Led [] server s xs echoing h e =
      Holds.ends (record { shows = (xs, h); same = refl; echoes = e })
  dispatch-Led (v ∷ ready) server s xs echoing h e =
      Holds.bind (callback-Led v.ptr v.events server s xs echoing h e) λ server' t l.
        Holds.weaken
          (dispatch-Led ready server' t l.shows.0
            (Echoing-same ct old server server' l.same echoing) l.shows.1 l.echoes)
          (λ server'' u l'. Led-trans ct old server server' server'' u l.same l')

  wait-Led :
      (o : Option Handler) (timeout : ℕ) (server : Server Table) (s : Sys) (xs : List Info)
      → Echoing old server.callbacks
      → Shows server.client_mgr xs
      → Echoes old s.trace
      → Holds
          (EchoesSoFar old)
          (λ (ret, server') t. Led ct old server server' t)
          (Epoll.wait o timeout (some (epoll_event_callback ct)) server s)
  unfolding Epoll.wait
  wait-Led none timeout server s xs echoing h e =
      Holds.ends (record { shows = (xs, h); same = refl; echoes = e })
  wait-Led (some hd) timeout server s xs echoing h e =
      Holds.bind (epoll_wait-Keeps hd.epoll_fd timeout s e) λ r t e'.
        Holds.branch (r.value == minus_one) _ _ t
          (λ _. Holds.ends (record { shows = (xs, h); same = refl; echoes = e' }))
          (λ _.
            Holds.bind
              (dispatch-Led (if is_negative r.value then [] else take r.value r.ready) server t xs
                echoing h e')
              λ server' u l. Holds.ends l)

  event_loop-Led :
      (fuel : ℕ) (server : Server Table) (s : Sys) (xs : List Info)
      → Echoing old server.callbacks
      → Shows server.client_mgr xs
      → Echoes old s.trace
      → Holds (EchoesSoFar old) (Led ct old server) (event_loop ct fuel server s)
  unfolding event_loop
  event_loop-Led zero server s xs echoing h e = Holds.starves
  event_loop-Led (suc fuel) server s xs echoing h e =
      Holds.branch (s.running == 0) _ _ s
        (λ _. Holds.ends (record { shows = (xs, h); same = refl; echoes = e }))
        (λ _.
          Holds.bind (wait-Led server.epoll minus_one server s xs echoing h e) λ (ret, server') t l.
            Holds.branch (ret == minus_one && not (t.errno == eintr)) _ _ t (λ _. Holds.ends l)
              (λ _.
                Holds.weaken
                  (event_loop-Led fuel server' t l.shows.0
                    (Echoing-same ct old server server' l.same echoing) l.shows.1 l.echoes)
                  (λ server'' u l'. Led-trans ct old server server' server'' u l.same l')))

  start-Echoes :
      (server : Server Table) (s : Sys) (xs : List Info)
      → Echoing old server.callbacks
      → Shows server.client_mgr xs
      → Echoes old s.trace
      → Holds (EchoesSoFar old) (λ _ t. Echoes old t.trace) (socket_server_start ct (some server) s)
  unfolding socket_server_start
  start-Echoes server s xs echoing h e =
      Holds.bind (echoing.on_start (record s { running = 1 }) e) λ _ t e'.
        Holds.bind (event_loop-Led (rounds ct t) server t xs echoing h e') λ server' u l.
          Holds.bind ((Echoing-same ct old server server' l.same echoing).on_stop u l.echoes)
            λ _ v e''. Holds.ends e''

-- A server sends back what it receives, by `socket_server_send`. Let it have an epoll handler and polite
-- callbacks, of which the others neither send nor receive, and let what is open beside `base` be the
-- descriptors of its clients. Starting it never faults nor uses its fuel up, and it returns 0 whenever
-- it returns. Whatever clients come and go, and in whatever order their events are told: each text that
-- was received is sent back to the descriptor that it came from, whole and unchanged, by the next call,
-- and nothing else is sent. While a call waits this holds of all but a text that has just arrived.
pub socket_server_start-Echoes :
    (ct : ClientTable) (base : List ℕ) (server : Server ct.Table) (s : Sys) (xs : List Info)
    → server.epoll ≢ none
    → Polite server.callbacks
    → Echoing s.trace server.callbacks
    → ct.Shows server.client_mgr xs
    → live s.trace ≡ fds xs ++ base
    → Ensures (λ (code, out) t. code ≡ 0) (socket_server_start ct (some server) s)
      × Holds
          (EchoesSoFar s.trace)
          (λ _ t. Echoes s.trace t.trace)
          (socket_server_start ct (some server) s)
socket_server_start-Echoes ct base server s xs ne polite echoing h l = (
  Ensures.weaken (socket_server_start-Owns ct base server s ne polite (xs, h, l))
      (λ (code, out) t owns. owns.0),
  start-Echoes ct s.trace server s xs echoing h Echoes.start,
)
