-- ===== src/Server/Stop.antt =====
-- `socket_server_stop` from a callback, in src/internal/libsocket.c: when the event loop ends.
pub mod Tests
use tiny_mon.Base.{
  ℕ, zero, suc, ◌+◌, ◌≡◌, ◌≢◌, refl, ap, sym, subst, ◌∙◌, ◌⊎◌, inl, inr, not, ◌&&◌, ◌==◌, ==_ne,
  if◌then◌else◌, Bool-cases, Option, none, some, List, [], ◌∷◌, ◌++◌, length, arith, minus_one,
  is_negative, take, true, false,
}
use tiny_mon.Os.{
  Sys, Cmd, Call, Reply, Event, Run, done, waiting, exited, fault, out_of_fuel, eintr, answered,
  sys, continue,
}
use tiny_mon.Os.Ensures
use tiny_mon.Os.Ensures.{Ensures, Answered, sys-cons}
use tiny_mon.Os.Holds
use tiny_mon.Os.Holds.{Anything, Holds, ends, starves, sys-Holds, both, returned}
use tiny_mon.Epoll
use tiny_mon.Epoll.{Handler, dispatch}
use tiny_mon.Clients.Table.{ClientTable}
use tiny_mon.Server.{Server, rounds, call, epoll_event_callback}
use tiny_mon.Server.Lifecycle.{event_loop, socket_server_start}
use tiny_mon.Server.Owns.{Polite, Owns, Kept}
use tiny_mon.Server.Still.{Lasting}
use tiny_mon.Server.Lasting.{Lasts, dispatch-Lasts, Lasting-same}

module _ {U : Type 0} where
  continue-continue :
      (r : Run U) (f g k : U → Cmd U)
      → ((u : U) (s : Sys) → f u s ≡ continue (g u s) k)
      → continue r f ≡ continue (continue r g) k
  continue-continue (done u s) f g k same = same u s
  continue-continue (waiting s) f g k same = refl
  continue-continue (exited code s) f g k same = refl
  continue-continue fault f g k same = refl
  continue-continue out_of_fuel f g k same = refl

  -- Handling some events and then others is handling them together.
  dispatch-append :
      (callback : Epoll.Callback U) (es1 es2 : List Event) (u : U) (s : Sys)
      → dispatch callback (es1 ++ es2) u s
        ≡ continue (dispatch callback es1 u s) (dispatch callback es2)
  unfolding dispatch
  dispatch-append callback [] es2 u s = refl
  dispatch-append callback (e ∷ es1) es2 u s =
      continue-continue (callback e.ptr e.events u s) _ _ _ (dispatch-append callback es1 es2)

  wait-served :
      (h : Handler) (callback : Epoll.Callback U) (u : U) (s : Sys) (r : Reply) (rest : List Reply)
      (es : List Event) (u2 : U) (s2 : Sys)
      → s.script ≡ r ∷ rest
      → r.value ≢ minus_one
      → (if is_negative r.value then [] else take r.value r.ready) ≡ es
      → dispatch callback es u (answered (Call.epoll_wait h.epoll_fd minus_one) s r rest)
        ≡ done u2 s2
      → Epoll.wait (some h) minus_one (some callback) u s ≡ done (r.value, u2) s2
  unfolding Epoll.wait
  wait-served h callback u s r rest es u2 s2 e ne ready e2 =
      rw
        (
          sys-cons (Call.epoll_wait h.epoll_fd minus_one) s r rest e,
          ==_ne r.value minus_one ne,
          ready,
          e2,
        )
        refl

module _ (ct : ClientTable) where
  open ct use {Table}

  event_loop-left :
      (fuel : ℕ) (server : Server Table) (s : Sys)
      → s.running ≡ 0
      → event_loop ct (suc fuel) server s ≡ done server s
  unfolding event_loop
  event_loop-left fuel server s e = rw e refl

  -- One round of the loop that ends with the server stopped.
  event_loop-round :
      (fuel : ℕ) (server : Server Table) (s : Sys) (ret : ℕ) (server' : Server Table) (t : Sys)
      → s.running ≢ 0
      → Epoll.wait server.epoll minus_one (some (epoll_event_callback ct)) server s
        ≡ done (ret, server') t
      → ret ≢ minus_one
      → t.running ≡ 0
      → event_loop ct (suc (suc fuel)) server s ≡ done server' t
  unfolding event_loop
  event_loop-round fuel server s ret server' t on waited ne off =
      rw (==_ne s.running 0 on, waited, ==_ne ret minus_one ne) (event_loop-left fuel server' t off)

  -- A callback stops the server. Let the loop run with a handler, let the next wait for events
  -- succeed, and let handling the first of its events leave the server stopped. If handling the
  -- other events of the same wait returns, with callbacks that do not start the server again, then
  -- the loop returns exactly what that leaves: the other events are still handled, and there is no
  -- further wait.
  pub event_loop-stopped :
      (fuel : ℕ) (server server1 server2 : Server Table) (s s1 s2 : Sys) (h : Handler) (r : Reply)
      (rest : List Reply) (es1 es2 : List Event)
      → Lasting server.callbacks
      → server.epoll ≡ some h
      → s.running ≢ 0
      → s.script ≡ r ∷ rest
      → r.value ≢ minus_one
      → (if is_negative r.value then [] else take r.value r.ready) ≡ es1 ++ es2
      → dispatch
          (epoll_event_callback ct)
          es1
          server
          (answered (Call.epoll_wait h.epoll_fd minus_one) s r rest)
        ≡ done server1 s1
      → s1.running ≡ 0
      → dispatch (epoll_event_callback ct) es2 server1 s1 ≡ done server2 s2
      → event_loop ct (suc (suc fuel)) server s ≡ done server2 s2
  event_loop-stopped fuel server server1 server2 s s1 s2 h r rest es1 es2 lasting opened on script
        ne ready e1 stopped e2 =
      let t : Sys = answered (Call.epoll_wait h.epoll_fd minus_one) s r rest in
      let k1 : Lasts ct server t server1 s1 =
        returned (
          subst (Holds Anything (Lasts ct server t)) e1 (dispatch-Lasts ct es1 server t lasting)) in
      let k2 : Lasts ct server1 s1 server2 s2 = returned (
        subst (Holds Anything (Lasts ct server1 s1)) e2
          (dispatch-Lasts ct es2 server1 s1 (Lasting-same ct server server1 k1.same lasting))) in
      event_loop-round fuel server s r.value server2 s2 on
        (ap (λ o. Epoll.wait o minus_one (some (epoll_event_callback ct)) server s) opened
          ∙ wait-served h (epoll_event_callback ct) server s r rest (es1 ++ es2) server2 s2 script
              ne ready
              (dispatch-append (epoll_event_callback ct) es1 es2 server t
                ∙ ap (λ x. continue x (dispatch (epoll_event_callback ct) es2)) e1
                ∙ e2))
        ne (k2.still stopped)
