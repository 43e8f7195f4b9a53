-- ===== src/Server/Deaf.antt =====
-- The event loop with the null pointers that the server registers.
use tiny_mon.Base.{
  ℕ, zero, suc, ◌+◌, ◌<◌, ◌≡◌, ◌≢◌, refl, ap, sym, subst, ◌∙◌, Bool, true, false, not, ◌&&◌, ◌==◌,
  if◌then◌else◌, ==_ne, Option, none, some, List, [], ◌∷◌, length, arith, minus_one, is_negative,
  take,
}
use tiny_mon.Os.{Event, Sys, Cmd, Call, Reply, eintr, done}
use tiny_mon.Os.Ensures.{length-script}
use tiny_mon.Os.Safe
use tiny_mon.Os.Safe.{Safe, ends, Since, Since-self, sys-Safe}
use tiny_mon.Epoll
use tiny_mon.Epoll.{Handler, dispatch}
use tiny_mon.Clients.{Info}
use tiny_mon.Clients.Table.{ClientTable, find_info}
use tiny_mon.Server.{Server, call, handle_client, epoll_event_callback}
use tiny_mon.Server.Lifecycle.{event_loop, socket_server_start}

-- Events that carry a null pointer.
abbrev pub AllNull : List Event → Type 0
AllNull [] = Unit {0}
AllNull (e ∷ es) = (e.ptr ≡ 0) × AllNull es

-- The kernel gives back the pointer that was registered, and the server registers null.
abbrev pub NullScript : List Reply → Type 0
NullScript [] = Unit {0}
NullScript (r ∷ rs) = AllNull r.ready × NullScript rs

-- A call that waits for events.
abbrev pub WaitCall : Call → Type 0
WaitCall (Call.epoll_wait epoll_fd timeout) = Unit {0}
WaitCall c = ⊥

AllNull-take : (n : ℕ) (es : List Event) → AllNull es → AllNull (take n es)
AllNull-take zero es h = tt
AllNull-take (suc n) [] h = tt
AllNull-take (suc n) (e ∷ es) h = (h.0, AllNull-take n es h.1)

AllNull-some :
    (b : Bool) (n : ℕ) (es : List Event) → AllNull es → AllNull (if b then [] else take n es)
AllNull-some true n es h = tt
AllNull-some false n es h = AllNull-take n es h

call-none : (f : Option (Cmd (Unit {0}))) (s : Sys) → f ≡ none → call f s ≡ done tt s
call-none none s e = refl
call-none (some f) s e = cc

module _ (ct : ClientTable) where
  open ct use {Table, Shows}

  module _ (server : Server Table) (xs : List Info) (h : Shows server.client_mgr xs)
      (listens : server.listen_fd ≢ 0) (absent : find_info xs 0 ≡ none) where
    callback_null :
        (events : ℕ) (s : Sys) → epoll_event_callback ct 0 events server s ≡ done server s
    unfolding epoll_event_callback handle_client
    callback_null events s = rw (
      ==_ne 0 server.listen_fd (λ e. listens (sym e)),
      ct.find-Shows server.client_mgr xs 0 h,
      absent,
    )

    dispatch_null :
        (es : List Event) (s : Sys)
        → AllNull es
        → dispatch (epoll_event_callback ct) es server s ≡ done server s
    unfolding dispatch
    dispatch_null [] s n = refl
    dispatch_null (e ∷ es) s n = rw (n.0, callback_null e.events s) (dispatch_null es s n.1)

    wait_null :
        {base : List (Call × Reply)} (o : Option Handler) (timeout : ℕ) (s : Sys)
        → o ≢ none
        → NullScript s.script
        → Since WaitCall base s.trace
        → Safe ⊥ WaitCall base
            (λ (ret, server') t.
              (server' ≡ server) × NullScript t.script × (length t.script < length s.script))
            (Epoll.wait o timeout (some (epoll_event_callback ct)) server s)
    unfolding Epoll.wait
    wait_null none timeout s ne n all = absurd (ne refl)
    wait_null (some hd) timeout s ne n all =
        Safe.bind (sys-Safe (Call.epoll_wait hd.epoll_fd timeout) s tt all) λ r t all' a.
          let n' : NullScript (r ∷ t.script) = subst NullScript a.script n in
          let shorter : length t.script < length s.script = omega (arith, length-script a) in
          Safe.branch (r.value == minus_one) _ _ t (λ e. ends all' (refl, n'.1, shorter))
            (λ e.
              rw (dispatch_null _ t (AllNull-some (is_negative r.value) r.value r.ready n'.0))
                (ends all' (refl, n'.1, shorter)))

    event_loop_deaf :
        {base : List (Call × Reply)} (fuel : ℕ) (s : Sys)
        → length s.script < fuel
        → server.epoll ≢ none
        → NullScript s.script
        → Since WaitCall base s.trace
        → Safe ⊥ WaitCall base (λ server' t. server' ≡ server) (event_loop ct fuel server s)
    unfolding event_loop
    event_loop_deaf zero s lt ne n all = absurd (omega arith)
    event_loop_deaf {base} (suc fuel) s lt ne n all =
        Safe.branch (s.running == 0) _ _ s (λ e. ends all refl)
          (λ e.
            Safe.bind (wait_null server.epoll minus_one s ne n all)
              λ (ret, server') t all' (same, n', shorter).
                Safe.branch (ret == minus_one && not (t.errno == eintr)) _ _ t (λ _. ends all' same)
                  (λ _.
                    subst
                      (λ (x : Server Table).
                        Safe ⊥ WaitCall base (λ (y : Server Table) (v : Sys). y ≡ server)
                          (event_loop ct fuel x t))
                      (sym same) (event_loop_deaf fuel t (omega arith) ne n' all')))

  -- A server that registered null pointers is deaf. If it has an epoll handler, no client has the
  -- descriptor 0, it does not listen on 0, and each event brings the null pointer back, then starting
  -- it without the callbacks for start and stop makes no calls but waits for events, however it runs,
  -- and also while it waits: it accepts no connection and receives no byte. Whenever it returns, it
  -- returns 0 and leaves the server as it was.
  pub socket_server_start_deaf :
      (server : Server Table) (xs : List Info) (s : Sys)
      → Shows server.client_mgr xs
      → server.listen_fd ≢ 0
      → find_info xs 0 ≡ none
      → server.epoll ≢ none
      → server.callbacks.on_start ≡ none
      → server.callbacks.on_stop ≡ none
      → NullScript s.script
      → Safe ⊥ WaitCall s.trace
          (λ (code, out) t. (code ≡ 0) × (out ≡ some server))
          (socket_server_start ct (some server) s)
  unfolding socket_server_start
  socket_server_start_deaf server xs s h listens absent ne start stop n =
      rw (call-none server.callbacks.on_start (record s { running = 1 }) start) (
        Safe.bind
          (event_loop_deaf server xs h listens absent (length s.script + 1)
            (record s { running = 1 }) (omega arith) ne n (Since-self WaitCall s.trace))
          λ server' t all same.
            rw
              (call-none server'.callbacks.on_stop t
                (ap {A = Server Table} (λ x. x.callbacks.on_stop) same ∙ stop))
              (ends all (refl, ap some same)))
