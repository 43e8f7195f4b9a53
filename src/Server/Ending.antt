-- ===== src/Server/Ending.antt =====
-- Why the event loop of src/internal/libsocket.c ends.
use tiny_mon.Base.{
  ℕ, zero, suc, ◌≡◌, ◌≢◌, refl, ap, sym, ◌∙◌, ◌⊎◌, inl, inr, not, ◌&&◌, ◌==◌, if◌then◌else◌, Option,
  none, some, List, [], ◌∷◌, arith, minus_one, is_negative, take,
}
use tiny_mon.Os.{Sys, Call, Reply, Run, done, waiting, exited, fault, out_of_fuel, eintr}
use tiny_mon.Os.Ensures
use tiny_mon.Os.Ensures.{Ensures, Answered}
use tiny_mon.Os.Holds
use tiny_mon.Os.Holds.{Anything, Holds, sys-Holds, both}
use tiny_mon.Epoll
use tiny_mon.Epoll.{Handler, dispatch}
use tiny_mon.Clients.Table.{ClientTable}
use tiny_mon.Server.{Server, rounds, call, epoll_event_callback}
use tiny_mon.Server.Lifecycle.{event_loop, socket_server_start}
use tiny_mon.Server.Owns.{Polite, Owns, Polite-same}
use tiny_mon.Server.Loop.{event_loop-Kept}

-- The last call was a wait for events that failed.
abbrev pub FailedWait : Sys → Type 0
FailedWait t =
    (epoll_fd timeout : ℕ) × (r : Reply) × (older : List (Call × Reply)) × (t.trace
      ≡ (Call.epoll_wait epoll_fd timeout, r) ∷ older)
    × (r.value ≡ minus_one)

-- The server was stopped, or a wait for events failed, and not because of a signal.
abbrev pub Ended : Sys → Type 0
Ended t = (t.running ≡ 0) ⊎ (FailedWait t × (t.errno ≢ eintr))

returns_something : {A : Type 0} (r : Run A) → Holds Anything (λ _ _. Unit {0}) r
returns_something (done a s) = Holds.ends tt
returns_something (waiting s) = Holds.waits tt
returns_something (exited code s) = Holds.exits tt
returns_something fault = Holds.faults
returns_something out_of_fuel = Holds.starves

ends_itself :
    {A : Type 0} {Q : A → Sys → Type 0} {r : Run A} → Ensures Q r → Ensures (λ a t. r ≡ done a t) r
ends_itself (Ensures.ends q) = Ensures.ends refl
ends_itself (Ensures.waits e) = Ensures.waits e
ends_itself (Ensures.exits e) = Ensures.exits e

wait-FailedWait :
    {U : Type 0} (h : Option Handler) (timeout : ℕ) (callback : Epoll.Callback U) (u : U) (s : Sys)
    → Holds Anything
        (λ (ret, u') t. ret ≡ minus_one → FailedWait t ⊎ ((h ≡ none) × (u' ≡ u)))
        (Epoll.wait h timeout (some callback) u s)
unfolding Epoll.wait
wait-FailedWait none timeout callback u s = Holds.ends (λ e. inr (refl, refl))
wait-FailedWait (some h) timeout callback u s =
    Holds.bind (sys-Holds (Call.epoll_wait h.epoll_fd timeout) s tt) λ r t a.
      Holds.branch (r.value == minus_one) _ _ t
        (λ e. Holds.ends (λ _. inl (h.epoll_fd, timeout, r, s.trace, a.trace, ground (arith, e))))
        (λ e.
          Holds.bind
            (returns_something
              (dispatch callback (if is_negative r.value then [] else take r.value r.ready) u t))
            λ u' v _. Holds.ends (λ same. absurd (ground (arith, e, same))))

module _ (ct : ClientTable) (base : List ℕ) where
  open ct use {Table}

  event_loop-Ended :
      (fuel : ℕ) (server : Server Table) (s : Sys)
      → Holds Anything (λ server' t. Ended t ⊎ (server'.epoll ≡ none)) (event_loop ct fuel server s)
  unfolding event_loop
  event_loop-Ended zero server s = Holds.starves
  event_loop-Ended (suc fuel) server s =
      Holds.branch (s.running == 0) _ _ s (λ e. Holds.ends (inl (inl (ground (arith, e)))))
        (λ e.
          Holds.bind (wait-FailedWait server.epoll minus_one (epoll_event_callback ct) server s)
            λ (ret, server') t failed.
              Holds.branch (ret == minus_one && not (t.errno == eintr)) _ _ t
                (λ e'. Holds.ends (elim (failed (ground (arith, e'))) [
                  | inl f ↦ inl (inr (f, λ e''. ground (arith, e', e'')))
                  | inr (none', same) ↦ inr (ap {A = Server Table} (λ x. x.epoll) same ∙ none')
                ]))
                (λ e'. event_loop-Ended fuel server' t))

  -- Let a server have an epoll handler and polite callbacks, and let what is open beside `base` be
  -- the descriptors of its clients. Starting it never faults nor uses its fuel up, and whenever it
  -- returns, the result is 0 and the event loop had ended for one of two reasons: the server was
  -- stopped, or its last call was a wait for events that failed other than by a signal. Only the
  -- callback for the end has run since.
  pub socket_server_start-Ended :
      (server : Server Table) (s : Sys)
      → server.epoll ≢ none
      → Polite server.callbacks
      → Owns ct base server s
      → Ensures
          (λ (code, out) t.
            (code ≡ 0)
            × (server' : Server Table) × (u : Sys) × (out ≡ some server')
            × Ended u
            × (call server'.callbacks.on_stop u ≡ done tt t))
          (socket_server_start ct (some server) s)
  unfolding socket_server_start
  socket_server_start-Ended server s ne polite (xs, h, l) =
      Ensures.bind (polite.on_start (record s { running = 1 })) λ _ t q.
        Ensures.bind
          (both
            (event_loop-Kept ct base (rounds ct t) server t (omega arith) ne polite
              (xs, h, q.1 ∙ l))
            (event_loop-Ended (rounds ct t) server t))
          λ server' u (k, ended).
            Ensures.bind
              (ends_itself ((Polite-same ct base server server' k.same polite).on_stop u))
              λ _ v e. Ensures.ends (
                refl,
                server',
                u,
                refl,
                elim ended [
                  | inl why ↦ why
                  | inr lost ↦
                      absurd (ne (sym (ap {A = Server Table} (λ x. x.epoll) k.same) ∙ lost))
                ],
                e,
              )
