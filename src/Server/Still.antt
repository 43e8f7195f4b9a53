-- ===== src/Server/Still.antt =====
-- What the calls under src/internal do to the flag `running` of a server that was stopped, and which
-- callbacks leave it alone.
use tiny_mon.Base.{ℕ, ◌≡◌, ◌∙◌, ◌==◌, Option, none, some, List, minus_one}
use tiny_mon.Os
use tiny_mon.Os.{Sys, Cmd, Call, Reply, Address, Event, eagain, ewouldblock}
use tiny_mon.Os.Ensures.{Answered}
use tiny_mon.Os.Holds
use tiny_mon.Os.Holds.{Anything, Holds, ends, faults, starves, sys-Holds}
use tiny_mon.Epoll
use tiny_mon.Epoll.{Handler, dispatch}
use tiny_mon.Socket.{tcp_socket_accept, tcp_socket_set_nonblocking}
use tiny_mon.Clients.{Info, Outcome}
use tiny_mon.Server.{Callbacks, call_with, call_received, lift}

-- A server that was stopped is stopped still.
abbrev pub Still : Sys → Sys → Type 0
Still s t = s.running ≡ 0 → t.running ≡ 0

-- A command that does not start a server that was stopped.
abbrev pub Final : Cmd (Unit {0}) → Type 0
Final m = (s : Sys) → Holds Anything (λ _ t. Still s t) (m s)

-- Callbacks that run while events are handled, and do not start the server again.
pub record Lasting (c : Callbacks) : Type 0 where
  pub on_connection : (i : Info) → Final (call_with c.on_connection i)
  pub on_disconnected : (i : Info) → Final (call_with c.on_disconnected i)
  pub on_received : (i : Info) (bytes : List ℕ) → Final (call_received c.on_received i bytes)

Answered-Still : {c : Call} {s t : Sys} {r : Reply} → Answered c s r t → Still s t
Answered-Still a e = a.running ∙ e

pub sys-Still : (c : Call) (s : Sys) → Holds Anything (λ _ t. Still s t) (Os.sys c s)
sys-Still c s = Holds.weaken (sys-Holds c s tt) (λ r t a. Answered-Still a)

pub add-Still :
    (h : Option Handler) (fd ptr events : ℕ) (s : Sys)
    → Holds Anything (λ _ t. Still s t) (Epoll.add h fd ptr events s)
unfolding Epoll.add
add-Still none fd ptr events s = ends (λ e. e)
add-Still (some h) fd ptr events s =
    Holds.bind (sys-Still _ s)
      λ r t q. Holds.branch (r.value == minus_one) _ _ t (λ e. ends q) (λ e. ends q)

pub remove-Still :
    (h : Option Handler) (fd : ℕ) (s : Sys)
    → Holds Anything (λ _ t. Still s t) (Epoll.remove h fd s)
unfolding Epoll.remove
remove-Still none fd s = ends (λ e. e)
remove-Still (some h) fd s =
    Holds.bind (sys-Still _ s)
      λ r t q. Holds.branch (r.value == minus_one) _ _ t (λ e. ends q) (λ e. ends q)

pub set_nonblocking-Still :
    (fd : ℕ) (s : Sys) → Holds Anything (λ _ t. Still s t) (tcp_socket_set_nonblocking fd s)
unfolding tcp_socket_set_nonblocking
set_nonblocking-Still fd s = Holds.bind (sys-Still _ s) λ r t q.
    Holds.branch (r.value == minus_one) _ _ t (λ e. ends q)
      (λ e. Holds.bind (sys-Still _ t) λ r' u q'. ends (λ e'. q' (q e')))

pub accept-Still :
    (listen_fd : ℕ) (s : Sys) → Holds Anything (λ _ t. Still s t) (tcp_socket_accept listen_fd s)
unfolding tcp_socket_accept
accept-Still listen_fd s = Holds.bind (sys-Still _ s) λ r t q. ends q

pub lift-Still :
    {A : Type 0} (o : Outcome A) (s : Sys) → Holds Anything (λ _ t. Still s t) (lift o s)
lift-Still (Outcome.ok a) s = ends (λ e. e)
lift-Still Outcome.fault s = faults
lift-Still Outcome.out_of_fuel s = starves
