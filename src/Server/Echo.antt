-- ===== src/Server/Echo.antt =====
-- A server of src/internal/libsocket.c that sends back what it receives, by `socket_server_send`: the
-- conversation that it leads, as a language of traces.
pub mod Handlers
pub mod Loop
pub mod Tests
use tiny_mon.Base.{
  ℕ, ◌≡◌, refl, ap, sym, subst, ◌⊎◌, inl, inr, Bool, true, false, not, ◌&&◌, ◌==◌, if◌then◌else◌,
  Bool-cases, Option, none, some, List, [], ◌∷◌, take, minus_one, is_negative, arith,
}
use tiny_mon.Os
use tiny_mon.Os.{Sys, Cmd, Call, Reply, pure, ◌>>=◌, ◌>>◌}
use tiny_mon.Os.Ensures.{Answered}
use tiny_mon.Os.Holds
use tiny_mon.Os.Holds.{Holds, sys-Holds}
use tiny_mon.Epoll
use tiny_mon.Epoll.{Handler}
use tiny_mon.Socket.{tcp_socket_accept, tcp_socket_set_nonblocking}
use tiny_mon.Clients.{Info}
use tiny_mon.Server.{Callbacks, call, call_with, buffer_size}
use tiny_mon.Server.Lifecycle.{socket_server_send}

-- A reply of `recv` that brings bytes.
abbrev pub has_text : Reply → Bool
has_text r = not (is_negative r.value) && not (r.value == 0)

-- A call that neither sends nor has received anything.
abbrev pub IsPlain : Call → Reply → Type 0
IsPlain (Call.send fd bytes) r = ⊥
IsPlain (Call.recv fd size) r = has_text r ≡ false
IsPlain c r = Unit {0}

-- The calls on top of an older trace: each text that was received is sent back to where it came from by
-- the next call, whole and unchanged, and nothing else is sent.
pub data Echoes (old : List (Call × Reply)) : List (Call × Reply) → Type 0 where
  start : Echoes old old
  plain :
      {trace : List (Call × Reply)} {c : Call} {r : Reply}
      → IsPlain c r
      → Echoes old trace
      → Echoes old ((c, r) ∷ trace)
  echo :
      {trace : List (Call × Reply)} {fd : ℕ} {r w : Reply}
      → has_text r ≡ true
      → Echoes old trace
      → Echoes old
          ((Call.send fd (take r.value r.bytes), w) ∷ (Call.recv fd buffer_size, r) ∷ trace)

-- As it is while a call waits: what was received last may be still to be sent.
abbrev pub EchoesSoFar : List (Call × Reply) → Sys → Type 0
EchoesSoFar old s =
    Echoes old s.trace
    ⊎ ((trace : List (Call × Reply)) × (fd : ℕ) × (r : Reply) × (s.trace
          ≡ (Call.recv fd buffer_size, r) ∷ trace)
        × (has_text r ≡ true)
        × Echoes old trace)

abbrev pub send_back : Info → List ℕ → Cmd (Unit {0})
send_back client bytes = do socket_server_send (some client) (some bytes); pure tt

-- A command that keeps to this.
abbrev pub Keeps : List (Call × Reply) → {A : Type 0} → Cmd A → Type 0
Keeps old m =
    (s : Sys) → Echoes old s.trace → Holds (EchoesSoFar old) (λ _ t. Echoes old t.trace) (m s)

-- Callbacks that send back what is received, and send or receive nothing else.
pub record Echoing (old : List (Call × Reply)) (c : Callbacks) : Type 0 where
  pub on_start : Keeps old (call c.on_start)
  pub on_stop : Keeps old (call c.on_stop)
  pub on_connection : (i : Info) → Keeps old (call_with c.on_connection i)
  pub on_disconnected : (i : Info) → Keeps old (call_with c.on_disconnected i)
  pub on_received : c.on_received ≡ some send_back

module _ {old : List (Call × Reply)} where
  plain_call : (c : Call) → ((r : Reply) → IsPlain c r) → Keeps old (Os.sys c)
  plain_call c is_plain s e =
      Holds.weaken (sys-Holds c s (inl e)) λ r t a. rw a.trace (Echoes.plain (is_plain r) e)

  pub add-Keeps : (h : Option Handler) (fd ptr events : ℕ) → Keeps old (Epoll.add h fd ptr events)
  unfolding Epoll.add
  add-Keeps none fd ptr events s e = Holds.ends e
  add-Keeps (some h) fd ptr events s e =
      Holds.bind (plain_call _ (λ r. tt) s e) λ r t e'.
        Holds.branch (r.value == minus_one) _ _ t (λ _. Holds.ends e') (λ _. Holds.ends e')

  pub remove-Keeps : (h : Option Handler) (fd : ℕ) → Keeps old (Epoll.remove h fd)
  unfolding Epoll.remove
  remove-Keeps none fd s e = Holds.ends e
  remove-Keeps (some h) fd s e =
      Holds.bind (plain_call _ (λ r. tt) s e) λ r t e'.
        Holds.branch (r.value == minus_one) _ _ t (λ _. Holds.ends e') (λ _. Holds.ends e')

  pub set_nonblocking-Keeps : (fd : ℕ) → Keeps old (tcp_socket_set_nonblocking fd)
  unfolding tcp_socket_set_nonblocking
  set_nonblocking-Keeps fd s e = Holds.bind (plain_call _ (λ r. tt) s e) λ r t e'.
      Holds.branch (r.value == minus_one) _ _ t (λ _. Holds.ends e')
        (λ _. Holds.bind (plain_call _ (λ r. tt) t e') λ r' u e''. Holds.ends e'')

  pub accept-Keeps : (listen_fd : ℕ) → Keeps old (tcp_socket_accept listen_fd)
  unfolding tcp_socket_accept
  accept-Keeps listen_fd s e =
      Holds.bind (plain_call (Call.accept listen_fd) (λ r. tt) s e) λ r t e'. Holds.ends e'

  pub close-Keeps : (fd : ℕ) → Keeps old (Os.sys (Call.close fd))
  close-Keeps fd = plain_call (Call.close fd) (λ r. tt)

  pub epoll_wait-Keeps :
      (epoll_fd timeout : ℕ) → Keeps old (Os.sys (Call.epoll_wait epoll_fd timeout))
  epoll_wait-Keeps epoll_fd timeout = plain_call (Call.epoll_wait epoll_fd timeout) (λ r. tt)

  -- A text that has just arrived is sent back.
  pub send_back-Echoes :
      (client : Info) (r : Reply) (trace : List (Call × Reply)) (s : Sys)
      → s.trace ≡ (Call.recv client.fd buffer_size, r) ∷ trace
      → has_text r ≡ true
      → Echoes old trace
      → Holds
          (EchoesSoFar old)
          (λ _ t. Echoes old t.trace)
          (send_back client (take r.value r.bytes) s)
  unfolding socket_server_send
  send_back-Echoes client r trace s at text e =
      Holds.bind
        (Holds.bind
          (sys-Holds (Call.send client.fd (take r.value r.bytes)) s
            (inr (trace, client.fd, r, at, text, e)))
          λ w t a. Holds.ends (rw (a.trace, at) (Echoes.echo text e)))
        λ n t e'. Holds.ends e'
