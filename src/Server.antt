-- ===== src/Server.antt =====
-- src/internal/libsocket.c and server.h, the socket server, over a table of clients. `user_data` is
-- what the callbacks close over, and `running` stands in the state, where a callback can reach it.
-- `recv` moves at most 1024 bytes, so its `ssize_t` is read as an `int`.
pub mod Lifecycle
pub mod Owns
pub mod Accept
pub mod Receive
pub mod Loop
pub mod Deaf
pub mod Release
pub mod Life
pub mod Drains
pub mod Disconnect
pub mod Still
pub mod Lasting
pub mod Stop
pub mod Ending
pub mod Echo
pub mod Capacity
pub mod Distinct
pub mod Tests
use tiny_mon.Base.{
  ℕ, zero, suc, ◌+◌, ◌%◌, List, [], ◌∷◌, Option, none, some, Bool, true, false, not, ◌==◌, ◌&&◌,
  ◌||◌, if◌then◌else◌, length, take, minus_one, is_negative,
}
use tiny_mon.Os.{
  Address, Sys, Run, Cmd, Call, done, out_of_fuel, sys, pure, ◌>>=◌, ◌>>◌, get_errno, get_running,
  set_running, eagain, ewouldblock, eintr,
}
use tiny_mon.Os
use tiny_mon.Epoll
use tiny_mon.Epoll.{Handler}
use tiny_mon.Socket.{
  socket_init, socket_setsockopt_reuseaddr, socket_listen, tcp_socket_accept,
  tcp_socket_set_nonblocking, server_address,
}
use tiny_mon.Comm.{buffer_size}
use tiny_mon.Clients.{Info, Outcome, null}
use tiny_mon.Clients
use tiny_mon.Clients.Table.{ClientTable}

-- `EPOLLIN | EPOLLET`.
abbrev pub epoll_in_et : ℕ
epoll_in_et = 0x8000_0001

-- A callback may be missing.
pub record Callbacks : Type 0 where
  pub on_start : Option (Cmd (Unit {0}))
  pub on_stop : Option (Cmd (Unit {0}))
  pub on_connection : Option (Info → Cmd (Unit {0}))
  pub on_disconnected : Option (Info → Cmd (Unit {0}))
  pub on_received : Option (Info → List ℕ → Cmd (Unit {0}))

abbrev pub call : Option (Cmd (Unit {0})) → Cmd (Unit {0})
call none = pure tt
call (some f) = f

abbrev pub call_with : Option (Info → Cmd (Unit {0})) → Info → Cmd (Unit {0})
call_with none c = pure tt
call_with (some f) c = f c

abbrev pub call_received : Option (Info → List ℕ → Cmd (Unit {0})) → Info → List ℕ → Cmd (Unit {0})
call_received none c bytes = pure tt
call_received (some f) c bytes = f c bytes

-- An operation of the table as a command.
abbrev pub lift : {A : Type 0} → Outcome A → Cmd A
lift (Outcome.ok a) s = done a s
lift Outcome.fault s = Os.fault
lift Outcome.out_of_fuel s = out_of_fuel

pub record Server (T : Type 0) : Type 0 where
  pub listen_fd : ℕ
  pub epoll : Option Handler
  pub client_mgr : T
  pub addr : Address
  pub callbacks : Callbacks

module _ (ct : ClientTable) where
  open ct use {Table}

  -- A new connection that is in the table: its registration, and the callback or the way back.
  unfoldable pub register : Server Table → ℕ → Info → Cmd (Server Table)
  register server client_fd client = do
    r ← Epoll.add server.epoll client_fd null epoll_in_et
    if r == minus_one
        then (do
          mgr ← lift (ct.remove server.client_mgr client_fd)
          sys (Call.close client_fd)
          pure (record server { client_mgr = mgr }))
        else (do call_with server.callbacks.on_connection client; pure server)

  -- What follows the attempt to add the client.
  unfoldable pub entered : Server Table → ℕ → Option Info × Table → Cmd (Server Table)
  unfolding register
  entered server client_fd (none, mgr) = do
    sys (Call.close client_fd)
    pure (record server { client_mgr = mgr })
  entered server client_fd (some client, mgr) =
      register (record server { client_mgr = mgr }) client_fd client

  -- A new connection that does not block: its entry in the table.
  unfoldable pub enter : Server Table → ℕ → Address → Cmd (Server Table)
  unfolding entered
  enter server client_fd client_addr =
      entered server client_fd (ct.add server.client_mgr client_fd client_addr)

  -- One accepted connection, up to the next round of the loop.
  unfoldable pub admit : Server Table → ℕ → Address → Cmd (Server Table)
  unfolding enter
  admit server client_fd client_addr = do
    r ← tcp_socket_set_nonblocking client_fd
    if r == minus_one
        then (do sys (Call.close client_fd); pure server)
        else enter server client_fd client_addr

  unfoldable pub handle_accept : (fuel : ℕ) → Server Table → Cmd (Server Table)
  unfolding admit
  handle_accept zero server = λ s. out_of_fuel
  handle_accept (suc fuel) server = do
    (client_fd, client_addr) ← tcp_socket_accept server.listen_fd
    if client_fd == minus_one
        then (do
          errno ← get_errno
          if errno == eagain || errno == ewouldblock then pure server else pure server)
        else (admit server client_fd client_addr >>= handle_accept fuel)

  unfoldable pub drop_client : Server Table → ℕ → Info → Cmd (Server Table)
  drop_client server client_fd client = do
    call_with server.callbacks.on_disconnected client
    r ← Epoll.remove server.epoll client_fd
    sys (Call.close client_fd)
    mgr ← lift (ct.remove server.client_mgr client_fd)
    pure (record server { client_mgr = mgr })

  unfoldable pub receive_loop : (fuel : ℕ) → Server Table → ℕ → Info → Cmd (Server Table)
  unfolding drop_client
  receive_loop zero server client_fd client = λ s. out_of_fuel
  receive_loop (suc fuel) server client_fd client = do
    r ← sys (Call.recv client_fd buffer_size)
    if not (is_negative r.value) && not (r.value == 0)
        then (do
          call_received server.callbacks.on_received client (take r.value r.bytes)
          receive_loop fuel server client_fd client)
        else if r.value == 0
        then drop_client server client_fd client
        else (do
          errno ← get_errno
          if errno == eagain || errno == ewouldblock
              then pure server
              else drop_client server client_fd client)

  unfoldable pub handle_client : (fuel : ℕ) → Server Table → (client_fd : ℕ) → Cmd (Server Table)
  unfolding receive_loop
  handle_client fuel server client_fd = do
    client ← lift (ct.find server.client_mgr client_fd)
    elim client [ none ↦ pure server | some c ↦ receive_loop fuel server client_fd c ]

  -- The fuel of a handler: each round takes a reply.
  abbrev pub rounds : Sys → ℕ
  rounds s = length s.script + 1

  -- The pointer that comes with an event is taken for a descriptor, an `int`.
  unfoldable pub epoll_event_callback : Epoll.Callback (Server Table)
  unfolding handle_accept handle_client
  epoll_event_callback ptr events server s =
      if ptr % 0x1_0000_0000 == server.listen_fd
      then handle_accept (rounds s) server s
      else handle_client (rounds s) server (ptr % 0x1_0000_0000) s
