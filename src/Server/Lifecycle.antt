-- ===== src/Server/Lifecycle.antt =====
-- src/internal/libsocket.c, the life of a socket server: creation, the event loop, stopping, and what
-- a callback may call.
use tiny_mon.Base.{
  ℕ, zero, suc, List, Option, none, some, Bool, not, ◌==◌, ◌&&◌, if◌then◌else◌, minus_one,
  is_negative,
}
use tiny_mon.Os.{
  Address, Cmd, Call, out_of_fuel, sys, pure, ◌>>=◌, ◌>>◌, get_errno, get_running, set_running,
  eintr,
}
use tiny_mon.Epoll
use tiny_mon.Epoll.{Handler}
use tiny_mon.Socket.{socket_init, socket_setsockopt_reuseaddr, socket_listen, server_address}
use tiny_mon.Clients.{Info, null}
use tiny_mon.Clients.Table.{ClientTable}
use tiny_mon.Server.{Server, Callbacks, call, lift, epoll_in_et, rounds, epoll_event_callback}

module _ (ct : ClientTable) where
  open ct use {Table}

  -- The end of the creation: the client manager, `none` if it is null, and the registration.
  unfoldable pub with_manager :
      (listen_fd : ℕ) → Address → Callbacks → Handler → Option Table → Cmd (Option (Server Table))
  with_manager listen_fd addr callbacks h none = do
    Epoll.destroy (some h)
    sys (Call.close listen_fd)
    pure none
  with_manager listen_fd addr callbacks h (some mgr) = do
    r ← Epoll.add (some h) listen_fd null epoll_in_et
    if r == minus_one
        then (do
          lift (ct.destroy mgr)
          Epoll.destroy (some h)
          sys (Call.close listen_fd)
          pure none)
        else (do
          set_running 0
          pure (
              some (record {
                listen_fd = listen_fd;
                epoll = some h;
                client_mgr = mgr;
                addr = addr;
                callbacks = callbacks;
              })))

  -- What follows the attempt to create the epoll handler.
  unfoldable pub with_handler :
      (mgr_memory : Bool)
      → (listen_fd : ℕ) → Address
      → Callbacks
      → Option Handler
      → Cmd (Option (Server Table))
  unfolding with_manager
  with_handler mgr_memory listen_fd addr callbacks none = do sys (Call.close listen_fd); pure none
  with_handler mgr_memory listen_fd addr callbacks (some h) =
      with_manager listen_fd addr callbacks h (ct.create mgr_memory)

  -- `none` is the null pointer. The three flags say which `calloc` succeeds: that of the server, of
  -- the epoll handler and of the client manager.
  unfoldable pub socket_server_create :
      (server_memory handler_memory mgr_memory : Bool)
      → (inet_pton : List ℕ → Option ℕ) → (ip : Option (List ℕ)) → (port : ℕ) → Option Callbacks
      → Cmd (Option (Server Table))
  unfolding with_handler
  socket_server_create server_memory handler_memory mgr_memory inet_pton ip port none = pure none
  socket_server_create server_memory handler_memory mgr_memory inet_pton ip port (some callbacks) =
      if not server_memory then pure none else do
        listen_fd ← socket_init
        if is_negative listen_fd then pure none else do
          socket_setsockopt_reuseaddr listen_fd
          let addr = server_address inet_pton ip port (record { ip = 0; port = 0 })
          r ← sys (Call.bind listen_fd addr)
          if is_negative r.value then (do sys (Call.close listen_fd); pure none) else do
            socket_listen listen_fd
            epoll ← Epoll.create handler_memory
            with_handler mgr_memory listen_fd addr callbacks epoll

  -- `while (server->running)`.
  unfoldable pub event_loop : (fuel : ℕ) → Server Table → Cmd (Server Table)
  event_loop zero server = λ s. out_of_fuel
  event_loop (suc fuel) server = do
    running ← get_running
    if running == 0 then pure server else do
      (ret, server') ← Epoll.wait server.epoll minus_one (some (epoll_event_callback ct)) server
      errno ← get_errno
      if ret == minus_one && not (errno == eintr) then pure server' else event_loop fuel server'

  -- The result of the call and the server that it leaves.
  unfoldable pub socket_server_start : Option (Server Table) → Cmd (ℕ × Option (Server Table))
  unfolding event_loop
  socket_server_start none = pure (minus_one, none)
  socket_server_start (some server) = do
    set_running 1
    call server.callbacks.on_start
    server' ← (λ s. event_loop (rounds ct s) server s)
    call server'.callbacks.on_stop
    pure (0, some server')

  -- `free` of the server itself ends the life of the value.
  unfoldable pub socket_server_destroy : Option (Server Table) → Cmd (Unit {0})
  socket_server_destroy none = pure tt
  socket_server_destroy (some server) = do
    if server.listen_fd == minus_one
        then pure tt
        else (do sys (Call.close server.listen_fd); pure tt)
    Epoll.destroy server.epoll
    lift (ct.destroy server.client_mgr)

-- The server is reached through the state, so stopping it is writing the field.
unfoldable pub socket_server_stop : Cmd (Unit {0})
socket_server_stop = set_running 0

unfoldable pub socket_server_send : Option Info → Option (List ℕ) → Cmd ℕ
socket_server_send none data' = pure minus_one
socket_server_send (some client) none = pure minus_one
socket_server_send (some client) (some data') = do r ← sys (Call.send client.fd data'); pure r.value

unfoldable pub socket_server_disconnect : Option Info → Cmd (Unit {0})
socket_server_disconnect none = pure tt
socket_server_disconnect (some client) = do sys (Call.close client.fd); pure tt
