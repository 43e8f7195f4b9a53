-- ===== src/Socket.antt =====
-- src/internal/libsocket.c, the functions on sockets. Messages to the log and to stderr are left
-- out. `inet_pton` is the C library's: it gives the address of a text that is one.
pub mod Laws
pub mod Safe
use Prim.Native.Nat.{bit_or}
use tiny_mon.Base.{
  ℕ, ◌+◌, ◌*◌, ◌/◌, ◌%◌, List, Option, none, some, ◌==◌, if◌then◌else◌, minus_one, is_negative,
}
use tiny_mon.Os.{Address, Cmd, Call, sys, pure, exit, ◌>>=◌, ◌>>◌}

-- The two bytes of a port, changed over.
abbrev pub htons : ℕ → ℕ
htons port = (port % 256) * 256 + (port / 256) % 256

abbrev pub inaddr_any : ℕ
inaddr_any = 0

abbrev pub o_nonblock : ℕ
o_nonblock = 0o4000

unfoldable pub socket_init : Cmd ℕ
socket_init = do r ← sys Call.socket; if is_negative r.value then pure minus_one else pure r.value

unfoldable pub socket_setsockopt_reuseaddr : (server_fd : ℕ) → Cmd (Unit {0})
socket_setsockopt_reuseaddr server_fd = do
  r ← sys (Call.setsockopt server_fd)
  if r.value == 0 then pure tt else (do sys (Call.close server_fd); exit 1)

unfoldable pub socket_bind_address : (port socket_fd : ℕ) → Cmd (Unit {0})
socket_bind_address port socket_fd = do
  r ← sys (Call.bind socket_fd (record { ip = inaddr_any; port = htons port }))
  if is_negative r.value then (do sys (Call.close socket_fd); exit 1) else pure tt

unfoldable pub socket_listen : (socket_fd : ℕ) → Cmd (Unit {0})
socket_listen socket_fd = do
  r ← sys (Call.listen socket_fd)
  if is_negative r.value then (do sys (Call.close socket_fd); exit 1) else pure tt

unfoldable pub socket_accept : (socket_fd : ℕ) → Cmd (Unit {0})
socket_accept socket_fd = do
  r ← sys (Call.accept socket_fd)
  if is_negative r.value then (do sys (Call.close socket_fd); exit 1) else pure tt

unfoldable pub socket_set_server_address :
    (inet_pton : List ℕ → Option ℕ) → (server_ip : List ℕ) → (server_port : ℕ) → Address
socket_set_server_address inet_pton server_ip server_port = record {
  ip = elim (inet_pton server_ip) [ none ↦ 0 | some ip ↦ ip ];
  port = htons server_port;
}

unfoldable pub socket_connect : Address → (socket_fd : ℕ) → Cmd (Unit {0})
socket_connect server_address socket_fd = do
  r ← sys (Call.connect socket_fd server_address)
  if is_negative r.value then (do sys (Call.close socket_fd); exit 1) else pure tt

unfoldable pub tcp_socket_set_nonblocking : (fd : ℕ) → Cmd ℕ
tcp_socket_set_nonblocking fd = do
  r ← sys (Call.getfl fd)
  if r.value == minus_one
      then pure minus_one
      else (do r' ← sys (Call.setfl fd (bit_or r.value o_nonblock)); pure r'.value)

-- The address that a server binds to: `addr` as it was, with what is written to it.
abbrev pub server_address :
    (inet_pton : List ℕ → Option ℕ) → (ip : Option (List ℕ)) → (port : ℕ) → Address → Address
server_address inet_pton none port addr = record { ip = inaddr_any; port = htons port }
server_address inet_pton (some text) port addr = record {
  ip = elim (inet_pton text) [ none ↦ addr.ip | some ip ↦ ip ];
  port = htons port;
}

unfoldable pub tcp_socket_create_server :
    (inet_pton : List ℕ → Option ℕ) → (ip : Option (List ℕ)) → (port : ℕ) → Address → Cmd ℕ
unfolding socket_init socket_setsockopt_reuseaddr
tcp_socket_create_server inet_pton ip port addr = do
  fd ← socket_init
  if is_negative fd then pure minus_one else do
    socket_setsockopt_reuseaddr fd
    r ← sys (Call.bind fd (server_address inet_pton ip port addr))
    if is_negative r.value then (do sys (Call.close fd); pure minus_one) else do
      r' ← sys (Call.listen fd)
      if is_negative r'.value then (do sys (Call.close fd); pure minus_one) else pure fd

-- The peer's address comes with the descriptor.
unfoldable pub tcp_socket_accept : (listen_fd : ℕ) → Cmd (ℕ × Address)
tcp_socket_accept listen_fd = do r ← sys (Call.accept listen_fd); pure (r.value, r.peer)
