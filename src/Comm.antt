-- ===== src/Comm.antt =====
-- src/internal/comm.h and the part of src/internal/libsocket.c that talks to one client: the echo loop
-- and the server that forks a child for each connection. `read` and `write` move at most 1031 bytes,
-- so their `ssize_t` is read as an `int`. Messages to the log are left out.
pub mod Forking
pub mod Session
pub mod Tests
use tiny_mon.Base.{
  ℕ, zero, suc, ◌+◌, ◌-◌, List, [], ◌∷◌, ◌++◌, Bool, true, ◌&&◌, ◌||◌, ◌==◌, if◌then◌else◌, take,
  drop, set, get_or, length, replicate, cstr, overwrite, minus_one, is_negative,
}
use tiny_mon.Os.{Sys, Cmd, Call, Reply, out_of_fuel, sys, pure, exit, ◌>>=◌, ◌>>◌}

abbrev pub buffer_size : ℕ
buffer_size = 1024

-- `"Echo: "` and `"quit"`.
abbrev pub echo : List ℕ
echo = b'E' ∷ b'c' ∷ b'h' ∷ b'o' ∷ b':' ∷ b' ' ∷ []

abbrev pub quit : List ℕ
quit = b'q' ∷ b'u' ∷ b'i' ∷ b't' ∷ []

-- `strncmp(s, t, n) == 0`.
unfoldable pub strncmp_equal : ℕ → List ℕ → List ℕ → Bool
strncmp_equal zero s t = true
strncmp_equal (suc n) s t =
    let rest = strncmp_equal n (drop 1 s) (drop 1 t) in
    (get_or s 0 0 == get_or t 0 0) && ((get_or s 0 0 == 0) || rest)

-- The buffer after `memset`, a successful `read` and the NUL behind the bytes.
unfoldable pub received : Reply → List ℕ
received r = set (overwrite (replicate buffer_size 0) r.value (take r.value r.bytes)) r.value 0

-- What `snprintf` makes of it in an array of `BUFFER_SIZE + 8` bytes.
unfoldable pub response : Reply → List ℕ
unfolding received
response r = take (buffer_size + 8 - 1) (echo ++ cstr (received r))

abbrev pub comm_init : (socket_fd : ℕ) → ℕ
comm_init socket_fd = if is_negative socket_fd then minus_one else 0

-- `while (1)`, on fuel.
unfoldable pub comm_loop : (fuel : ℕ) → (socket_fd : ℕ) → Cmd ℕ
comm_loop zero socket_fd = λ s. out_of_fuel
comm_loop (suc fuel) socket_fd = do
  r ← sys (Call.read socket_fd (buffer_size - 1))
  if r.value == 0 || is_negative r.value
      then pure 0
      else if strncmp_equal 4 (received r) quit
      then pure 0
      else (do
        w ← sys (Call.write socket_fd (response r))
        if is_negative w.value then pure 0 else comm_loop fuel socket_fd)

-- Each round takes two replies.
unfoldable pub comm_handle_data : (socket_fd : ℕ) → Cmd ℕ
unfolding comm_loop
comm_handle_data socket_fd s = comm_loop (length s.script + 1) socket_fd s

abbrev pub comm_cleanup : (socket_fd : ℕ) → Cmd (Unit {0})
comm_cleanup socket_fd = do sys (Call.close socket_fd); pure tt

-- `while (1)` of the forking server, on fuel. The child, for which `fork` returns 0, ends at once.
unfoldable pub connect_loop : (fuel : ℕ) → (server_fd : ℕ) → Cmd (Unit {0})
connect_loop zero server_fd = λ s. out_of_fuel
connect_loop (suc fuel) server_fd = do
  r ← sys (Call.accept server_fd)
  if is_negative r.value then connect_loop fuel server_fd else do
    pid ← sys Call.fork
    if is_negative pid.value
        then (do sys (Call.close r.value); connect_loop fuel server_fd)
        else if pid.value == 0
        then (do sys (Call.close server_fd); exit 1)
        else (do sys (Call.close r.value); connect_loop fuel server_fd)

unfoldable pub socket_connect_with_client : (server_fd : ℕ) → Cmd (Unit {0})
unfolding connect_loop
socket_connect_with_client server_fd s = connect_loop (length s.script + 1) server_fd s
