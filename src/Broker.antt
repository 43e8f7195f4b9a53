-- ===== src/Broker.antt =====
-- src/server/quekka.cpp, the server program in C++. Messages to the log and the log file are left out,
-- but for the texts that arrive: they are the state that its callback works on, the oldest first. The
-- flag of `recv` makes no difference to the replies, which are arbitrary.
pub mod Runs
pub mod Tests
use tiny_mon.Base.{
  ℕ, zero, suc, ◌+◌, ◌-◌, List, [], ◌∷◌, ◌++◌, Option, none, some, Bool, ◌==◌, if◌then◌else◌,
  length, take, replicate, overwrite, cstr, minus_one, is_negative,
}
use tiny_mon.Os.{Cmd, Call, out_of_fuel, sys, pure, exit, ◌>>=◌, ◌>>◌}
use tiny_mon.Epoll
use tiny_mon.Epoll.{Handler}
use tiny_mon.Socket.{
  socket_init, socket_setsockopt_reuseaddr, socket_bind_address, socket_listen, tcp_socket_accept,
}
use tiny_mon.Clients.{null}
use tiny_mon.Config.{atoi}
use tiny_mon.Main.{Opt, exit_failure, epoll_in}

-- `quekkaBindingIp` is a pointer.
pub record Globals : Type 0 where
  pub quekka_binding_ip : ℕ
  pub quekka_binding_port : ℕ

abbrev pub initial : Globals
initial = record { quekka_binding_ip = 0; quekka_binding_port = 9999 }

unfoldable pub process_args : List Opt → Globals → ℕ × Globals
process_args [] g = (0, g)
process_args (o ∷ os) g =
    if o.opt == b'i'
    then process_args os (record g { quekka_binding_ip = o.optarg })
    else if o.opt == b'p'
    then process_args os (record g { quekka_binding_port = atoi o.text })
    else (minus_one, g)

-- `sizeof(tmpBuffer)`.
abbrev pub buffer_size : ℕ
buffer_size = 1024

-- The texts of `user_data[...]` in the log.
abbrev pub Logged : Type 0
Logged = List (List ℕ)

module _ (handler : Option Handler) (server_fd : ℕ) where
  unfoldable pub callback_fn : Epoll.Callback Logged
  callback_fn ptr events logged =
      if server_fd == 0
      then (do
        (accepted_fd, addr) ← tcp_socket_accept server_fd
        Epoll.add handler accepted_fd null epoll_in
        pure logged)
      else (do
        r ← sys (Call.recv 0 (buffer_size - 1))
        if r.value == 0
            then (do Epoll.remove handler 0; sys (Call.close 0); pure logged)
            else if is_negative r.value
            then pure logged
            else pure (
                logged
                ++ (cstr (overwrite (replicate buffer_size 0) r.value (take r.value r.bytes))
                    ∷ [])))

  -- `while (epoll_handler_wait(...) != -1)`, on fuel.
  unfoldable pub wait_loop : (fuel : ℕ) → Logged → Cmd Logged
  unfolding callback_fn
  wait_loop zero logged = λ s. out_of_fuel
  wait_loop (suc fuel) logged = do
    (ret, logged') ← Epoll.wait handler minus_one (some callback_fn) logged
    if ret == minus_one then pure logged' else wait_loop fuel logged'

-- The program from the creation of the handler on; what `epoll_handler_add` answers is not read.
unfoldable pub serve : (server_fd : ℕ) → Option Handler → Cmd ℕ
unfolding wait_loop
serve server_fd none = exit exit_failure
serve server_fd (some h) = do
  Epoll.add (some h) server_fd null epoll_in
  (λ s. wait_loop (some h) server_fd (length s.script + 1) [] s)
  pure 0

unfoldable pub run : (handler_memory : Bool) → ℕ × Globals → Cmd ℕ
unfolding serve
run handler_memory (args, g) = if args == minus_one then exit exit_failure else do
  server_fd ← socket_init
  if is_negative server_fd then exit exit_failure else do
    socket_setsockopt_reuseaddr server_fd
    socket_bind_address g.quekka_binding_port server_fd
    socket_listen server_fd
    h ← Epoll.create handler_memory
    serve server_fd h

unfoldable pub main : (handler_memory : Bool) → List Opt → Cmd ℕ
unfolding process_args run
main handler_memory opts = run handler_memory (process_args opts initial)
