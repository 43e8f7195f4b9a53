-- ===== src/Main.antt =====
-- src/server/quekka.c and src/internal/connection.h, the server program. Messages to the log and the
-- log file are left out. What `getopt` finds on the command line is a list: each option with its
-- argument, which is a pointer to a text. `listener` is the pointer that `malloc` returns; what it
-- points to is written and never read.
pub mod Serves
pub mod Tests
use tiny_mon.Base.{
  ℕ, zero, suc, ◌+◌, ◌%◌, List, [], ◌∷◌, Option, none, some, Bool, ◌==◌, if◌then◌else◌, length,
  minus_one, is_negative,
}
use tiny_mon.Os.{Sys, Cmd, out_of_fuel, pure, ◌>>=◌, ◌>>◌}
use tiny_mon.Epoll
use tiny_mon.Epoll.{Handler}
use tiny_mon.Socket.{socket_init, socket_setsockopt_reuseaddr, socket_bind_address, socket_listen}
use tiny_mon.Config.{atoi}

-- An answer of `getopt(argc, argv, "i:p:")`.
pub record Opt : Type 0 where
  pub opt : ℕ
  pub optarg : ℕ
  pub text : List ℕ

pub record Globals : Type 0 where
  pub quekka_binding_ip : ℕ
  pub quekka_binding_port : ℕ

abbrev pub initial : Globals
initial = record { quekka_binding_ip = 0; quekka_binding_port = 9999 }

unfoldable pub process_args : List Opt → Globals → ℕ × Globals
process_args [] g = (0, g)
process_args (o ∷ os) g =
    if o.opt == b'i'
    then process_args os (record g { quekka_binding_ip = o.optarg })
    else if o.opt == b'p'
    then process_args os (record g { quekka_binding_port = atoi o.text })
    else (minus_one, g)

abbrev pub exit_failure : ℕ
exit_failure = 1

abbrev pub epoll_in : ℕ
epoll_in = 1

-- `callback_fn` is empty.
abbrev pub callback_fn : Epoll.Callback (Unit {0})
callback_fn ptr events user_data = pure user_data

-- `while (epoll_handler_wait(...) != -1)`, on fuel.
unfoldable pub wait_loop : (fuel : ℕ) → Option Handler → Cmd (Unit {0})
wait_loop zero handler = λ s. out_of_fuel
wait_loop (suc fuel) handler = do
  (ret, _) ← Epoll.wait handler minus_one (some callback_fn) tt
  if ret == minus_one then pure tt else wait_loop fuel handler

-- The program from the call of `malloc` on.
unfoldable pub serve : (listener : ℕ) → (server_fd : ℕ) → Option Handler → Cmd ℕ
unfolding wait_loop
serve listener server_fd none = pure exit_failure
serve listener server_fd (some h) = if listener == 0 then pure exit_failure else do
  r ← Epoll.add (some h) server_fd listener epoll_in
  if r == minus_one
      then pure exit_failure
      else do (λ s. wait_loop (length s.script + 1) (some h) s); pure exit_failure

-- The program once its arguments are read. The pointer to the text of an address is passed on as
-- the port, an `int`.
unfoldable pub run : (handler_memory : Bool) → (listener : ℕ) → ℕ × Globals → Cmd ℕ
unfolding serve
run handler_memory listener (args, g) = if args == minus_one then pure exit_failure else do
  server_fd ← socket_init
  if is_negative server_fd then pure exit_failure else do
    socket_setsockopt_reuseaddr server_fd
    socket_bind_address (g.quekka_binding_ip % 0x1_0000_0000) server_fd
    socket_listen server_fd
    h ← Epoll.create handler_memory
    serve listener server_fd h

unfoldable pub main : (handler_memory : Bool) → (listener : ℕ) → List Opt → Cmd ℕ
unfolding process_args run
main handler_memory listener opts = run handler_memory listener (process_args opts initial)
