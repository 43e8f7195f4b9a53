-- ===== src/Cli.antt =====
-- src/cli/quekka-cli.cpp, the client on the command line. Messages to the log are left out, but for the
-- texts that it shows: they are the state that its callback works on, the oldest first. The flags of
-- `recv` make no difference to the replies, which are arbitrary.
pub mod Receive
pub mod Rounds
pub mod Messages
pub mod Runs
pub mod Tests
use tiny_mon.Base.{
  ℕ, zero, suc, ◌+◌, ◌-◌, ◌%◌, List, [], ◌∷◌, ◌++◌, Option, none, some, Bool, ◌==◌, ltb,
  if◌then◌else◌, length, take, replicate, overwrite, cstr, strlen, minus_one, is_negative,
}
use tiny_mon.Os.{Address, Sys, Cmd, Call, out_of_fuel, sys, pure, exit, ◌>>=◌, ◌>>◌}
use tiny_mon.Os
use tiny_mon.Epoll
use tiny_mon.Epoll.{Handler}
use tiny_mon.Socket.{socket_init, socket_set_server_address, socket_connect}
use tiny_mon.Clients.{null}
use tiny_mon.Config.{atoi}
use tiny_mon.Main.{Opt, exit_failure, epoll_in}
use tiny_mon.Message.{header_size}
use tiny_mon.Message.Wire.{read16}

pub record Globals : Type 0 where
  pub quekka_binding_ip : List ℕ
  pub quekka_binding_port : ℕ

-- "127.0.0.1" and 9999.
abbrev pub initial : Globals
initial = record {
  quekka_binding_ip = b'1' ∷ b'2' ∷ b'7' ∷ b'.' ∷ b'0' ∷ b'.' ∷ b'0' ∷ b'.' ∷ b'1' ∷ [];
  quekka_binding_port = 9999;
}

unfoldable pub process_args : List Opt → Globals → ℕ × Globals
process_args [] g = (0, g)
process_args (o ∷ os) g =
    if o.opt == b'i'
    then process_args os (record g { quekka_binding_ip = o.text })
    else if o.opt == b'p'
    then process_args os (record g { quekka_binding_port = atoi o.text })
    else (minus_one, g)

abbrev pub Shown : Type 0
Shown = List (List ℕ)

-- The text in a buffer is shown up to its terminator; without one the reading leaves the buffer.
unfoldable pub process_quekka_data : (buffer : List ℕ) → Shown → Cmd Shown
process_quekka_data buffer shown =
    if strlen buffer == length buffer then (λ s. Os.fault) else pure (shown ++ (cstr buffer ∷ []))

-- `sizeof(pBodyBuffer) + 1`: the size of a pointer, and one.
abbrev pub cleared : ℕ
cleared = 9

-- What `malloc` returns: no block, or the bytes that it happens to hold.
abbrev pub Heap : Type 0
Heap = Sys → (size : ℕ) → Option (List ℕ)

-- The end of a connection.
unfoldable pub disconnected : Option Handler → Shown → Cmd Shown
disconnected handler shown = do Epoll.remove handler 0; sys (Call.close 0); pure shown

module _ (handler : Option Handler) where
  -- The body of a message into a block of `payload_len + 1` bytes. To clear more than the block is a
  -- fault, so the length is 8 at least when the body is received.
  unfoldable pub receive_into :
      (payload_len : ℕ) → Option (List ℕ) → (next : Shown → Cmd Shown) → Shown → Cmd Shown
  unfolding process_quekka_data disconnected
  receive_into payload_len none next shown = exit exit_failure
  receive_into payload_len (some block) next shown =
      if ltb (payload_len + 1) cleared then (λ s. Os.fault) else do
        r ← sys (Call.recv 0 (payload_len - 1))
        if r.value == 0
            then disconnected handler shown
            else if is_negative r.value
            then exit exit_failure
            else (process_quekka_data
                  (overwrite (overwrite block cleared (replicate cleared 0)) r.value
                    (take r.value r.bytes))
                  shown
                >>= next)

module _ (malloc : Heap) (handler : Option Handler) where
  unfoldable pub receive_body : (header : List ℕ) → (next : Shown → Cmd Shown) → Shown → Cmd Shown
  unfolding receive_into
  receive_body header next shown s =
      receive_into handler (read16 header 148) (malloc s (read16 header 148 + 1)) next shown s

  -- `while (true)`, on fuel. The last byte of the header is not asked for.
  unfoldable pub receive_loop : (fuel : ℕ) → (header : List ℕ) → Shown → Cmd Shown
  unfolding receive_body disconnected
  receive_loop zero header shown = λ s. out_of_fuel
  receive_loop (suc fuel) header shown = do
    r ← sys (Call.recv 0 (header_size - 1))
    if r.value == 0
        then disconnected handler shown
        else if is_negative r.value
        then exit exit_failure
        else (let header' = overwrite header r.value (take r.value r.bytes) in
            receive_body header' (receive_loop fuel header') shown)

  unfoldable pub callback_fn : Epoll.Callback Shown
  unfolding receive_loop
  callback_fn ptr events shown s =
      receive_loop (length s.script + 1) (replicate (header_size + 1) 0) shown s

  -- `while (epoll_handler_wait(...) != -1)`, on fuel.
  unfoldable pub wait_loop : (fuel : ℕ) → Shown → Cmd Shown
  unfolding callback_fn
  wait_loop zero shown = λ s. out_of_fuel
  wait_loop (suc fuel) shown = do
    (ret, shown') ← Epoll.wait handler minus_one (some callback_fn) shown
    if ret == minus_one then pure shown' else wait_loop fuel shown'

module _ (malloc : Heap) where
  -- The program from the creation of the handler on; what `epoll_handler_add` answers is not read.
  unfoldable pub serve : (fd : ℕ) → Address → Option Handler → Cmd ℕ
  unfolding wait_loop
  serve fd addr none = exit exit_failure
  serve fd addr (some h) = do
    Epoll.add (some h) fd null epoll_in
    socket_connect addr fd
    (λ s. wait_loop malloc (some h) (length s.script + 1) [] s)
    pure 0

module _ (malloc : Heap) (inet_pton : List ℕ → Option ℕ) where
  unfoldable pub run : (handler_memory : Bool) → ℕ × Globals → Cmd ℕ
  unfolding serve
  run handler_memory (args, g) = if args == minus_one then exit exit_failure else do
    fd ← socket_init
    if fd == minus_one then exit exit_failure else do
      h ← Epoll.create handler_memory
      serve malloc fd
          (socket_set_server_address inet_pton g.quekka_binding_ip g.quekka_binding_port) h

  unfoldable pub main : (handler_memory : Bool) → List Opt → Cmd ℕ
  unfolding process_args run
  main handler_memory opts = run handler_memory (process_args opts initial)
