-- ===== src/Cli/Runs.antt =====
-- src/cli/quekka-cli.cpp as a whole: what it connects to, where it receives from, and how it ends.
use tiny_mon.Base.{
  ℕ, zero, suc, ◌+◌, ◌<◌, ◌≡◌, refl, ap, Bool, false, ◌==◌, Option, none, some, List, [], ◌∷◌, ◌++◌,
  length, arith, minus_one, is_negative,
}
use mathlib.Core.Option.{some-injective}
use tiny_mon.Os.{Address, Sys, Call, Reply}
use tiny_mon.Os.Safe
use tiny_mon.Os.Safe.{Safe, ends, exits, Since, Since-self, sys-Safe}
use tiny_mon.Epoll.{Handler}
use tiny_mon.Socket.{socket_set_server_address}
use tiny_mon.Epoll.Safe.{WaitFailed, Opened, add-Safe, create-Safe, wait-Safe}
use tiny_mon.Socket.Laws.{socket_init-trace, socket_connect-trace}
use tiny_mon.Socket.Safe.{socket_init-Safe, socket_connect-Safe}
use tiny_mon.Main.{Opt}
use tiny_mon.Cli.{initial, process_args, Shown, Heap, callback_fn, wait_loop, serve, run, main}
use tiny_mon.Cli.Receive.{ClientCall, callback_fn-Left}

-- Since the trace was `old` the first calls made a socket and a handler, put the socket in the handler,
-- and connected the socket to `addr`, which succeeded.
pub record Connected (addr : Address) (old : List (Call × Reply)) (t : Sys) : Type 0 where
  pub socket : Reply
  pub handler : Reply
  pub added : Reply
  pub connected : Reply
  pub later : List (Call × Reply)
  pub trace :
      t.trace
      ≡ later
        ++ ((Call.connect socket.value addr, connected)
            ∷ (Call.epoll_add handler.value socket.value (record { ptr = 0; events = 1 }), added)
            ∷ (Call.epoll_create, handler)
            ∷ (Call.socket, socket)
            ∷ old)
  pub succeeded : is_negative connected.value ≡ false

module _ (addr : Address) (malloc : Heap) (h : Handler) {base : List (Call × Reply)} where
  wait_loop-Safe :
      (fuel : ℕ) (shown : Shown) (s : Sys)
      → length s.script < fuel
      → Since (ClientCall addr) base s.trace
      → Safe
          (Unit {0})
          (ClientCall addr)
          base
          (λ _ t. WaitFailed t)
          (wait_loop malloc (some h) fuel shown s)
  unfolding wait_loop
  wait_loop-Safe zero shown s lt all = absurd (omega arith)
  wait_loop-Safe (suc fuel) shown s lt all =
      Safe.bind
        (wait-Safe (callback_fn malloc (some h))
          (λ ptr events shown' t all'.
            Safe.weaken (callback_fn-Left addr malloc h ptr events shown' t all')
              (λ _ _ left. left.fits))
          h shown s tt all)
        λ (ret, shown') t all' (failed, less).
          Safe.branch (ret == minus_one) _ _ t (λ e. ends all' (failed (ground (arith, e))))
            (λ e. wait_loop-Safe fuel shown' t (omega arith) all')

module _ (addr : Address) (malloc : Heap) where
  serve-Safe :
      (fd : ℕ) (o : Option Handler) (old : List (Call × Reply)) (made : Reply) (s u : Sys)
      → s.trace ≡ (Call.socket, made) ∷ old
      → made.value ≡ fd
      → Opened o s u
      → Since (ClientCall addr) old u.trace
      → Safe
          (Unit {0})
          (ClientCall addr)
          old
          (λ code t. (code ≡ 0) × WaitFailed t × Connected addr old t)
          (serve malloc fd addr o u)
  unfolding serve
  serve-Safe fd none old made s u l same opened all = exits refl all
  serve-Safe fd (some h) old made s u l same opened all =
      let (created, l', is_h) = opened h refl in
      let h_value : created.value ≡ h.epoll_fd =
        ap {A = Handler} (λ x. x.epoll_fd) (some-injective _ _ is_h) in
      Safe.bind (add-Safe h fd 0 1 u tt all) λ _ v all' (added, a).
        Safe.bind
          (Safe.both (socket_connect-trace addr fd v) (socket_connect-Safe fd tt addr v refl all'))
          λ _ w all'' ((connected, l'', fine), _).
            Safe.bind
              (Safe.rebase all'' (
                wait_loop-Safe addr malloc h (length w.script + 1) [] w (omega arith)
                  (Since-self (ClientCall addr) w.trace)))
              λ _ t all3 (failed, (later, grown, _)). ends all3 (
                refl,
                failed,
                record {
                  socket = made;
                  handler = created;
                  added = added;
                  connected = connected;
                  later = later;
                  trace = rw (grown, l'', a.trace, l', l, h_value, same) refl;
                  succeeded = fine;
                },
              )

module _ (malloc : Heap) (inet_pton : List ℕ → Option ℕ) where
  -- Where the arguments say that the server is.
  abbrev pub server : List Opt → Address
  server opts =
      let g = (process_args opts initial).1 in
      socket_set_server_address inet_pton g.quekka_binding_ip g.quekka_binding_port

  -- Whenever the client returns, it returns 0, its last call was a wait for events that failed, and its
  -- first calls made a socket and a handler and connected that socket to the address and the port of its
  -- arguments. Also where it waits, or exits with the code 1, it has connected to nothing else, and has
  -- received from the descriptor 0 only, not from the socket that it connects. It has enough fuel. A run
  -- that leaves the bounds of a buffer ends there, and nothing is said of the calls before that.
  pub main-Connected :
      (handler_memory : Bool) (opts : List Opt) (s : Sys)
      → Safe
          (Unit {0})
          (ClientCall (server opts))
          s.trace
          (λ code t. (code ≡ 0) × WaitFailed t × Connected (server opts) s.trace t)
          (main malloc inet_pton handler_memory opts s)
  unfolding main run
  main-Connected handler_memory opts s =
      let (args, g) = process_args opts initial in
      let all : Since (ClientCall (server opts)) s.trace s.trace = Since-self _ s.trace in
      Safe.branch (args == minus_one) _ _ s (λ e. exits refl all)
        (λ e.
          Safe.bind (Safe.both (socket_init-trace s) (socket_init-Safe s tt all))
            λ fd t all' ((made, l, value), _).
              Safe.branch (fd == minus_one) _ _ t (λ e'. exits refl all')
                (λ e'. Safe.bind (create-Safe handler_memory t tt all') λ o u all'' opened.
                  serve-Safe (server opts) malloc fd o s.trace made t u l
                    (ground (arith, e', value)) opened all''))
