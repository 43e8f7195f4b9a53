-- ===== src/Broker/Runs.antt =====
-- src/server/quekka.cpp: where the server listens, and whom it serves.
use tiny_mon.Base.{
  ℕ, zero, suc, ◌+◌, ◌<◌, ◌≤◌, ◌≡◌, refl, ap, Bool, false, ◌==◌, Option, none, some, List, [], ◌∷◌,
  ◌++◌, length, arith, minus_one, is_negative,
}
use mathlib.Core.Option.{some-injective}
use tiny_mon.Os.{Sys, Call, Reply}
use tiny_mon.Os.Ensures.{length-script}
use tiny_mon.Os.Safe
use tiny_mon.Os.Safe.{Safe, ends, exits, Since, Since-self, sys-Safe}
use tiny_mon.Epoll.{Handler}
use tiny_mon.Epoll.Safe.{WaitFailed, Opened, add-Safe, remove-Safe, create-Safe, wait-Safe}
use tiny_mon.Socket.{tcp_socket_accept, htons, inaddr_any}
use tiny_mon.Socket.Laws.{socket_init-trace, setsockopt-trace, bind_address-trace, listen-trace}
use tiny_mon.Socket.Safe.{socket_init-Safe, setsockopt-Safe, bind_address-Safe, listen-Safe}
use tiny_mon.Main.{Opt}
use tiny_mon.Broker.{initial, process_args, Logged, callback_fn, wait_loop, serve, run, main}

-- A call that binds, binds to `port` on all addresses; one that accepts or receives uses the descriptor
-- 0, and the program does not connect or send.
abbrev pub BrokerCall : (port : ℕ) → Call → Type 0
BrokerCall port (Call.bind fd addr) = addr ≡ record { ip = inaddr_any; port = htons port }
BrokerCall port (Call.accept fd) = fd ≡ 0
BrokerCall port (Call.recv fd size) = fd ≡ 0
BrokerCall port (Call.connect fd addr) = ⊥
BrokerCall port (Call.send fd bytes) = ⊥
BrokerCall port c = Unit {0}

-- Since the trace was `old` the first calls made a socket, bound it to `port` on all addresses, listened
-- on it, made a handler and put the socket in it; binding and listening succeeded.
pub record Listening (port : ℕ) (old : List (Call × Reply)) (t : Sys) : Type 0 where
  pub socket : Reply
  pub reused : Reply
  pub bound : Reply
  pub listened : Reply
  pub handler : Reply
  pub added : Reply
  pub later : List (Call × Reply)
  pub trace :
      t.trace
      ≡ later
        ++ ((Call.epoll_add handler.value socket.value (record { ptr = 0; events = 1 }), added)
            ∷ (Call.epoll_create, handler)
            ∷ (Call.listen socket.value, listened)
            ∷ (Call.bind socket.value (record { ip = inaddr_any; port = htons port }), bound)
            ∷ (Call.setsockopt socket.value, reused)
            ∷ (Call.socket, socket)
            ∷ old)
  pub is_bound : is_negative bound.value ≡ false
  pub listens : is_negative listened.value ≡ false

-- The same up to the handler.
record Prepared (port fd : ℕ) (old : List (Call × Reply)) (s : Sys) : Type 0 where
  socket : Reply
  reused : Reply
  bound : Reply
  listened : Reply
  trace :
      s.trace
      ≡ (Call.listen fd, listened)
        ∷ (Call.bind fd (record { ip = inaddr_any; port = htons port }), bound)
        ∷ (Call.setsockopt fd, reused)
        ∷ (Call.socket, socket)
        ∷ old
  same : socket.value ≡ fd
  is_bound : is_negative bound.value ≡ false
  listens : is_negative listened.value ≡ false

module _ (port : ℕ) (h : Handler) (fd : ℕ) {base : List (Call × Reply)} where
  callback_fn-Safe :
      (ptr events : ℕ) (logged : Logged) (s : Sys)
      → Since (BrokerCall port) base s.trace
      → Safe ⊥
          (BrokerCall port)
          base
          (λ _ t. length t.script ≤ length s.script)
          (callback_fn (some h) fd ptr events logged s)
  unfolding callback_fn tcp_socket_accept
  callback_fn-Safe ptr events logged s all =
      Safe.branch (fd == 0) _ _ s
        (λ e.
          Safe.bind {Q = λ _ u. length u.script ≤ length s.script}
            (Safe.bind (sys-Safe (Call.accept fd) s (ground (arith, e)) all)
              λ r t all' a. ends all' (omega (arith, length-script a)))
            λ (accepted_fd, addr) t all' fits.
              Safe.bind (add-Safe h accepted_fd 0 1 t tt all')
                λ _ u all'' (r, a). ends all'' (omega (arith, fits, length-script a)))
        (λ e. Safe.bind (sys-Safe (Call.recv 0 1023) s refl all) λ r t all' a.
          Safe.branch (r.value == 0) _ _ t
            (λ _. Safe.bind (remove-Safe h 0 t tt all') λ _ u all'' (r', a').
              Safe.bind (sys-Safe (Call.close 0) u tt all'') λ r'' v all3 a''.
                ends all3 (omega (arith, length-script a, length-script a', length-script a'')))
            (λ _.
              Safe.branch (is_negative r.value) _ _ t
                (λ _. ends all' (omega (arith, length-script a)))
                (λ _. ends all' (omega (arith, length-script a)))))

  wait_loop-Safe :
      (fuel : ℕ) (logged : Logged) (s : Sys)
      → length s.script < fuel
      → Since (BrokerCall port) base s.trace
      → Safe ⊥ (BrokerCall port) base (λ _ t. WaitFailed t) (wait_loop (some h) fd fuel logged s)
  unfolding wait_loop
  wait_loop-Safe zero logged s lt all = absurd (omega arith)
  wait_loop-Safe (suc fuel) logged s lt all =
      Safe.bind (wait-Safe (callback_fn (some h) fd) callback_fn-Safe h logged s tt all)
        λ (ret, logged') t all' (failed, less).
          Safe.branch (ret == minus_one) _ _ t (λ e. ends all' (failed (ground (arith, e))))
            (λ e. wait_loop-Safe fuel logged' t (omega arith) all')

module _ (port : ℕ) (old : List (Call × Reply)) where
  serve-Safe :
      (fd : ℕ) (o : Option Handler) (s u : Sys)
      → Prepared port fd old s
      → Opened o s u
      → Since (BrokerCall port) old u.trace
      → Safe ⊥
          (BrokerCall port)
          old
          (λ code t. (code ≡ 0) × WaitFailed t × Listening port old t)
          (serve fd o u)
  unfolding serve
  serve-Safe fd none s u p opened all = exits refl all
  serve-Safe fd (some h) s u p opened all =
      let (created, l, is_h) = opened h refl in
      let h_value : created.value ≡ h.epoll_fd =
        ap {A = Handler} (λ x. x.epoll_fd) (some-injective _ _ is_h) in
      Safe.bind (add-Safe h fd 0 1 u tt all) λ _ v all' (added, a).
        Safe.bind
          (Safe.rebase all' (
            wait_loop-Safe port h fd (length v.script + 1) [] v (omega arith)
              (Since-self (BrokerCall port) v.trace)))
          λ _ t all'' (failed, (later, grown, _)). ends all'' (
            refl,
            failed,
            record {
              socket = p.socket;
              reused = p.reused;
              bound = p.bound;
              listened = p.listened;
              handler = created;
              added = added;
              later = later;
              trace = rw (grown, a.trace, l, p.trace, h_value, p.same) refl;
              is_bound = p.is_bound;
              listens = p.listens;
            },
          )

-- Whenever the server in C++ returns, it returns 0, its last call was a wait for events that failed, and
-- its first calls made a socket, bound it to the port of its arguments on all addresses and listened on
-- it, both with success, and put it in a handler. However it ends, and also where it waits, it has bound
-- to no other port, has accepted connections on the descriptor 0 only, has received from the
-- descriptor 0 only, and has neither connected nor sent; on other errors it exits with the code 1.
pub main-Listening :
    (handler_memory : Bool) (opts : List Opt) (s : Sys)
    → Safe ⊥
        (BrokerCall (process_args opts initial).1.quekka_binding_port)
        s.trace
        (λ code t.
          (code ≡ 0)
          × WaitFailed t
          × Listening (process_args opts initial).1.quekka_binding_port s.trace t)
        (main handler_memory opts s)
unfolding main run
main-Listening handler_memory opts s =
    let (args, g) = process_args opts initial in
    let port = g.quekka_binding_port in
    let all : Since (BrokerCall port) s.trace s.trace = Since-self _ s.trace in
    Safe.branch (args == minus_one) _ _ s (λ e. exits refl all)
      (λ e.
        Safe.bind (Safe.both (socket_init-trace s) (socket_init-Safe s tt all))
          λ fd t all' ((made, l, value), _).
            Safe.branch (is_negative fd) _ _ t (λ e'. exits refl all')
              (λ e'.
                Safe.bind (Safe.both (setsockopt-trace fd t) (setsockopt-Safe fd tt t tt all'))
                  λ _ u all'' ((reused, l'), _).
                    Safe.bind
                      (Safe.both (bind_address-trace port fd u)
                        (bind_address-Safe fd tt port u refl all''))
                      λ _ v all3 ((bound, l'', is_bound), _).
                        Safe.bind (Safe.both (listen-trace fd v) (listen-Safe fd tt v tt all3))
                          λ _ w all4 ((listened, l3, listens), _).
                            Safe.bind (create-Safe handler_memory w tt all4) λ o x all5 opened.
                              serve-Safe port s.trace fd o w x
                                (record {
                                  socket = made;
                                  reused = reused;
                                  bound = bound;
                                  listened = listened;
                                  trace = rw (l3, l'', l', l) refl;
                                  same = ground (arith, e', value);
                                  is_bound = is_bound;
                                  listens = listens;
                                })
                                opened all5))
