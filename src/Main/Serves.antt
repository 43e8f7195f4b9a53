-- ===== src/Main/Serves.antt =====
-- What the server program does with its arguments, and that it serves nobody.
use tiny_mon.Base.{
  ℕ, zero, suc, ◌+◌, ◌<◌, ◌≡◌, refl, Bool, ◌==◌, if◌then◌else◌, Option, none, some, List, [], ◌∷◌,
  length, arith, minus_one, is_negative,
}
use tiny_mon.Os.{Sys, Call, Reply}
use tiny_mon.Os.Safe
use tiny_mon.Os.Safe.{Safe, ends, exits, Since, Since-self}
use tiny_mon.Epoll.{Handler}
use tiny_mon.Epoll.Safe.{add-Safe, create-Safe, wait-Safe}
use tiny_mon.Socket.Safe.{socket_init-Safe, setsockopt-Safe, bind_address-Safe, listen-Safe}
use tiny_mon.Config.{atoi}
use tiny_mon.Main.{Opt, Globals, initial, process_args, callback_fn, wait_loop, serve, run, main}

-- The arguments without those of `-p`.
unfoldable pub without_ports : List Opt → List Opt
without_ports [] = []
without_ports (o ∷ os) = if o.opt == b'p' then without_ports os else o ∷ without_ports os

process_args-without_ports :
    (os : List Opt) (g g' : Globals)
    → g.quekka_binding_ip ≡ g'.quekka_binding_ip
    → ((process_args os g).0 ≡ (process_args (without_ports os) g').0)
      × ((process_args os g).1.quekka_binding_ip
          ≡ (process_args (without_ports os) g').1.quekka_binding_ip)
unfolding process_args without_ports
process_args-without_ports [] g g' e = (refl, e)
process_args-without_ports (o ∷ os) g g' e =
    let at_ip =
      process_args-without_ports os (record g { quekka_binding_ip = o.optarg })
        (record g' { quekka_binding_ip = o.optarg }) refl in
    let at_port =
      process_args-without_ports os (record g { quekka_binding_port = atoi o.text }) g' e in
    (ground (arith, at_ip.0, at_port.0, e), ground (arith, at_ip.1, at_port.1, e))

run-same :
    (handler_memory : Bool) (listener : ℕ) (x y : ℕ × Globals) (s : Sys)
    → x.0 ≡ y.0
    → x.1.quekka_binding_ip ≡ y.1.quekka_binding_ip
    → run handler_memory listener x s ≡ run handler_memory listener y s
unfolding run
run-same handler_memory listener (a, g) (a', g') s e e' = rw (e, e')

-- The options `-p` make no difference: the program makes the same calls, and gives the same code, as
-- without them.
pub main-without_ports :
    (handler_memory : Bool) (listener : ℕ) (opts : List Opt) (s : Sys)
    → main handler_memory listener opts s ≡ main handler_memory listener (without_ports opts) s
unfolding main
main-without_ports handler_memory listener opts s =
    let same = process_args-without_ports opts initial initial refl in
    run-same handler_memory listener (process_args opts initial)
      (process_args (without_ports opts) initial) s same.0 same.1

-- A call that serves nobody: it takes no connection and makes none, and moves no byte.
abbrev pub IdleCall : Call → Type 0
IdleCall (Call.accept fd) = ⊥
IdleCall (Call.connect fd addr) = ⊥
IdleCall (Call.recv fd size) = ⊥
IdleCall (Call.send fd bytes) = ⊥
IdleCall (Call.read fd size) = ⊥
IdleCall (Call.write fd bytes) = ⊥
IdleCall c = Unit {0}

module _ {base : List (Call × Reply)} where
  wait_loop-Safe :
      (fuel : ℕ) (h : Handler) (s : Sys)
      → length s.script < fuel
      → Since IdleCall base s.trace
      → Safe ⊥ IdleCall base (λ _ t. Unit {0}) (wait_loop fuel (some h) s)
  unfolding wait_loop
  wait_loop-Safe zero h s lt all = absurd (omega arith)
  wait_loop-Safe (suc fuel) h s lt all =
      Safe.bind
        (wait-Safe callback_fn (λ ptr events u t all'. ends all' (omega arith)) h tt s tt all)
        λ (ret, _) t all' (_, less).
          Safe.branch (ret == minus_one) _ _ t (λ e. ends all' tt)
            (λ e. wait_loop-Safe fuel h t (omega arith) all')

  serve-Safe :
      (listener fd : ℕ) (o : Option Handler) (s : Sys)
      → Since IdleCall base s.trace
      → Safe ⊥ IdleCall base (λ code t. code ≡ 1) (serve listener fd o s)
  unfolding serve
  serve-Safe listener fd none s all = ends all refl
  serve-Safe listener fd (some h) s all =
      Safe.branch (listener == 0) _ _ s (λ e. ends all refl)
        (λ e. Safe.bind (add-Safe h fd listener 1 s tt all) λ r t all' _.
          Safe.branch (r == minus_one) _ _ t (λ e'. ends all' refl)
            (λ e'.
              Safe.bind (wait_loop-Safe (length t.script + 1) h t (omega arith) all')
                λ _ u all'' _. ends all'' refl))

-- The program serves nobody. However it runs, and also while it waits, it takes no connection and makes
-- none, and receives and sends nothing; it has enough fuel, and whenever it ends, by returning or by
-- `exit`, its code is `EXIT_FAILURE`.
pub main-Idle :
    (handler_memory : Bool) (listener : ℕ) (opts : List Opt) (s : Sys)
    → Safe ⊥ IdleCall s.trace (λ code t. code ≡ 1) (main handler_memory listener opts s)
unfolding main run
main-Idle handler_memory listener opts s =
    let (args, g) = process_args opts initial in
    let all : Since IdleCall s.trace s.trace = Since-self _ s.trace in
    Safe.branch (args == minus_one) _ _ s (λ e. ends all refl)
      (λ e. Safe.bind (socket_init-Safe s tt all) λ fd t all' _.
        Safe.branch (is_negative fd) _ _ t (λ e'. ends all' refl)
          (λ e'. Safe.bind (setsockopt-Safe fd tt t tt all') λ _ u all'' _.
            Safe.bind (bind_address-Safe fd tt _ u tt all'') λ _ v all3 _.
              Safe.bind (listen-Safe fd tt v tt all3) λ _ w all4 _.
                Safe.bind (create-Safe handler_memory w tt all4)
                  λ o x all5 _. serve-Safe listener fd o x all5))
