-- ===== src/Cli/Receive.antt =====
-- What the callback of src/cli/quekka-cli.cpp does with the messages that it receives.
use tiny_mon.Base.{
  ℕ, zero, suc, ◌+◌, ◌-◌, ◌<◌, ◌≤◌, ◌≡◌, refl, ap, ◌∙◌, ◌==◌, ltb, Option, none, some, List, ◌∷◌,
  length, take, overwrite, strlen, arith, is_negative,
}
use tiny_mon.Os.{Address, Sys, Call, Reply, Cmd}
use tiny_mon.Os.Ensures.{Answered, length-script}
use tiny_mon.Os.Safe
use tiny_mon.Os.Safe.{Safe, ends, waits, exits, faults, Since, sys-Safe}
use tiny_mon.Epoll.{Handler}
use tiny_mon.Epoll.Safe.{remove-Safe}
use tiny_mon.Message.Wire.{read16}
use tiny_mon.Cli.{
  Shown, Heap, process_quekka_data, cleared, disconnected, receive_into, receive_body, receive_loop,
  callback_fn,
}

-- A call that receives, receives from the descriptor 0, and one that connects, connects to `addr`.
abbrev pub ClientCall : Address → Call → Type 0
ClientCall addr (Call.recv fd size) = fd ≡ 0
ClientCall addr (Call.connect fd addr') = addr' ≡ addr
ClientCall addr c = Unit {0}

-- The end of a connection: `recv` found its end, and the descriptor 0 was taken out and closed. There
-- are at most `m` replies left.
pub record Left (h : Handler) (m : ℕ) (t : Sys) : Type 0 where
  pub size : ℕ
  pub ended : Reply
  pub removed : Reply
  pub closed : Reply
  pub older : List (Call × Reply)
  pub trace :
      t.trace
      ≡ (Call.close 0, closed)
        ∷ (Call.epoll_del h.epoll_fd 0, removed)
        ∷ (Call.recv 0 size, ended)
        ∷ older
  pub at_end : ended.value ≡ 0
  pub fits : length t.script ≤ m

module _ (addr : Address) {base : List (Call × Reply)} (h : Handler) (m : ℕ) where
  disconnected-Left :
      (size : ℕ) (shown : Shown) (s t : Sys) (r : Reply)
      → Since (ClientCall addr) base t.trace
      → Answered (Call.recv 0 size) s r t
      → r.value ≡ 0
      → length t.script ≤ m
      → Safe (Unit {0}) (ClientCall addr) base (λ _ u. Left h m u) (disconnected (some h) shown t)
  unfolding disconnected
  disconnected-Left size shown s t r all a at_end fits =
      Safe.bind (remove-Safe h 0 t tt all) λ _ u all' (r', a').
        Safe.bind (sys-Safe (Call.close 0) u tt all') λ r'' v all'' a''. ends all'' (record {
          size = size;
          ended = r;
          removed = r';
          closed = r'';
          older = s.trace;
          trace =
              a''.trace
              ∙ ap (λ l. (Call.close 0, r'') ∷ l)
                  (a'.trace ∙ ap (λ l. (Call.epoll_del h.epoll_fd 0, r') ∷ l) a.trace);
          at_end = at_end;
          fits = omega (arith, length-script a', length-script a'');
        })

  process-Safe :
      (buffer : List ℕ) (shown : Shown) (s : Sys)
      → Since (ClientCall addr) base s.trace
      → Safe (Unit {0}) (ClientCall addr) base (λ _ t. t ≡ s) (process_quekka_data buffer shown s)
  unfolding process_quekka_data
  process-Safe buffer shown s all =
      Safe.branch (strlen buffer == length buffer) _ _ s (λ e. faults tt) (λ e. ends all refl)

  receive_into-Left :
      (payload_len : ℕ) (o : Option (List ℕ)) (next : Shown → Cmd Shown) (shown : Shown) (s : Sys)
      → Since (ClientCall addr) base s.trace
      → length s.script ≤ m
      → ((shown' : Shown) (t : Sys)
          → Since (ClientCall addr) base t.trace
          → length t.script < length s.script
          → Safe (Unit {0}) (ClientCall addr) base (λ _ u. Left h m u) (next shown' t))
      → Safe
          (Unit {0})
          (ClientCall addr)
          base
          (λ _ u. Left h m u)
          (receive_into (some h) payload_len o next shown s)
  unfolding receive_into
  receive_into-Left payload_len none next shown s all fits go_on = exits refl all
  receive_into-Left payload_len (some block) next shown s all fits go_on =
      Safe.branch (ltb (payload_len + 1) cleared) _ _ s (λ e. faults tt)
        (λ _. Safe.bind (sys-Safe (Call.recv 0 (payload_len - 1)) s refl all) λ r t all' a.
          Safe.branch (r.value == 0) _ _ t
            (λ e.
              disconnected-Left (payload_len - 1) shown s t r all' a (ground (arith, e))
                (omega (arith, length-script a)))
            (λ _.
              Safe.branch (is_negative r.value) _ _ t (λ _. exits refl all')
                (λ _. Safe.bind (process-Safe _ shown t all') λ shown' u all'' same.
                  go_on shown' u all''
                    (omega (arith, ap {A = Sys} (λ x. length x.script) same, length-script a)))))

  module _ (malloc : Heap) where
    receive_body-Left :
        (header : List ℕ) (next : Shown → Cmd Shown) (shown : Shown) (s : Sys)
        → Since (ClientCall addr) base s.trace
        → length s.script ≤ m
        → ((shown' : Shown) (t : Sys)
            → Since (ClientCall addr) base t.trace
            → length t.script < length s.script
            → Safe (Unit {0}) (ClientCall addr) base (λ _ u. Left h m u) (next shown' t))
        → Safe
            (Unit {0})
            (ClientCall addr)
            base
            (λ _ u. Left h m u)
            (receive_body malloc (some h) header next shown s)
    unfolding receive_body
    receive_body-Left header next shown s =
        receive_into-Left (read16 header 148) (malloc s (read16 header 148 + 1)) next shown s

    receive_loop-Left :
        (fuel : ℕ) (header : List ℕ) (shown : Shown) (s : Sys)
        → length s.script < fuel
        → length s.script ≤ m
        → Since (ClientCall addr) base s.trace
        → Safe
            (Unit {0})
            (ClientCall addr)
            base
            (λ _ t. Left h m t)
            (receive_loop malloc (some h) fuel header shown s)
    unfolding receive_loop
    receive_loop-Left zero header shown s lt fits all = absurd (omega arith)
    receive_loop-Left (suc fuel) header shown s lt fits all =
        Safe.bind (sys-Safe (Call.recv 0 152) s refl all) λ r t all' a.
          Safe.branch (r.value == 0) _ _ t
            (λ e.
              disconnected-Left 152 shown s t r all' a (ground (arith, e))
                (omega (arith, length-script a)))
            (λ _.
              Safe.branch (is_negative r.value) _ _ t (λ _. exits refl all')
                (λ _.
                  let header' = overwrite header r.value (take r.value r.bytes) in
                  receive_body-Left header' (receive_loop malloc (some h) fuel header') shown t all'
                    (omega (arith, length-script a))
                    λ shown' u all'' less.
                      receive_loop-Left fuel header' shown' u (omega (arith, length-script a))
                        (omega (arith, length-script a)) all''))

module _ (addr : Address) {base : List (Call × Reply)} (malloc : Heap) (h : Handler) where
  -- If since the trace was `base` the program has received from the descriptor 0 and connected to `addr`
  -- only, whatever the environment answers, the callback of the client keeps to that, and has enough
  -- fuel. It returns only when `recv` has found the end of the connection, after it has taken the
  -- descriptor 0 out of the handler and closed it. Otherwise it waits, it exits with the code 1, or it
  -- leaves the bounds of its buffer.
  pub callback_fn-Left :
      (ptr events : ℕ) (shown : Shown) (s : Sys)
      → Since (ClientCall addr) base s.trace
      → Safe
          (Unit {0})
          (ClientCall addr)
          base
          (λ _ t. Left h (length s.script) t)
          (callback_fn malloc (some h) ptr events shown s)
  unfolding callback_fn
  callback_fn-Left ptr events shown s all =
      receive_loop-Left addr h (length s.script) malloc (length s.script + 1) _ shown s
        (omega arith) (omega arith) all
