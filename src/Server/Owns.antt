-- ===== src/Server/Owns.antt =====
-- The descriptors that a server owns: those of its clients, in front of what was open before.
use tiny_mon.Base.{
  ℕ, suc, ◌≤◌, ◌≡◌, refl, ap, sym, subst, ◌∙◌, ◌==◌, if◌then◌else◌, Option, none, some, List, [],
  ◌∷◌, ◌++◌, map, length, arith, minus_one,
}
use tiny_mon.Os.{Sys, Cmd, Call, Reply}
use tiny_mon.Os.Descriptors.{live, closed}
use tiny_mon.Os.Ensures
use tiny_mon.Os.Ensures.{Ensures, ends, waits, exits, Answered, sys-Answered, length-script}
use tiny_mon.Epoll
use tiny_mon.Epoll.{Handler}
use tiny_mon.Socket.{tcp_socket_accept, tcp_socket_set_nonblocking}
use tiny_mon.Clients.{Info}
use tiny_mon.Clients.Table.{ClientTable, find_info, erase_info}
use tiny_mon.Server.{Server, Callbacks, call, call_with, call_received}

-- No reply is given back, and the open descriptors are as they were.
abbrev pub Quiet : Sys → Sys → Type 0
Quiet s t = (length t.script ≤ length s.script) × (live t.trace ≡ live s.trace)

abbrev pub Gentle : Cmd (Unit {0}) → Type 0
Gentle m = (s : Sys) → Ensures (λ _ t. Quiet s t) (m s)

-- Callbacks that return, and that open and close no descriptor.
pub record Polite (c : Callbacks) : Type 0 where
  pub on_start : Gentle (call c.on_start)
  pub on_stop : Gentle (call c.on_stop)
  pub on_connection : (i : Info) → Gentle (call_with c.on_connection i)
  pub on_disconnected : (i : Info) → Gentle (call_with c.on_disconnected i)
  pub on_received : (i : Info) (bytes : List ℕ) → Gentle (call_received c.on_received i bytes)

module _ {s t : Sys} {r : Reply} where
  -- What a call does that neither opens nor closes a descriptor.
  pub quiet : {c : Call} → Answered c s r t → live t.trace ≡ live s.trace → Quiet s t
  quiet a same = (omega (arith, length-script a), same)

pub add-Quiet :
    (h : Option Handler) (fd ptr events : ℕ) (s : Sys)
    → Ensures (λ _ t. Quiet s t) (Epoll.add h fd ptr events s)
unfolding Epoll.add
add-Quiet none fd ptr events s = ends (omega arith, refl)
add-Quiet (some h) fd ptr events s = Ensures.bind (sys-Answered _ s) λ r t a.
    Ensures.branch (r.value == minus_one) _ _ t (λ e. ends (quiet a (ap live a.trace)))
      (λ e. ends (quiet a (ap live a.trace)))

pub remove-Quiet :
    (h : Option Handler) (fd : ℕ) (s : Sys) → Ensures (λ _ t. Quiet s t) (Epoll.remove h fd s)
unfolding Epoll.remove
remove-Quiet none fd s = ends (omega arith, refl)
remove-Quiet (some h) fd s = Ensures.bind (sys-Answered _ s) λ r t a.
    Ensures.branch (r.value == minus_one) _ _ t (λ e. ends (quiet a (ap live a.trace)))
      (λ e. ends (quiet a (ap live a.trace)))

pub Quiet-trans : (s t u : Sys) → Quiet s t → Quiet t u → Quiet s u
Quiet-trans s t u p q = (omega arith, q.1 ∙ p.1)

pub set_nonblocking-Quiet :
    (fd : ℕ) (s : Sys) → Ensures (λ _ t. Quiet s t) (tcp_socket_set_nonblocking fd s)
unfolding tcp_socket_set_nonblocking
set_nonblocking-Quiet fd s = Ensures.bind (sys-Answered _ s) λ r t a.
    let q : Quiet s t = quiet a (ap live a.trace) in
    Ensures.branch (r.value == minus_one) _ _ t (λ e. ends q)
      (λ e.
        Ensures.bind (sys-Answered _ t)
          λ r' u a'. ends (Quiet-trans s t u q (quiet a' (ap live a'.trace))))

-- `accept` opens the descriptor that it returns.
pub tcp_socket_accept-live :
    (listen_fd : ℕ) (s : Sys)
    → Ensures
        (λ (fd, _) t.
          (length s.script ≡ suc (length t.script))
          × (live t.trace ≡ (if fd == minus_one then live s.trace else fd ∷ live s.trace)))
        (tcp_socket_accept listen_fd s)
unfolding tcp_socket_accept
tcp_socket_accept-live listen_fd s =
    Ensures.bind (sys-Answered (Call.accept listen_fd) s)
      λ r t a. ends (length-script a, ap live a.trace)

abbrev pub fds : List Info → List ℕ
fds = map (λ i. i.fd)

-- Closing the descriptor of a client is taking it out of the list.
pub closed-fds :
    (xs : List Info) (base : List ℕ) (fd : ℕ) (c : Info)
    → find_info xs fd ≡ some c
    → closed fd (fds xs ++ base) ≡ fds (erase_info xs fd) ++ base
unfolding closed find_info erase_info
closed-fds [] base fd c e = cc
closed-fds (i ∷ xs) base fd c e = ground (arith, closed-fds xs base fd c)

pub erase_info-cons : (i : Info) (xs : List Info) → erase_info (i ∷ xs) i.fd ≡ xs
unfolding erase_info
erase_info-cons i xs = ground arith

module _ (ct : ClientTable) (base : List ℕ) where
  open ct use {Table, Shows}

  -- The open descriptors are those of the clients in the table, and `base`.
  abbrev pub Owns : Server Table → Sys → Type 0
  Owns server s = (xs : List Info) × Shows server.client_mgr xs × (live s.trace ≡ fds xs ++ base)

  -- A handler changes the table alone, and takes the replies that it gets.
  pub record Kept (server : Server Table) (s : Sys) (server' : Server Table) (t : Sys)
      : Type 0 where
    pub owns : Owns server' t
    pub shorter : length t.script ≤ length s.script
    pub same : server' ≡ record server { client_mgr = server'.client_mgr }

  pub Polite-same :
      (server server' : Server Table)
      → server' ≡ record server { client_mgr = server'.client_mgr }
      → Polite server.callbacks
      → Polite server'.callbacks
  Polite-same server server' same polite =
      subst Polite (sym (ap {A = Server Table} (λ x. x.callbacks) same)) polite

  pub Kept-trans :
      (server : Server Table) (s : Sys) (server' : Server Table) (t : Sys) (server'' : Server Table)
      (u : Sys)
      → length t.script ≤ length s.script
      → server' ≡ record server { client_mgr = server'.client_mgr }
      → Kept server' t server'' u
      → Kept server s server'' u
  Kept-trans server s server' t server'' u shorter same k = record {
    owns = k.owns;
    shorter = omega (arith, k.shorter);
    same = k.same ∙ ap {A = Server Table} (λ x. record x { client_mgr = server''.client_mgr }) same;
  }
