-- ===== src/Server/Accept.antt =====
-- `handle_accept`: every accepted connection ends in the table or is closed.
use tiny_mon.Base.{
  ℕ, zero, suc, ◌<◌, ◌≡◌, refl, ap, sym, ◌∙◌, inl, inr, ◌||◌, ◌==◌, List, ◌∷◌, ◌++◌, length, arith,
  minus_one,
}
use tiny_mon.Os.{eagain, ewouldblock, Address, Sys, Call}
use tiny_mon.Os.Descriptors.{live, closed, closed-cons}
use tiny_mon.Os.Ensures
use tiny_mon.Os.Ensures.{Ensures, ends, waits, exits, Answered, sys-Answered, length-script}
use tiny_mon.Clients.{Info, new_info}
use tiny_mon.Clients.Table.{ClientTable, erase_info}
use tiny_mon.Server.{Server, register, enter, admit, handle_accept}
use tiny_mon.Server.Owns.{
  Polite, add-Quiet, set_nonblocking-Quiet, tcp_socket_accept-live, fds, erase_info-cons, Owns,
  Kept, Polite-same, Kept-trans,
}

module _ (ct : ClientTable) (base : List ℕ) where
  open ct use {Table, Shows}

  register-Kept :
      (server : Server Table) (s : Sys) (xs : List Info) (c : Info)
      → Polite server.callbacks
      → Shows server.client_mgr (c ∷ xs)
      → live s.trace ≡ c.fd ∷ (fds xs ++ base)
      → Ensures (Kept ct base server s) (register ct server c.fd c s)
  unfolding register
  register-Kept server s xs c polite h l = Ensures.bind (add-Quiet server.epoll c.fd _ _ s) λ r t q.
      Ensures.branch (r == minus_one) _ _ t
        (λ e.
          let (mgr, step, h') = ct.remove-Shows server.client_mgr (c ∷ xs) c.fd h in
          rw step (
            Ensures.bind (sys-Answered (Call.close c.fd) t) λ r' u a. ends (record {
              owns = (
                erase_info (c ∷ xs) c.fd,
                h',
                ap live a.trace
                    ∙ ap (closed c.fd) (q.1 ∙ l)
                    ∙ closed-cons c.fd (fds xs ++ base)
                    ∙ ap (λ ys. fds ys ++ base) (sym (erase_info-cons c xs)),
              );
              shorter = omega (arith, q.0, length-script a);
              same = refl;
            })))
        (λ e. Ensures.bind (polite.on_connection c t) λ _ u q'. ends (record {
          owns = (c ∷ xs, h, q'.1 ∙ q.1 ∙ l);
          shorter = omega (arith, q.0, q'.0);
          same = refl;
        }))

  enter-Kept :
      (server : Server Table) (s : Sys) (xs : List Info) (fd : ℕ) (addr : Address)
      → Polite server.callbacks
      → Shows server.client_mgr xs
      → live s.trace ≡ fd ∷ (fds xs ++ base)
      → Ensures (Kept ct base server s) (enter ct server fd addr s)
  unfolding enter
  enter-Kept server s xs fd addr polite h l = elim (ct.add-Shows server.client_mgr xs fd addr h) [
    | inl (_, refused) ↦ rw refused (
        Ensures.bind (sys-Answered (Call.close fd) s) λ r t a. ends (record {
          owns = (xs, h, ap live a.trace ∙ ap (closed fd) l ∙ closed-cons fd (fds xs ++ base));
          shorter = omega (arith, length-script a);
          same = refl;
        }))
    | inr (mgr, added, h') ↦ rw added (
        Ensures.weaken
          (register-Kept (record server { client_mgr = mgr }) s xs (new_info fd addr) polite h' l)
          (λ server' t k. record { owns = k.owns; shorter = k.shorter; same = k.same }))
  ]

  pub admit-Kept :
      (server : Server Table) (s : Sys) (xs : List Info) (fd : ℕ) (addr : Address)
      → Polite server.callbacks
      → Shows server.client_mgr xs
      → live s.trace ≡ fd ∷ (fds xs ++ base)
      → Ensures (Kept ct base server s) (admit ct server fd addr s)
  unfolding admit
  admit-Kept server s xs fd addr polite h l = Ensures.bind (set_nonblocking-Quiet fd s) λ r t q.
      Ensures.branch (r == minus_one) _ _ t
        (λ e. Ensures.bind (sys-Answered (Call.close fd) t) λ r' u a. ends (record {
          owns =
              (xs, h, ap live a.trace ∙ ap (closed fd) (q.1 ∙ l) ∙ closed-cons fd (fds xs ++ base));
          shorter = omega (arith, q.0, length-script a);
          same = refl;
        }))
        (λ e. Ensures.weaken (enter-Kept server t xs fd addr polite h (q.1 ∙ l)) (λ server' u k.
          record { owns = k.owns; shorter = omega (arith, q.0, k.shorter); same = k.same }))

  pub handle_accept-Kept :
      (fuel : ℕ) (server : Server Table) (s : Sys)
      → length s.script < fuel
      → Polite server.callbacks
      → Owns ct base server s
      → Ensures (Kept ct base server s) (handle_accept ct fuel server s)
  unfolding handle_accept
  handle_accept-Kept zero server s lt polite o = absurd (omega arith)
  handle_accept-Kept (suc fuel) server s lt polite (xs, h, l) =
      Ensures.bind (tcp_socket_accept-live server.listen_fd s) λ (fd, addr) t (taken, live_t).
        Ensures.branch (fd == minus_one) _ _ t
          (λ e.
            let kept : Kept ct base server s server t = record {
              owns = (xs, h, ground (arith, live_t, l));
              shorter = omega (arith, taken);
              same = refl;
            } in
            Ensures.branch (t.errno == eagain || t.errno == ewouldblock) _ _ t (λ _. ends kept)
              (λ _. ends kept))
          (λ e.
            Ensures.bind (admit-Kept server t xs fd addr polite h (ground (arith, live_t, l)))
              λ server' u k.
                Ensures.weaken
                  (handle_accept-Kept fuel server' u (omega (arith, taken, k.shorter))
                    (Polite-same ct base server server' k.same polite) k.owns)
                  (λ server'' v k'.
                    Kept-trans ct base server s server' u server'' v
                      (omega (arith, taken, k.shorter)) k.same k'))
