-- ===== src/Server/Receive.antt =====
-- `handle_client`: a client that is gone is closed and taken out of the table.
use tiny_mon.Base.{
  take, ℕ, zero, suc, ◌<◌, ◌≡◌, refl, ap, ◌∙◌, inl, inr, not, ◌&&◌, ◌||◌, ◌==◌, Option-cases, some,
  List, ◌++◌, length, arith, is_negative,
}
use tiny_mon.Os.{eagain, ewouldblock, Sys, Call}
use tiny_mon.Os.Descriptors.{live, closed}
use tiny_mon.Os.Ensures
use tiny_mon.Os.Ensures.{Ensures, ends, waits, exits, Answered, sys-Answered, length-script}
use tiny_mon.Clients.{Info}
use tiny_mon.Clients.Table.{ClientTable, find_info, erase_info}
use tiny_mon.Server.{buffer_size, Server, drop_client, receive_loop, handle_client}
use tiny_mon.Server.Owns.{
  Quiet, quiet, Polite, remove-Quiet, fds, closed-fds, Owns, Kept, Kept-trans,
}

module _ (ct : ClientTable) (base : List ℕ) where
  open ct use {Table, Shows}

  drop_client-Kept :
      (server : Server Table) (s : Sys) (xs : List Info) (fd : ℕ) (c : Info)
      → Polite server.callbacks
      → Shows server.client_mgr xs
      → find_info xs fd ≡ some c
      → live s.trace ≡ fds xs ++ base
      → Ensures (Kept ct base server s) (drop_client ct server fd c s)
  unfolding drop_client
  drop_client-Kept server s xs fd c polite h found l =
      Ensures.bind (polite.on_disconnected c s) λ _ t q.
        Ensures.bind (remove-Quiet server.epoll fd t) λ r u q'.
          Ensures.bind (sys-Answered (Call.close fd) u) λ r' v a.
            let (mgr, step, h') = ct.remove-Shows server.client_mgr xs fd h in
            rw step (
              ends (record {
                owns = (
                  erase_info xs fd,
                  h',
                  ap live a.trace ∙ ap (closed fd) (q'.1 ∙ q.1 ∙ l) ∙ closed-fds xs base fd c found,
                );
                shorter = omega (arith, q.0, q'.0, length-script a);
                same = refl;
              }))

  receive_loop-Kept :
      (fuel : ℕ) (server : Server Table) (s : Sys) (xs : List Info) (fd : ℕ) (c : Info)
      → length s.script < fuel
      → Polite server.callbacks
      → Shows server.client_mgr xs
      → find_info xs fd ≡ some c
      → live s.trace ≡ fds xs ++ base
      → Ensures (Kept ct base server s) (receive_loop ct fuel server fd c s)
  unfolding receive_loop
  receive_loop-Kept zero server s xs fd c lt polite h found l = absurd (omega arith)
  receive_loop-Kept (suc fuel) server s xs fd c lt polite h found l =
      Ensures.bind (sys-Answered (Call.recv fd buffer_size) s) λ r t a.
        let q : Quiet s t = quiet a (ap live a.trace) in
        let dropped : Ensures (Kept ct base server s) (drop_client ct server fd c t) =
          Ensures.weaken (drop_client-Kept server t xs fd c polite h found (q.1 ∙ l))
            (λ server' u k. Kept-trans ct base server s server t server' u q.0 refl k) in
        Ensures.branch (not (is_negative r.value) && not (r.value == 0)) _ _ t
          (λ e. Ensures.bind (polite.on_received c (take r.value r.bytes) t) λ _ u q'.
            Ensures.weaken
              (receive_loop-Kept fuel server u xs fd c (omega (arith, q'.0, length-script a)) polite
                h found (q'.1 ∙ q.1 ∙ l))
              (λ server' v k.
                Kept-trans ct base server s server u server' v (omega (arith, q.0, q'.0)) refl k))
          (λ e.
            Ensures.branch (r.value == 0) _ _ t (λ _. dropped)
              (λ _.
                Ensures.branch (t.errno == eagain || t.errno == ewouldblock) _ _ t
                  (λ _. ends (record { owns = (xs, h, q.1 ∙ l); shorter = q.0; same = refl }))
                  (λ _. dropped)))

  pub handle_client-Kept :
      (fuel : ℕ) (server : Server Table) (s : Sys) (fd : ℕ)
      → length s.script < fuel
      → Polite server.callbacks
      → Owns ct base server s
      → Ensures (Kept ct base server s) (handle_client ct fuel server fd s)
  unfolding handle_client
  handle_client-Kept fuel server s fd lt polite (xs, h, l) =
      rw (ct.find-Shows server.client_mgr xs fd h) (elim (Option-cases (find_info xs fd)) [
        | inl e ↦ rw e (ends (record { owns = (xs, h, l); shorter = omega arith; same = refl }))
        | inr (c, e) ↦ rw e (receive_loop-Kept fuel server s xs fd c lt polite h e l)
      ])
