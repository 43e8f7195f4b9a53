-- ===== src/Server/Lasting.antt =====
-- The handlers of src/internal/libsocket.c on a server that was stopped: callbacks that do not start
-- it again leave it stopped, and no handler changes anything of the server but its table.
use tiny_mon.Base.{
  ℕ, zero, suc, ◌%◌, ◌≡◌, refl, ap, sym, subst, ◌∙◌, not, ◌&&◌, ◌||◌, ◌==◌, Bool-cases,
  Option-cases, inl, inr, Option, none, some, List, [], ◌∷◌, minus_one, is_negative, take,
}
use tiny_mon.Os.{Sys, Call, Address, Event, eagain, ewouldblock}
use tiny_mon.Os.Holds
use tiny_mon.Os.Holds.{Anything, Holds, ends, faults, starves, sys-Holds}
use tiny_mon.Epoll.{dispatch}
use tiny_mon.Clients.{Info}
use tiny_mon.Clients.Table.{ClientTable}
use tiny_mon.Server.{
  Server, rounds, buffer_size, register, entered, enter, admit, handle_accept, drop_client,
  receive_loop, handle_client, epoll_event_callback,
}
use tiny_mon.Server.Still.{
  Still, Lasting, sys-Still, add-Still, remove-Still, set_nonblocking-Still, accept-Still,
  lift-Still,
}

module _ (ct : ClientTable) where
  open ct use {Table}

  -- What a handler leaves of a server.
  pub record Lasts (server : Server Table) (s : Sys) (server' : Server Table) (t : Sys)
      : Type 0 where
    pub same : server' ≡ record server { client_mgr = server'.client_mgr }
    pub still : Still s t

  pub Lasting-same :
      (server server' : Server Table)
      → server' ≡ record server { client_mgr = server'.client_mgr }
      → Lasting server.callbacks
      → Lasting server'.callbacks
  Lasting-same server server' same lasting =
      subst Lasting (sym (ap {A = Server Table} (λ x. x.callbacks) same)) lasting

  pub Lasts-trans :
      (server : Server Table) (s : Sys) (server' : Server Table) (t : Sys) (server'' : Server Table)
      (u : Sys)
      → server' ≡ record server { client_mgr = server'.client_mgr }
      → Still s t
      → Lasts server' t server'' u
      → Lasts server s server'' u
  Lasts-trans server s server' t server'' u same still k = record {
    same = k.same ∙ ap {A = Server Table} (λ x. record x { client_mgr = server''.client_mgr }) same;
    still = λ e. k.still (still e);
  }

  register-Lasts :
      (server : Server Table) (s : Sys) (fd : ℕ) (client : Info)
      → Lasting server.callbacks
      → Holds Anything (Lasts server s) (register ct server fd client s)
  unfolding register
  register-Lasts server s fd client lasting = Holds.bind (add-Still server.epoll fd _ _ s) λ r t q.
      Holds.branch (r == minus_one) _ _ t
        (λ e. Holds.bind (lift-Still (ct.remove server.client_mgr fd) t) λ mgr u q'.
          Holds.bind (sys-Still _ u)
            λ r' v q''. ends (record { same = refl; still = λ e'. q'' (q' (q e')) }))
        (λ e.
          Holds.bind (lasting.on_connection client t)
            λ _ u q'. ends (record { same = refl; still = λ e'. q' (q e') }))

  entered-Lasts :
      (server : Server Table) (s : Sys) (fd : ℕ) (added : Option Info × Table)
      → Lasting server.callbacks
      → Holds Anything (Lasts server s) (entered ct server fd added s)
  unfolding entered
  entered-Lasts server s fd (none, mgr) lasting =
      Holds.bind (sys-Still _ s) λ r t q. ends (record { same = refl; still = q })
  entered-Lasts server s fd (some client, mgr) lasting =
      Holds.weaken (register-Lasts (record server { client_mgr = mgr }) s fd client lasting)
        (λ server' t k.
          Lasts-trans server s (record server { client_mgr = mgr }) s server' t refl (λ e. e) k)

  admit-Lasts :
      (server : Server Table) (s : Sys) (fd : ℕ) (addr : Address)
      → Lasting server.callbacks
      → Holds Anything (Lasts server s) (admit ct server fd addr s)
  unfolding admit enter
  admit-Lasts server s fd addr lasting = Holds.bind (set_nonblocking-Still fd s) λ r t q.
      Holds.branch (r == minus_one) _ _ t
        (λ e.
          Holds.bind (sys-Still _ t)
            λ r' u q'. ends (record { same = refl; still = λ e'. q' (q e') }))
        (λ e.
          Holds.weaken (entered-Lasts server t fd (ct.add server.client_mgr fd addr) lasting)
            (λ server' u k. Lasts-trans server s server t server' u refl q k))

  handle_accept-Lasts :
      (fuel : ℕ) (server : Server Table) (s : Sys)
      → Lasting server.callbacks
      → Holds Anything (Lasts server s) (handle_accept ct fuel server s)
  unfolding handle_accept
  handle_accept-Lasts zero server s lasting = starves
  handle_accept-Lasts (suc fuel) server s lasting =
      Holds.bind (accept-Still server.listen_fd s) λ (fd, addr) t q.
        Holds.branch (fd == minus_one) _ _ t
          (λ e.
            Holds.branch (t.errno == eagain || t.errno == ewouldblock) _ _ t
              (λ _. ends (record { same = refl; still = q }))
              (λ _. ends (record { same = refl; still = q })))
          (λ e. Holds.bind (admit-Lasts server t fd addr lasting) λ server' u k.
            Holds.weaken
              (handle_accept-Lasts fuel server' u (Lasting-same server server' k.same lasting))
              (λ server'' v k'.
                Lasts-trans server s server' u server'' v k.same (λ e'. k.still (q e')) k'))

  drop_client-Lasts :
      (server : Server Table) (s : Sys) (fd : ℕ) (c : Info)
      → Lasting server.callbacks
      → Holds Anything (Lasts server s) (drop_client ct server fd c s)
  unfolding drop_client
  drop_client-Lasts server s fd c lasting = Holds.bind (lasting.on_disconnected c s) λ _ t q.
      Holds.bind (remove-Still server.epoll fd t) λ r u q'. Holds.bind (sys-Still _ u) λ r' v q''.
        Holds.bind (lift-Still (ct.remove server.client_mgr fd) v)
          λ mgr w q3. ends (record { same = refl; still = λ e. q3 (q'' (q' (q e))) })

  receive_loop-Lasts :
      (fuel : ℕ) (server : Server Table) (s : Sys) (fd : ℕ) (c : Info)
      → Lasting server.callbacks
      → Holds Anything (Lasts server s) (receive_loop ct fuel server fd c s)
  unfolding receive_loop
  receive_loop-Lasts zero server s fd c lasting = starves
  receive_loop-Lasts (suc fuel) server s fd c lasting =
      Holds.bind (sys-Still (Call.recv fd buffer_size) s) λ r t q.
        let dropped : Holds Anything (Lasts server s) (drop_client ct server fd c t) =
          Holds.weaken (drop_client-Lasts server t fd c lasting)
            (λ server' u k. Lasts-trans server s server t server' u refl q k) in
        Holds.branch (not (is_negative r.value) && not (r.value == 0)) _ _ t
          (λ e. Holds.bind (lasting.on_received c (take r.value r.bytes) t) λ _ u q'.
            Holds.weaken (receive_loop-Lasts fuel server u fd c lasting)
              (λ server' v k. Lasts-trans server s server u server' v refl (λ e'. q' (q e')) k))
          (λ e.
            Holds.branch (r.value == 0) _ _ t (λ _. dropped)
              (λ _.
                Holds.branch (t.errno == eagain || t.errno == ewouldblock) _ _ t
                  (λ _. ends (record { same = refl; still = q })) (λ _. dropped)))

  handle_client-Lasts :
      (fuel : ℕ) (server : Server Table) (s : Sys) (fd : ℕ)
      → Lasting server.callbacks
      → Holds Anything (Lasts server s) (handle_client ct fuel server fd s)
  unfolding handle_client
  handle_client-Lasts fuel server s fd lasting =
      Holds.bind (lift-Still (ct.find server.client_mgr fd) s) λ client t q.
        elim (Option-cases client) [
          | inl e ↦ rw e (ends (record { same = refl; still = q }))
          | inr (c, e) ↦ rw e (
              Holds.weaken (receive_loop-Lasts fuel server t fd c lasting)
                (λ server' u k. Lasts-trans server s server t server' u refl q k))
        ]

  callback-Lasts :
      (ptr events : ℕ) (server : Server Table) (s : Sys)
      → Lasting server.callbacks
      → Holds Anything (Lasts server s) (epoll_event_callback ct ptr events server s)
  unfolding epoll_event_callback
  callback-Lasts ptr events server s lasting =
      elim (Bool-cases (ptr % 0x1_0000_0000 == server.listen_fd)) [
        | inl e ↦ rw e (handle_accept-Lasts (rounds ct s) server s lasting)
        | inr e ↦ rw e (handle_client-Lasts (rounds ct s) server s _ lasting)
      ]

  pub dispatch-Lasts :
      (ready : List Event) (server : Server Table) (s : Sys)
      → Lasting server.callbacks
      → Holds Anything (Lasts server s) (dispatch (epoll_event_callback ct) ready server s)
  unfolding dispatch
  dispatch-Lasts [] server s lasting = ends (record { same = refl; still = λ e. e })
  dispatch-Lasts (e ∷ es) server s lasting =
      Holds.bind (callback-Lasts e.ptr e.events server s lasting) λ server' t k.
        Holds.weaken (dispatch-Lasts es server' t (Lasting-same server server' k.same lasting))
          (λ server'' u k'. Lasts-trans server s server' t server'' u k.same k.still k')
