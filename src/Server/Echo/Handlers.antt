-- ===== src/Server/Echo/Handlers.antt =====
-- The handlers of the server that sends back.
use tiny_mon.Base.{
  ℕ, zero, suc, ◌≡◌, refl, ap, sym, subst, ◌∙◌, inl, inr, true, ◌||◌, ◌==◌, Option-cases, some,
  List, [], ◌∷◌, take, minus_one, arith,
}
use tiny_mon.Os.{Sys, Address, Call, Reply, eagain, ewouldblock}
use tiny_mon.Os.Holds
use tiny_mon.Os.Holds.{Holds, sys-Holds}
use tiny_mon.Clients.{Info, new_info}
use tiny_mon.Clients.Table.{ClientTable, find_info, erase_info}
use tiny_mon.Server.{
  Server, call_received, buffer_size, register, entered, enter, admit, handle_accept, drop_client,
  receive_loop, handle_client,
}
use tiny_mon.Server.Echo.{
  has_text, Echoes, EchoesSoFar, Echoing, add-Keeps, remove-Keeps, set_nonblocking-Keeps,
  accept-Keeps, close-Keeps, send_back-Echoes,
}

find_info-fd : (xs : List Info) (fd : ℕ) (c : Info) → find_info xs fd ≡ some c → c.fd ≡ fd
unfolding find_info
find_info-fd [] fd c e = cc
find_info-fd (i ∷ xs) fd c e = ground (arith, find_info-fd xs fd c)

module _ (ct : ClientTable) (old : List (Call × Reply)) where
  open ct use {Table, Shows}

  -- What a handler leaves.
  pub record Led (server : Server Table) (server' : Server Table) (t : Sys) : Type 0 where
    pub shows : (xs : List Info) × Shows server'.client_mgr xs
    pub same : server' ≡ record server { client_mgr = server'.client_mgr }
    pub echoes : Echoes old t.trace

  pub Echoing-same :
      (server server' : Server Table)
      → server' ≡ record server { client_mgr = server'.client_mgr }
      → Echoing old server.callbacks
      → Echoing old server'.callbacks
  Echoing-same server server' same echoing =
      subst (Echoing old) (sym (ap {A = Server Table} (λ x. x.callbacks) same)) echoing

  pub Led-trans :
      (server server' server'' : Server Table) (u : Sys)
      → server' ≡ record server { client_mgr = server'.client_mgr }
      → Led server' server'' u
      → Led server server'' u
  Led-trans server server' server'' u same l = record {
    shows = l.shows;
    same = l.same ∙ ap {A = Server Table} (λ x. record x { client_mgr = server''.client_mgr }) same;
    echoes = l.echoes;
  }

  register-Led :
      (server : Server Table) (s : Sys) (xs : List Info) (fd : ℕ) (client : Info)
      → Echoing old server.callbacks
      → Shows server.client_mgr xs
      → Echoes old s.trace
      → Holds (EchoesSoFar old) (Led server) (register ct server fd client s)
  unfolding register
  register-Led server s xs fd client echoing h e =
      Holds.bind (add-Keeps server.epoll fd _ _ s e) λ r t e'.
        Holds.branch (r == minus_one) _ _ t
          (λ _.
            let (mgr, step, h') = ct.remove-Shows server.client_mgr xs fd h in
            rw step (
              Holds.bind (close-Keeps fd t e') λ r' u e''.
                Holds.ends (record { shows = (erase_info xs fd, h'); same = refl; echoes = e'' })))
          (λ _.
            Holds.bind (echoing.on_connection client t e')
              λ _ u e''. Holds.ends (record { shows = (xs, h); same = refl; echoes = e'' }))

  enter-Led :
      (server : Server Table) (s : Sys) (xs : List Info) (fd : ℕ) (addr : Address)
      → Echoing old server.callbacks
      → Shows server.client_mgr xs
      → Echoes old s.trace
      → Holds (EchoesSoFar old) (Led server) (enter ct server fd addr s)
  unfolding enter entered
  enter-Led server s xs fd addr echoing h e = elim (ct.add-Shows server.client_mgr xs fd addr h) [
    | inl (full, step) ↦ rw step (
        Holds.bind (close-Keeps fd s e)
          λ r t e'. Holds.ends (record { shows = (xs, h); same = refl; echoes = e' }))
    | inr (mgr, step, h') ↦ rw step (
        Holds.weaken
          (register-Led (record server { client_mgr = mgr }) s (new_info fd addr ∷ xs) fd
            (new_info fd addr) echoing h' e)
          (λ server' t l. Led-trans server (record server { client_mgr = mgr }) server' t refl l))
  ]

  admit-Led :
      (server : Server Table) (s : Sys) (xs : List Info) (fd : ℕ) (addr : Address)
      → Echoing old server.callbacks
      → Shows server.client_mgr xs
      → Echoes old s.trace
      → Holds (EchoesSoFar old) (Led server) (admit ct server fd addr s)
  unfolding admit
  admit-Led server s xs fd addr echoing h e = Holds.bind (set_nonblocking-Keeps fd s e) λ r t e'.
      Holds.branch (r == minus_one) _ _ t
        (λ _.
          Holds.bind (close-Keeps fd t e')
            λ r' u e''. Holds.ends (record { shows = (xs, h); same = refl; echoes = e'' }))
        (λ _. enter-Led server t xs fd addr echoing h e')

  pub handle_accept-Led :
      (fuel : ℕ) (server : Server Table) (s : Sys) (xs : List Info)
      → Echoing old server.callbacks
      → Shows server.client_mgr xs
      → Echoes old s.trace
      → Holds (EchoesSoFar old) (Led server) (handle_accept ct fuel server s)
  unfolding handle_accept
  handle_accept-Led zero server s xs echoing h e = Holds.starves
  handle_accept-Led (suc fuel) server s xs echoing h e =
      Holds.bind (accept-Keeps server.listen_fd s e) λ (fd, addr) t e'.
        let kept : Led server server t = record { shows = (xs, h); same = refl; echoes = e' } in
        Holds.branch (fd == minus_one) _ _ t
          (λ _.
            Holds.branch (t.errno == eagain || t.errno == ewouldblock) _ _ t (λ _. Holds.ends kept)
              (λ _. Holds.ends kept))
          (λ _. Holds.bind (admit-Led server t xs fd addr echoing h e') λ server' u l.
            Holds.weaken
              (handle_accept-Led fuel server' u l.shows.0
                (Echoing-same server server' l.same echoing) l.shows.1 l.echoes)
              (λ server'' v l'. Led-trans server server' server'' v l.same l'))

  drop_client-Led :
      (server : Server Table) (s : Sys) (xs : List Info) (fd : ℕ) (c : Info)
      → Echoing old server.callbacks
      → Shows server.client_mgr xs
      → Echoes old s.trace
      → Holds (EchoesSoFar old) (Led server) (drop_client ct server fd c s)
  unfolding drop_client
  drop_client-Led server s xs fd c echoing h e =
      Holds.bind (echoing.on_disconnected c s e) λ _ t e1.
        Holds.bind (remove-Keeps server.epoll fd t e1) λ r u e2.
          Holds.bind (close-Keeps fd u e2) λ r' v e3.
            let (mgr, step, h') = ct.remove-Shows server.client_mgr xs fd h in
            rw step
              (Holds.ends (record { shows = (erase_info xs fd, h'); same = refl; echoes = e3 }))

  received-Echoes :
      (server : Server Table) (client : Info) (fd : ℕ) (r : Reply) (trace : List (Call × Reply))
      (s : Sys)
      → Echoing old server.callbacks
      → client.fd ≡ fd
      → s.trace ≡ (Call.recv fd buffer_size, r) ∷ trace
      → has_text r ≡ true
      → Echoes old trace
      → Holds
          (EchoesSoFar old)
          (λ _ t. Echoes old t.trace)
          (call_received server.callbacks.on_received client (take r.value r.bytes) s)
  received-Echoes server client fd r trace s echoing same at text e =
      subst
        (λ f.
          Holds (EchoesSoFar old) (λ _ t. Echoes old t.trace)
            (call_received f client (take r.value r.bytes) s))
        (sym echoing.on_received)
        (send_back-Echoes client r trace s
          (at ∙ ap (λ (n : ℕ). (Call.recv n buffer_size, r) ∷ trace) (sym same)) text e)

  receive_loop-Led :
      (fuel : ℕ) (server : Server Table) (s : Sys) (xs : List Info) (fd : ℕ) (c : Info)
      → Echoing old server.callbacks
      → Shows server.client_mgr xs
      → c.fd ≡ fd
      → Echoes old s.trace
      → Holds (EchoesSoFar old) (Led server) (receive_loop ct fuel server fd c s)
  unfolding receive_loop
  receive_loop-Led zero server s xs fd c echoing h same e = Holds.starves
  receive_loop-Led (suc fuel) server s xs fd c echoing h same e =
      Holds.bind (sys-Holds (Call.recv fd buffer_size) s (inl e)) λ r t a.
        Holds.branch (has_text r) _ _ t
          (λ text.
            Holds.bind (received-Echoes server c fd r s.trace t echoing same a.trace text e)
              λ _ u e'. receive_loop-Led fuel server u xs fd c echoing h same e')
          (λ silent.
            let e' : Echoes old t.trace = rw a.trace (Echoes.plain silent e) in
            Holds.branch (r.value == 0) _ _ t (λ _. drop_client-Led server t xs fd c echoing h e')
              (λ _.
                Holds.branch (t.errno == eagain || t.errno == ewouldblock) _ _ t
                  (λ _. Holds.ends (record { shows = (xs, h); same = refl; echoes = e' }))
                  (λ _. drop_client-Led server t xs fd c echoing h e')))

  pub handle_client-Led :
      (fuel : ℕ) (server : Server Table) (s : Sys) (xs : List Info) (fd : ℕ)
      → Echoing old server.callbacks
      → Shows server.client_mgr xs
      → Echoes old s.trace
      → Holds (EchoesSoFar old) (Led server) (handle_client ct fuel server fd s)
  unfolding handle_client
  handle_client-Led fuel server s xs fd echoing h e =
      rw (ct.find-Shows server.client_mgr xs fd h) (elim (Option-cases (find_info xs fd)) [
        | inl absent ↦ rw absent (Holds.ends (record { shows = (xs, h); same = refl; echoes = e }))
        | inr (c, found) ↦
            rw found
              (receive_loop-Led fuel server s xs fd c echoing h (find_info-fd xs fd c found) e)
      ])
