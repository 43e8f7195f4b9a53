-- ===== src/Socket/Laws.antt =====
-- What the wrappers of the socket calls leave in the trace.
use tiny_mon.Base.{
  ℕ, ◌≡◌, arith, false, ◌∷◌, ◌==◌, if◌then◌else◌, is_negative, minus_one, refl, ap, ◌∙◌, ◌⊎◌, inl,
  inr, Option, List,
}
use tiny_mon.Os.Descriptors.{live, closed, closed-cons}
use tiny_mon.Os.{Address, Sys, Call, Reply, sys}
use tiny_mon.Os.Ensures
use tiny_mon.Os.Ensures.{Ensures, ends, exits, sys-Answered}
use tiny_mon.Socket.{
  tcp_socket_create_server, socket_init, socket_setsockopt_reuseaddr, socket_bind_address,
  socket_listen, socket_connect, htons, inaddr_any,
}

pub socket_init-trace :
    (s : Sys)
    → Ensures
        (λ fd t.
          (r : Reply) × (t.trace ≡ (Call.socket, r) ∷ s.trace)
          × (fd ≡ (if is_negative r.value then minus_one else r.value)))
        (socket_init s)
unfolding socket_init
socket_init-trace s = Ensures.bind (sys-Answered Call.socket s) λ r t a.
    Ensures.branch (is_negative r.value) _ _ t (λ e. ends (r, a.trace, rw e))
      (λ e. ends (r, a.trace, rw e))

pub socket_connect-trace :
    (address : Address) (fd : ℕ) (s : Sys)
    → Ensures
        (λ _ t.
          (r : Reply) × (t.trace ≡ (Call.connect fd address, r) ∷ s.trace)
          × (is_negative r.value ≡ false))
        (socket_connect address fd s)
unfolding socket_connect
socket_connect-trace address fd s = Ensures.bind (sys-Answered (Call.connect fd address) s) λ r t a.
    Ensures.branch (is_negative r.value) _ _ t
      (λ e. Ensures.bind (sys-Answered (Call.close fd) t) λ r' u a'. exits refl)
      (λ e. ends (r, a.trace, e))

pub setsockopt-trace :
    (fd : ℕ) (s : Sys)
    → Ensures
        (λ _ t. (r : Reply) × (t.trace ≡ (Call.setsockopt fd, r) ∷ s.trace))
        (socket_setsockopt_reuseaddr fd s)
unfolding socket_setsockopt_reuseaddr
setsockopt-trace fd s = Ensures.bind (sys-Answered (Call.setsockopt fd) s) λ r t a.
    Ensures.branch (r.value == 0) _ _ t (λ e. ends (r, a.trace))
      (λ e. Ensures.bind (sys-Answered (Call.close fd) t) λ r' u a'. exits refl)

pub bind_address-trace :
    (port fd : ℕ) (s : Sys)
    → Ensures
        (λ _ t.
          (r : Reply) × (t.trace
            ≡ (Call.bind fd (record { ip = inaddr_any; port = htons port }), r) ∷ s.trace)
          × (is_negative r.value ≡ false))
        (socket_bind_address port fd s)
unfolding socket_bind_address
bind_address-trace port fd s = Ensures.bind (sys-Answered _ s) λ r t a.
    Ensures.branch (is_negative r.value) _ _ t
      (λ e. Ensures.bind (sys-Answered (Call.close fd) t) λ r' u a'. exits refl)
      (λ e. ends (r, a.trace, e))

pub listen-trace :
    (fd : ℕ) (s : Sys)
    → Ensures
        (λ _ t.
          (r : Reply) × (t.trace ≡ (Call.listen fd, r) ∷ s.trace) × (is_negative r.value ≡ false))
        (socket_listen fd s)
unfolding socket_listen
listen-trace fd s = Ensures.bind (sys-Answered (Call.listen fd) s) λ r t a.
    Ensures.branch (is_negative r.value) _ _ t
      (λ e. Ensures.bind (sys-Answered (Call.close fd) t) λ r' u a'. exits refl)
      (λ e. ends (r, a.trace, e))

pub socket_init-live :
    (s : Sys)
    → Ensures
        (λ fd t. live t.trace ≡ (if is_negative fd then live s.trace else fd ∷ live s.trace))
        (socket_init s)
socket_init-live s =
    Ensures.weaken (socket_init-trace s) λ fd t (r, trace, e). ap live trace ∙ ground (arith, e)

pub close-live :
    (fd : ℕ) (s : Sys)
    → Ensures (λ _ t. live t.trace ≡ closed fd (live s.trace)) (sys (Call.close fd) s)
close-live fd s = Ensures.weaken (sys-Answered (Call.close fd) s) λ r t a. ap live a.trace

-- `tcp_socket_create_server` returns a descriptor, which is then open beside those that were, or -1,
-- and then it has closed what it opened.
pub tcp_socket_create_server-live :
    (inet_pton : List ℕ → Option ℕ) (ip : Option (List ℕ)) (port : ℕ) (addr : Address) (s : Sys)
    → Ensures
        (λ fd t.
          ((fd ≡ minus_one) × (live t.trace ≡ live s.trace))
          ⊎ ((is_negative fd ≡ false) × (live t.trace ≡ fd ∷ live s.trace)))
        (tcp_socket_create_server inet_pton ip port addr s)
unfolding tcp_socket_create_server
tcp_socket_create_server-live inet_pton ip port addr s = Ensures.bind (socket_init-live s) λ fd t l.
    Ensures.branch (is_negative fd) _ _ t (λ e. ends (inl (refl, l ∙ rw e)))
      (λ e. Ensures.bind (setsockopt-trace fd t) λ _ u (_, l').
        Ensures.bind (sys-Answered _ u) λ r v a.
          let opened : live v.trace ≡ fd ∷ live s.trace = ap live a.trace ∙ ap live l' ∙ l ∙ rw e in
          Ensures.branch (is_negative r.value) _ _ v
            (λ _.
              Ensures.bind (close-live fd v)
                λ _ w l''. ends (inl (refl, l'' ∙ ap (closed fd) opened ∙ closed-cons fd _)))
            (λ _. Ensures.bind (sys-Answered (Call.listen fd) v) λ r' w b.
              let still : live w.trace ≡ fd ∷ live s.trace = ap live b.trace ∙ opened in
              Ensures.branch (is_negative r'.value) _ _ w
                (λ _.
                  Ensures.bind (close-live fd w)
                    λ _ x l''. ends (inl (refl, l'' ∙ ap (closed fd) still ∙ closed-cons fd _)))
                (λ _. ends (inr (e, still)))))
