-- ===== src/Comm/Forking.antt =====
-- `socket_connect_with_client`: the descriptors of the forking server.
use tiny_mon.Base.{
  ℕ, zero, suc, ◌+◌, ◌<◌, ◌≡◌, ◌⊎◌, inl, inr, refl, ap, subst, ◌∙◌, ==_ne, true, ◌==◌, List, [],
  ◌∷◌, length, arith, is_negative, minus_one,
}
use tiny_mon.Os.{Sys, Call, Reply, Run, continue, sys}
use tiny_mon.Os.Endless
use tiny_mon.Os.Endless.{Endless, exits, sys-Endless}
use tiny_mon.Os.Descriptors.{live, closed, closed-cons}
use tiny_mon.Os.Ensures.{Answered, length-script}
use tiny_mon.Comm.{connect_loop, socket_connect_with_client}

-- What a server holds: what was open before, and at most one accepted connection.
abbrev pub HoldsOne : List ℕ → Sys → Type 0
HoldsOne base t = (live t.trace ≡ base) ⊎ ((fd : ℕ) × (live t.trace ≡ fd ∷ base))

-- The child has the connection open, but not the listening socket, and gives the code 1.
abbrev pub ChildEnds : ℕ → List ℕ → ℕ → Sys → Type 0
ChildEnds server_fd base code t =
    (code ≡ 1) × (fd : ℕ) × (live t.trace ≡ closed server_fd (fd ∷ base))

-- Of the negative numbers the calls return -1 alone.
abbrev pub MinusOne : List Reply → Type 0
MinusOne [] = Unit {0}
MinusOne (r ∷ rs) = (is_negative r.value ≡ true → r.value ≡ minus_one) × MinusOne rs

MinusOne-rest :
    {c : Call} (s t : Sys) {r : Reply}
    → Answered c s r t
    → MinusOne s.script
    → (is_negative r.value ≡ true → r.value ≡ minus_one) × MinusOne t.script
MinusOne-rest s t a m = subst MinusOne a.script m

module _ (server_fd : ℕ) (base : List ℕ) where
  abbrev Served : Run (Unit {0}) → Type 0
  Served = Endless (HoldsOne base) (ChildEnds server_fd base)

  -- The parent closes the connection and goes on.
  hand_over :
      (fuel fd : ℕ) (u : Sys)
      → ((v : Sys)
          → length v.script < fuel
          → MinusOne v.script
          → live v.trace ≡ base
          → Served (connect_loop fuel server_fd v))
      → length u.script < fuel
      → MinusOne u.script
      → live u.trace ≡ fd ∷ base
      → Served (continue (sys (Call.close fd) u) (λ _. connect_loop fuel server_fd))
  hand_over fuel fd u next lt m l = sys-Endless (Call.close fd) u _ (inr (fd, l)) λ c v d.
      next v (omega (arith, length-script d)) (MinusOne-rest u v d m).1
        (ap live d.trace ∙ ap (closed fd) l ∙ closed-cons fd base)

  connect_loop-HoldsOne :
      (fuel : ℕ) (s : Sys)
      → length s.script < fuel
      → MinusOne s.script
      → live s.trace ≡ base
      → Served (connect_loop fuel server_fd s)
  unfolding connect_loop
  connect_loop-HoldsOne zero s lt m l = absurd (omega arith)
  connect_loop-HoldsOne (suc fuel) s lt m l =
      sys-Endless (Call.accept server_fd) s _ (inl l) λ r t a.
        let (failed, m') = MinusOne-rest s t a m in
        Endless.branch (is_negative r.value) _ _ t
          (λ e.
            connect_loop-HoldsOne fuel t (omega (arith, length-script a)) m'
              (ap live a.trace ∙ rw (failed e) l))
          (λ e.
            let opened : live t.trace ≡ r.value ∷ base =
              ap live a.trace ∙ rw (==_ne r.value minus_one (ground (arith, e)), l) in
            sys-Endless Call.fork t _ (inr (r.value, opened)) λ pid u b.
              let m'' = (MinusOne-rest t u b m').1 in
              let l' : live u.trace ≡ r.value ∷ base = ap live b.trace ∙ opened in
              let lt' : length u.script < fuel = omega (arith, length-script a, length-script b) in
              Endless.branch (is_negative pid.value) _ _ u
                (λ e'. hand_over fuel r.value u (connect_loop-HoldsOne fuel) lt' m'' l')
                (λ e'.
                  Endless.branch (pid.value == 0) _ _ u
                    (λ e''.
                      sys-Endless (Call.close server_fd) u _ (inr (r.value, l'))
                        λ c v d. exits (refl, r.value, ap live d.trace ∙ ap (closed server_fd) l'))
                    (λ e''. hand_over fuel r.value u (connect_loop-HoldsOne fuel) lt' m'' l')))

-- The forking server never returns, as long as the calls return no negative number but -1: it waits
-- with what was open before and at most one accepted connection, or it is a child that has closed the
-- listening socket and exits with the code 1.
pub socket_connect_with_client-HoldsOne :
    (server_fd : ℕ) (s : Sys)
    → MinusOne s.script
    → Endless
        (HoldsOne (live s.trace))
        (ChildEnds server_fd (live s.trace))
        (socket_connect_with_client server_fd s)
unfolding socket_connect_with_client
socket_connect_with_client-HoldsOne server_fd s m =
    connect_loop-HoldsOne server_fd (live s.trace) (length s.script + 1) s (omega arith) m refl
