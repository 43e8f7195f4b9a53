-- ===== src/Epoll/Order.antt =====
-- `epoll_handler_wait`: which events the callback gets, and in which order.
use tiny_mon.Base.{
  ℕ, true, ◌≡◌, refl, ap, ◌∙◌, ◌==◌, if◌then◌else◌, some, List, [], ◌∷◌, ◌++◌, append_assoc,
  append-nil, take, arith, minus_one, is_negative,
}
use tiny_mon.Os.{Sys, Call, Reply, Event, done, pure}
use tiny_mon.Os.Ensures
use tiny_mon.Os.Ensures.{Ensures, ends, Answered, sys-Answered}
use tiny_mon.Epoll
use tiny_mon.Epoll.{Handler, Callback, dispatch}

-- A callback that writes down what it gets.
abbrev pub note : Callback (List Event)
note ptr events log = pure (log ++ (record { ptr = ptr; events = events } ∷ []))

dispatch-note : (es log : List Event) (s : Sys) → dispatch note es log s ≡ done (log ++ es) s
unfolding dispatch
dispatch-note [] log s = rw (append-nil log)
dispatch-note (e ∷ es) log s =
    dispatch-note es (log ++ (e ∷ [])) s ∙ ap (λ l. done l s) (append_assoc log (e ∷ []) es)

-- One call waits once, and then gives the callback each of the events that it got, once, in the order
-- in which they came, and as many as the call counts: none if it failed. It returns the count.
pub wait-note :
    (h : Handler) (timeout : ℕ) (log : List Event) (s : Sys)
    → Ensures
        (λ (ret, log') t.
          (r : Reply) × (t.trace ≡ (Call.epoll_wait h.epoll_fd timeout, r) ∷ s.trace)
          × (ret ≡ r.value)
          × (log' ≡ log ++ (if is_negative r.value then [] else take r.value r.ready)))
        (Epoll.wait (some h) timeout (some note) log s)
unfolding Epoll.wait
wait-note h timeout log s =
    Ensures.bind (sys-Answered (Call.epoll_wait h.epoll_fd timeout) s) λ r t a.
      Ensures.branch (r.value == minus_one) _ _ t
        (λ e.
          let failed : is_negative r.value ≡ true = ground (arith, e) in
          ends (r, a.trace, ground (arith, e), rw (failed, append-nil log)))
        (λ e.
          rw (dispatch-note (if is_negative r.value then [] else take r.value r.ready) log t)
            (ends (r, a.trace, refl, refl)))
