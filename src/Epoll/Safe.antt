-- ===== src/Epoll/Safe.antt =====
-- The functions of src/internal/libepoll.c in runs whose calls are all of one kind.
use tiny_mon.Base.{
  ℕ, ◌<◌, ◌≤◌, ◌≡◌, Bool, not, ◌==◌, if◌then◌else◌, some, Option, List, [], ◌∷◌, length, take,
  arith, minus_one, is_negative,
}
use tiny_mon.Os.{Sys, Call, Reply, Event}
use tiny_mon.Os.Ensures.{Answered, length-script}
use tiny_mon.Os.Safe
use tiny_mon.Os.Safe.{Safe, ends, Since, sys-Safe}
use tiny_mon.Epoll.{Handler, create, add, remove, Callback, dispatch, wait}

-- The last call waited for events and failed.
pub record WaitFailed (t : Sys) : Type 0 where
  pub epoll_fd : ℕ
  pub answer : Reply
  pub older : List (Call × Reply)
  pub trace : t.trace ≡ (Call.epoll_wait epoll_fd minus_one, answer) ∷ older
  pub failed : answer.value ≡ minus_one

-- A handler that was created: its descriptor is the answer of the last call.
abbrev pub Opened : Option Handler → Sys → Sys → Type 0
Opened o s t =
    (h : Handler)
    → o ≡ some h
    → (r : Reply) × (t.trace ≡ (Call.epoll_create, r) ∷ s.trace)
      × (some (record { epoll_fd = r.value }) ≡ some h)

module _ {F : Type 0} {P : Call → Type 0} {base : List (Call × Reply)} where
  pub add-Safe :
      (h : Handler) (fd ptr events : ℕ) (s : Sys)
      → P (Call.epoll_add h.epoll_fd fd (record { ptr = ptr; events = events }))
      → Since P base s.trace
      → Safe F P base
          (λ _ t.
            (r : Reply) × Answered
              (Call.epoll_add h.epoll_fd fd (record { ptr = ptr; events = events }))
              s
              r
              t)
          (add (some h) fd ptr events s)
  unfolding add
  add-Safe h fd ptr events s p all = Safe.bind (sys-Safe _ s p all) λ r t all' a.
      Safe.branch (r.value == minus_one) _ _ t (λ e. ends all' (r, a)) (λ e. ends all' (r, a))

  pub remove-Safe :
      (h : Handler) (fd : ℕ) (s : Sys)
      → P (Call.epoll_del h.epoll_fd fd)
      → Since P base s.trace
      → Safe F P base
          (λ _ t. (r : Reply) × Answered (Call.epoll_del h.epoll_fd fd) s r t)
          (remove (some h) fd s)
  unfolding remove
  remove-Safe h fd s p all =
      Safe.bind (sys-Safe (Call.epoll_del h.epoll_fd fd) s p all) λ r t all' a.
        Safe.branch (r.value == minus_one) _ _ t (λ e. ends all' (r, a)) (λ e. ends all' (r, a))

  pub create-Safe :
      (memory : Bool) (s : Sys)
      → P Call.epoll_create
      → Since P base s.trace
      → Safe F P base (λ o t. Opened o s t) (create memory s)
  unfolding create
  create-Safe memory s p all =
      Safe.branch (not memory) _ _ s (λ e. ends all (λ h bad. cc))
        (λ e. Safe.bind (sys-Safe Call.epoll_create s p all) λ r t all' a.
          Safe.branch (r.value == minus_one) _ _ t (λ e'. ends all' (λ h bad. cc))
            (λ e'. ends all' (λ h same. (r, a.trace, same))))

-- A callback that makes calls of the kind only, for the events of one wait.
module _ {F U : Type 0} {P : Call → Type 0} {base : List (Call × Reply)} (callback : Callback U)
    (callback-Safe : (ptr events : ℕ) (u : U) (s : Sys)
      → Since P base s.trace
      → Safe F P base (λ _ t. length t.script ≤ length s.script) (callback ptr events u s)) where
  dispatch-Safe :
      (es : List Event) (u : U) (s : Sys)
      → Since P base s.trace
      → Safe F P base (λ _ t. length t.script ≤ length s.script) (dispatch callback es u s)
  unfolding dispatch
  dispatch-Safe [] u s all = ends all (omega arith)
  dispatch-Safe (e ∷ es) u s all =
      Safe.bind (callback-Safe e.ptr e.events u s all)
        λ u' t all' fits. Safe.weaken (dispatch-Safe es u' t all') (λ _ v fits'. omega arith)

  pub wait-Safe :
      (h : Handler) (u : U) (s : Sys)
      → P (Call.epoll_wait h.epoll_fd minus_one)
      → Since P base s.trace
      → Safe F P base
          (λ (ret, _) t. (ret ≡ minus_one → WaitFailed t) × (length t.script < length s.script))
          (wait (some h) minus_one (some callback) u s)
  unfolding wait
  wait-Safe h u s p all =
      Safe.bind (sys-Safe (Call.epoll_wait h.epoll_fd minus_one) s p all) λ r t all' a.
        Safe.branch (r.value == minus_one) _ _ t
          (λ e. ends all' (
            λ _. record {
              epoll_fd = h.epoll_fd;
              answer = r;
              older = s.trace;
              trace = a.trace;
              failed = ground (arith, e);
            },
            omega (arith, length-script a),
          ))
          (λ e.
            Safe.bind
              (dispatch-Safe (if is_negative r.value then [] else take r.value r.ready) u t all')
              λ u' v all'' fits.
                ends all''
                  (λ bad. absurd (ground (arith, e, bad)), omega (arith, fits, length-script a)))
