-- ===== src/Epoll.antt =====
-- src/internal/libepoll.c. A handler is its descriptor: the array of events is what the last reply
-- of `epoll_wait` stored. `none` is the null pointer, and `memory` says whether `calloc` succeeds.
pub mod Order
pub mod Safe
use tiny_mon.Base.{
  ℕ, List, [], ◌∷◌, Option, none, some, Bool, not, ◌==◌, if◌then◌else◌, take, minus_one,
  is_negative,
}
use tiny_mon.Os.{Cmd, Event, Call, sys, pure, ◌>>=◌, ◌>>◌}

pub record Handler : Type 0 where
  pub epoll_fd : ℕ

unfoldable pub create : (memory : Bool) → Cmd (Option Handler)
create memory = if not memory then pure none else do
  r ← sys Call.epoll_create
  if r.value == minus_one then pure none else pure (some (record { epoll_fd = r.value }))

unfoldable pub destroy : Option Handler → Cmd (Unit {0})
destroy none = pure tt
destroy (some h) =
    if h.epoll_fd == minus_one then pure tt else (do sys (Call.close h.epoll_fd); pure tt)

unfoldable pub add : Option Handler → (fd ptr events : ℕ) → Cmd ℕ
add none fd ptr events = pure minus_one
add (some h) fd ptr events = do
  r ← sys (Call.epoll_add h.epoll_fd fd (record { ptr = ptr; events = events }))
  if r.value == minus_one then pure minus_one else pure 0

unfoldable pub remove : Option Handler → (fd : ℕ) → Cmd ℕ
remove none fd = pure minus_one
remove (some h) fd = do
  r ← sys (Call.epoll_del h.epoll_fd fd)
  if r.value == minus_one then pure minus_one else pure 0

-- A callback works on what `user_data` points to, and leaves its new value.
abbrev pub Callback : Type 0 → Type 0
Callback U = (ptr events : ℕ) → U → Cmd U

module _ {U : Type 0} where
  unfoldable pub dispatch : Callback U → List Event → U → Cmd U
  dispatch callback [] u = pure u
  dispatch callback (e ∷ es) u = callback e.ptr e.events u >>= dispatch callback es

  unfoldable pub wait :
      Option Handler → (timeout : ℕ) → Option (Callback U) → (user_data : U) → Cmd (ℕ × U)
  unfolding dispatch
  wait none timeout callback u = pure (minus_one, u)
  wait (some h) timeout none u = pure (minus_one, u)
  wait (some h) timeout (some callback) u = do
    r ← sys (Call.epoll_wait h.epoll_fd timeout)
    if r.value == minus_one then pure (minus_one, u) else (do
      u' ← dispatch callback (if is_negative r.value then [] else take r.value r.ready) u
      pure (r.value, u'))

abbrev pub get_fd : Option Handler → ℕ
get_fd none = minus_one
get_fd (some h) = h.epoll_fd
