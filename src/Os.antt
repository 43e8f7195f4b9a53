-- ===== src/Os.antt =====
-- The operating system as the code under src/internal sees it: each call is answered by the next
-- reply of a script that the environment has written, and is added to a trace. A call with no
-- reply left waits, as a blocking call does. Replies are arbitrary; what the documentation of a
-- call promises is a hypothesis where it is needed.
pub mod Descriptors
pub mod Endless
pub mod Ensures
pub mod Holds
pub mod Fresh
pub mod Safe
use tiny_mon.Base.{ℕ, List, [], ◌∷◌, Option, none, some, ◌==◌, if◌then◌else◌, minus_one}

-- `struct sockaddr_in`, its family aside.
pub record Address : Type 0 where
  pub ip : ℕ
  pub port : ℕ

-- `struct epoll_event`: the pointer that was registered with the descriptor, and the event mask.
pub record Event : Type 0 where
  pub ptr : ℕ
  pub events : ℕ

pub data Call : Type 0 where
  socket : Call
  setsockopt : (fd : ℕ) → Call
  bind : (fd : ℕ) → Address → Call
  listen : (fd : ℕ) → Call
  accept : (fd : ℕ) → Call
  connect : (fd : ℕ) → Address → Call
  close : (fd : ℕ) → Call
  getfl : (fd : ℕ) → Call
  setfl : (fd flags : ℕ) → Call
  epoll_create : Call
  epoll_add : (epoll_fd fd : ℕ) → Event → Call
  epoll_del : (epoll_fd fd : ℕ) → Call
  epoll_wait : (epoll_fd timeout : ℕ) → Call
  recv : (fd size : ℕ) → Call
  send : (fd : ℕ) → List ℕ → Call
  read : (fd size : ℕ) → Call
  write : (fd : ℕ) → List ℕ → Call
  fork : Call

-- `value` is what the call returns; the other fields are what it stores.
pub record Reply : Type 0 where
  pub value : ℕ
  pub errno : ℕ
  pub peer : Address
  pub bytes : List ℕ
  pub ready : List Event

-- `running` is the field of the server that a callback can reach. The trace is newest first.
pub record Sys : Type 0 where
  pub script : List Reply
  pub trace : List (Call × Reply)
  pub errno : ℕ
  pub running : ℕ

pub data Run (A : Type 0) : Type 0 where
  done : A → Sys → Run A
  waiting : Sys → Run A
  exited : (code : ℕ) → Sys → Run A
  fault : Run A
  out_of_fuel : Run A

abbrev pub Cmd : Type 0 → Type 0
Cmd A = Sys → Run A

abbrev pub pure : {A : Type 0} → A → Cmd A
pure = done

module _ {A B : Type 0} where
  abbrev pub continue : Run A → (A → Cmd B) → Run B
  continue (done a s) k = k a s
  continue (waiting s) k = waiting s
  continue (exited code s) k = exited code s
  continue fault k = fault
  continue out_of_fuel k = out_of_fuel

  infixl 5 ◌>>=◌ ◌>>◌
  abbrev pub ◌>>=◌ : Cmd A → (A → Cmd B) → Cmd B
  m >>= k = λ s. continue (m s) k

  abbrev pub ◌>>◌ : Cmd A → Cmd B → Cmd B
  m >> n = m >>= λ _. n

-- The state behind a call that was answered by `r`, with the replies `rest` left.
unfoldable pub answered : Call → Sys → Reply → List Reply → Sys
answered c s r rest = record s {
  script = rest;
  trace = (c, r) ∷ s.trace;
  errno = if r.value == minus_one then r.errno else s.errno;
}

take_reply : Call → Sys → List Reply → Run Reply
take_reply c s [] = waiting s
take_reply c s (r ∷ rest) = done r (answered c s r rest)

unfoldable pub sys : Call → Cmd Reply
unfolding take_reply
sys c s = take_reply c s s.script

-- `exit(code)`.
abbrev pub exit : {A : Type 0} → ℕ → Cmd A
exit code = exited code

abbrev pub get_errno : Cmd ℕ
get_errno s = done s.errno s

abbrev pub set_running : ℕ → Cmd (Unit {0})
set_running r s = done tt (record s { running = r })

abbrev pub get_running : Cmd ℕ
get_running s = done s.running s

-- Error numbers of Linux, where `EWOULDBLOCK` is `EAGAIN`.
abbrev pub eintr : ℕ
eintr = 4

abbrev pub eagain : ℕ
eagain = 11

abbrev pub ewouldblock : ℕ
ewouldblock = 11
