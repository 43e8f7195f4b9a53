-- ===== src/Os/Descriptors.antt =====
-- The descriptors that a trace leaves open, the newest first.
use tiny_mon.Base.{ℕ, ◌≡◌, arith, List, [], ◌∷◌, ◌==◌, if◌then◌else◌, minus_one, is_negative}
use tiny_mon.Os.{Call, Reply}

-- `close` gives up one descriptor.
unfoldable pub closed : ℕ → List ℕ → List ℕ
closed fd [] = []
closed fd (d ∷ ds) = if d == fd then ds else d ∷ closed fd ds

pub closed-cons : (fd : ℕ) (ds : List ℕ) → closed fd (fd ∷ ds) ≡ ds
unfolding closed
closed-cons fd ds = ground arith

-- What a call with its reply makes of the open descriptors.
abbrev pub live_after : Call → Reply → List ℕ → List ℕ
live_after Call.socket r ds = if is_negative r.value then ds else r.value ∷ ds
live_after (Call.accept fd) r ds = if r.value == minus_one then ds else r.value ∷ ds
live_after Call.epoll_create r ds = if r.value == minus_one then ds else r.value ∷ ds
live_after (Call.close fd) r ds = closed fd ds
live_after c r ds = ds

abbrev pub live : List (Call × Reply) → List ℕ
live [] = []
live ((c, r) ∷ trace) = live_after c r (live trace)
