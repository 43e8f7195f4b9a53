-- ===== src/Log/Tests.antt =====
-- Calls of the logger, from its state at the start of the program.
use tiny_mon.Base.{ℕ, ◌≡◌, ◌≢◌, refl, true, List, [], ◌∷◌, none, some, replicate, arith}
use tiny_mon.Log.{World, Line, log_info}
use tiny_mon.Log.Grows.{Op, steps, Grows, steps-Grows}
use tiny_mon.Log.Marks.{Marked, steps-Marked}
use tiny_mon.Log.Threads.{
  Call, State, Reach, later, admitted, locks, moves, unlocks, console_on, console_format,
  console_end, file_missing, update,
}
use tiny_mon.Log.Atomic.{passing, Reach-Atomic}
use tiny_mon.Log.Progress.{Frees, Reach-Frees}

-- `g_logger`, and the same logger after `logger_enable_console(0)`.
abbrev start : World
start = record {
  logger = record {
    file = none;
    level = log_info;
    console_output = 1;
    file_output = 1;
    filename = replicate 256 0;
  };
  content = λ name. none;
  stderr = [];
}

abbrev name : List ℕ
name = b'q' ∷ b'.' ∷ b'l' ∷ b'o' ∷ b'g' ∷ []

abbrev line : Line
line = record {
  console_head = b'[' ∷ [];
  file_head = b'[' ∷ [];
  text = b'h' ∷ b'i' ∷ [];
  used_up = b'?' ∷ [];
}

abbrev calls : List Op
calls =
    Op.init true [] (some name) log_info
    ∷ Op.write 1 line
    ∷ Op.close
    ∷ Op.init true [] (some name) log_info
    ∷ Op.write 3 line
    ∷ []

start-Marked : Marked start
start-Marked = record { files = λ name bytes e. cc; opened = λ name e. cc }

steps-Marked_example : Marked (steps calls start)
steps-Marked_example = steps-Marked calls start start-Marked

steps-Grows_example : Grows start (steps calls start)
steps-Grows_example = steps-Grows calls start

on : start.logger.console_output ≢ 0
on e = omega arith

-- Thread 0 has written its line, while thread 1 has passed the test of its level and waits.
two_threads : (s : State) × Reach start s × (s.owner ≡ none)
unfolding update
two_threads =
    let c : Call = record { level = 1; line = line } in
    let waits =
      later (later Reach.start (admitted 0 c refl (omega arith)))
        (admitted 1 c refl (omega arith)) in
    let holds = later waits (locks 0 c refl refl) in
    let head = later holds (moves 0 (console_on on)) in
    let text = later head (moves 0 console_format) in
    let console = later text (moves 0 console_end) in
    let file = later console (moves 0 (file_missing refl)) in
    (_, later file (unlocks 0 c refl), refl)

Reach-Atomic_example : two_threads.0.world ≡ steps (passing two_threads.0.log start) start
Reach-Atomic_example = Reach-Atomic two_threads.1 two_threads.2

-- Thread 0 has the mutex, and thread 1 waits for it.
held : (s : State) × Reach start s × (s.owner ≡ some 0)
unfolding update
held =
    let c : Call = record { level = 1; line = line } in
    let waits =
      later (later Reach.start (admitted 0 c refl (omega arith)))
        (admitted 1 c refl (omega arith)) in
    (_, later waits (locks 0 c refl refl), refl)

Reach-Frees_example : (c : Call) × Frees held.0 0 c
Reach-Frees_example = Reach-Frees 0 held.1 held.2
