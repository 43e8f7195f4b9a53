-- ===== src/Log/Threads.antt =====
-- src/quekka/Quekka_log.c, the logger under several threads. A call of `log_write` looks at the level,
-- takes the mutex, and writes its line in pieces; the other functions hold the mutex for all they do
-- and are one step. Threads are numbers.
use tiny_mon.Base.{
  ℕ, ◌≤◌, ◌<◌, ◌≡◌, ◌≢◌, Bool, true, false, ◌==◌, if◌then◌else◌, Option, none, some, List, [], ◌∷◌,
  ◌++◌,
}
use tiny_mon.Log.{World, Line, newline, append_file}
use tiny_mon.Log.Grows.{Op, step}

-- The arguments of a call of `log_write`.
pub record Call : Type 0 where
  pub level : ℕ
  pub line : Line

-- Where a thread stands. `used` says whether the console has used the arguments of the format up.
pub data Pc : Type 0 where
  idle : Pc
  waiting : Call → Pc
  console : Call → Pc
  console_text : Call → Pc
  console_newline : Call → Pc
  file : (used : Bool) → Call → Pc
  file_text : (used : Bool) → Call → Pc
  file_newline : Call → Pc
  leaving : Call → Pc

-- One call of `fprintf` on stderr, and on the stream of the log file.
abbrev pub print : List ℕ → World → World
print bytes w = record w { stderr = w.stderr ++ bytes }

unfoldable pub print_file : Option (List ℕ) → List ℕ → World → World
print_file none bytes w = w
print_file (some name) bytes w = record w { content = append_file w.content name bytes }

abbrev pub text_of : (used : Bool) → Line → List ℕ
text_of used line = if used then line.used_up else line.text

-- What a thread does while it has the mutex.
pub data Move (w : World) : Pc → World → Pc → Type 0 where
  console_off : {c : Call} → w.logger.console_output ≡ 0 → Move w (console c) w (file false c)
  console_on :
      {c : Call}
      → w.logger.console_output ≢ 0
      → Move w (console c) (print c.line.console_head w) (console_text c)
  console_format : {c : Call} → Move w (console_text c) (print c.line.text w) (console_newline c)
  console_end : {c : Call} → Move w (console_newline c) (print newline w) (file true c)
  file_off :
      {used : Bool} {c : Call} → w.logger.file_output ≡ 0 → Move w (file used c) w (leaving c)
  file_missing :
      {used : Bool} {c : Call} → w.logger.file ≡ none → Move w (file used c) w (leaving c)
  file_on :
      {used : Bool} {c : Call} {name : List ℕ}
      → w.logger.file_output ≢ 0
      → w.logger.file ≡ some name
      → Move w (file used c) (print_file w.logger.file c.line.file_head w) (file_text used c)
  file_format :
      {used : Bool} {c : Call}
      → Move w
          (file_text used c)
          (print_file w.logger.file (text_of used c.line) w)
          (file_newline c)
  file_end : {c : Call} → Move w (file_newline c) (print_file w.logger.file newline w) (leaving c)

-- `owner` has the mutex. `log` is ghost: the calls that have given the mutex back, the oldest first.
pub record State : Type 0 where
  pub world : World
  pub owner : Option ℕ
  pub pc : ℕ → Pc
  pub log : List Op

abbrev pub initial : World → State
initial w = record { world = w; owner = none; pc = λ i. idle; log = [] }

unfoldable pub update : (ℕ → Pc) → ℕ → Pc → ℕ → Pc
update pc i p j = if i == j then p else pc j

abbrev pub NotWrite : Op → Type 0
NotWrite (Op.write level line) = ⊥
NotWrite o = Unit {0}

pub data Step (s : State) : State → Type 0 where
  refused : (i : ℕ) (c : Call) → s.pc i ≡ idle → c.level < s.world.logger.level → Step s s
  admitted :
      (i : ℕ) (c : Call)
      → s.pc i ≡ idle
      → s.world.logger.level ≤ c.level
      → Step s (record s { pc = update s.pc i (waiting c) })
  locks :
      (i : ℕ) (c : Call)
      → s.pc i ≡ waiting c
      → s.owner ≡ none
      → Step s (record s { owner = some i; pc = update s.pc i (console c) })
  moves :
      (i : ℕ) {w : World} {p : Pc}
      → Move s.world (s.pc i) w p
      → Step s (record s { world = w; pc = update s.pc i p })
  unlocks :
      (i : ℕ) (c : Call)
      → s.pc i ≡ leaving c
      → Step s (record s {
        owner = none;
        pc = update s.pc i idle;
        log = s.log ++ (Op.write c.level c.line ∷ []);
      })
  calls :
      (o : Op)
      → NotWrite o
      → s.owner ≡ none
      → Step s (record s { world = step o s.world; log = s.log ++ (o ∷ []) })

pub data Reach (w : World) : State → Type 0 where
  start : Reach w (initial w)
  later : {s t : State} → Reach w s → Step s t → Reach w t
