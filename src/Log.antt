-- ===== src/Log.antt =====
-- include/quekka/Quekka_log.h and src/quekka/Quekka_log.c, the logger, with the files and the stderr
-- that it writes to. Each function is one step here; Log/Threads takes `log_write` apart for several
-- threads. A stream is the name of its file, as `fopen` opens it to append.
pub mod Grows
pub mod Heads
pub mod Lines
pub mod Marks
pub mod Threads
pub mod Pieces
pub mod Atomic
pub mod Progress
pub mod Tests
use tiny_mon.Base.{
  ℕ, zero, suc, ◌+◌, ◌-◌, List, [], ◌∷◌, ◌++◌, Option, none, some, Bool, true, false, not, ◌&&◌,
  ◌||◌, ◌==◌, ltb, if◌then◌else◌, length, set, get_or, cstr, strlen, strncpy, overwrite,
}

abbrev pub max_filename_len : ℕ
max_filename_len = 256

abbrev pub log_info : ℕ
log_info = 1

pub record Logger : Type 0 where
  pub file : Option (List ℕ)
  pub level : ℕ
  pub console_output : ℕ
  pub file_output : ℕ
  pub filename : List ℕ

-- The logger, the contents of each file that exists, and what was written to stderr.
pub record World : Type 0 where
  pub logger : Logger
  pub content : List ℕ → Option (List ℕ)
  pub stderr : List ℕ

-- Two names are equal.
unfoldable pub same_name : List ℕ → List ℕ → Bool
same_name [] [] = true
same_name [] (d ∷ t) = false
same_name (c ∷ s) [] = false
same_name (c ∷ s) (d ∷ t) = let rest = same_name s t in (c == d) && rest

abbrev pub or_empty : Option (List ℕ) → List ℕ
or_empty none = []
or_empty (some bytes) = bytes

-- Writing to a stream that appends; the file exists while it is open.
unfoldable pub append_file : (List ℕ → Option (List ℕ)) → List ℕ → List ℕ → List ℕ → Option (List ℕ)
append_file content name bytes other =
    if same_name other name then some (or_empty (content name) ++ bytes) else content other

abbrev pub bom : List ℕ
bom = 0xEF ∷ 0xBB ∷ 0xBF ∷ []

-- `fclose`, where a file is open.
abbrev pub close_file : Logger → Logger
close_file l = record l { file = none }

-- The array `filename` after the new name is copied to it.
unfoldable pub filename_buffer : (old filename : List ℕ) → List ℕ
filename_buffer old filename =
    set (overwrite old (max_filename_len - 1) (strncpy (max_filename_len - 1) filename))
      (max_filename_len - 1) 0

-- What a newly opened file is given.
abbrev pub first_bytes : Option (List ℕ) → List ℕ
first_bytes o = if length (or_empty o) == 0 then bom else []

-- The new file: `openable` says whether `fopen` succeeds, `complaint` is the message if it does not.
unfoldable pub open_file :
    (openable : Bool) → (complaint : List ℕ) → (filename : List ℕ) → World → World
unfolding append_file filename_buffer
open_file openable complaint filename w =
    let buffer = filename_buffer w.logger.filename filename in
    let name = cstr buffer in
    if not openable
    then record {
      logger = record w.logger { file = none; file_output = 0; filename = buffer };
      content = w.content;
      stderr = w.stderr ++ complaint;
    }
    else record {
      logger = record w.logger { file = some name; filename = buffer };
      content = append_file w.content name (first_bytes (w.content name));
      stderr = w.stderr;
    }

abbrev pub set_level_of : ℕ → World → World
set_level_of level w = record w { logger = record w.logger { level = level } }

unfoldable pub logger_init :
    (openable : Bool)
    → (complaint : List ℕ) → (filename : Option (List ℕ)) → (level : ℕ) → World
    → World
unfolding open_file
logger_init openable complaint none level w =
    set_level_of level (record w { logger = close_file w.logger })
logger_init openable complaint (some filename) level w =
    let closed = record w { logger = close_file w.logger } in
    set_level_of level
      (if ltb 0 (strlen filename) then open_file openable complaint filename closed else closed)

unfoldable pub logger_set_level : (level : ℕ) → World → World
logger_set_level level w = set_level_of level w

unfoldable pub logger_enable_console : (enable : ℕ) → World → World
logger_enable_console enable w = record w { logger = record w.logger { console_output = enable } }

unfoldable pub logger_enable_file : (enable : ℕ) → World → World
logger_enable_file enable w = record w { logger = record w.logger { file_output = enable } }

unfoldable pub logger_close : World → World
logger_close w = record w { logger = close_file w.logger }

-- What a call of `log_write` prints: the heads of the two lines, the text of the format with its
-- arguments, and the text that a second use of the same argument list gives, which is unspecified.
pub record Line : Type 0 where
  pub console_head : List ℕ
  pub file_head : List ℕ
  pub text : List ℕ
  pub used_up : List ℕ

abbrev pub newline : List ℕ
newline = 10 ∷ []

unfoldable pub write_console : Line → World → World
write_console line w =
    if w.logger.console_output == 0
    then w
    else record w { stderr = w.stderr ++ (line.console_head ++ (line.text ++ newline)) }

-- The arguments are used up if the console has had them.
unfoldable pub file_line : Line → Logger → List ℕ
file_line line l =
    line.file_head ++ ((if l.console_output == 0 then line.text else line.used_up) ++ newline)

abbrev pub write_stream : Option (List ℕ) → Line → World → World
write_stream none line w = w
write_stream (some name) line w = record w {
  content = append_file w.content name (file_line line w.logger);
}

unfoldable pub write_file : Line → World → World
unfolding append_file file_line
write_file line w = if w.logger.file_output == 0 then w else write_stream w.logger.file line w

unfoldable pub log_write : (level : ℕ) → Line → World → World
unfolding write_console write_file
log_write level line w =
    if ltb level w.logger.level then w else write_file line (write_console line w)
