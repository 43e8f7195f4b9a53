-- ===== src/Log/Lines.antt =====
-- Which lines reach a file.
use tiny_mon.Base.{
  ℕ, ◌≤◌, ◌<◌, ◌≡◌, ◌≢◌, refl, ap, ◌∙◌, Bool, true, false, not, ◌==◌, ltb, Option, none, some, List,
  [], ◌∷◌, ◌++◌, cstr, strlen, le→ltb, lt→ltb, ==_ne,
}
use tiny_mon.Log.{
  World, Line, append_file, bom, close_file, newline, filename_buffer, first_bytes, open_file,
  logger_init, logger_set_level, logger_enable_console, logger_enable_file, logger_close,
  write_console, write_stream, write_file, file_line, log_write,
}
use tiny_mon.Log.Grows.{Op, step, steps, choose}
use tiny_mon.Log.Marks.{append_file_self}

abbrev pub NoEnableFile : List Op → Type 0
NoEnableFile [] = Unit {0}
NoEnableFile (Op.enable_file enable ∷ os) = ⊥
NoEnableFile (o ∷ os) = NoEnableFile os

abbrev Off : World → Type 0
Off w = w.logger.file_output ≡ 0

write_stream-Off :
    (o : Option (List ℕ)) (line : Line) (w : World) → Off w → Off (write_stream o line w)
write_stream-Off none line w off = off
write_stream-Off (some name) line w off = off

write_console-Off : (line : Line) (w : World) → Off w → Off (write_console line w)
unfolding write_console
write_console-Off line w off = choose Off (w.logger.console_output == 0) _ _ (λ e. off) (λ e. off)

log_write-Off : (level : ℕ) (line : Line) (w : World) → Off w → Off (log_write level line w)
unfolding log_write write_console write_file
log_write-Off level line w off =
    choose Off (ltb level w.logger.level) _ _ (λ e. off)
      (λ e.
        let off' = write_console-Off line w off in
        choose Off ((write_console line w).logger.file_output == 0) _ _ (λ e. off')
          (λ e. write_stream-Off _ line _ off'))

open_file-Off :
    (openable : Bool) (complaint filename : List ℕ) (w : World)
    → Off w
    → Off (open_file openable complaint filename w)
unfolding open_file
open_file-Off openable complaint filename w off =
    choose Off (not openable) _ _ (λ e. refl) (λ e. off)

init-Off :
    (openable : Bool) (complaint : List ℕ) (filename : Option (List ℕ)) (level : ℕ) (w : World)
    → Off w
    → Off (logger_init openable complaint filename level w)
unfolding logger_init
init-Off openable complaint none level w off = off
init-Off openable complaint (some filename) level w off =
    choose Off (ltb 0 (strlen filename)) _ _
      (λ e.
        open_file-Off openable complaint filename (record w { logger = close_file w.logger }) off)
      (λ e. off)

steps-Off : (os : List Op) (w : World) → NoEnableFile os → Off w → Off (steps os w)
unfolding steps step logger_set_level logger_enable_console logger_enable_file logger_close
steps-Off [] w n off = off
steps-Off (Op.init openable complaint filename level ∷ os) w n off =
    steps-Off os _ n (init-Off openable complaint filename level w off)
steps-Off (Op.set_level level ∷ os) w n off = steps-Off os _ n off
steps-Off (Op.enable_console enable ∷ os) w n off = steps-Off os _ n off
steps-Off (Op.enable_file enable ∷ os) w n off = absurd n
steps-Off (Op.close ∷ os) w n off = steps-Off os _ n off
steps-Off (Op.write level line ∷ os) w n off = steps-Off os _ n (log_write-Off level line w off)

write_file_same : (line : Line) (w : World) → Off w → write_file line w ≡ w
unfolding write_file
write_file_same line w off = rw off

write_console-content : (line : Line) (w : World) → (write_console line w).content ≡ w.content
unfolding write_console
write_console-content line w =
    choose (λ x. x.content ≡ w.content) (w.logger.console_output == 0) _ _ (λ e. refl) (λ e. refl)

log_write-content :
    (level : ℕ) (line : Line) (w : World) → Off w → (log_write level line w).content ≡ w.content
unfolding log_write
log_write-content level line w off =
    choose (λ x. x.content ≡ w.content) (ltb level w.logger.level) _ _ (λ e. refl)
      (λ e.
        ap (λ x. x.content)
          (write_file_same line (write_console line w) (write_console-Off line w off))
        ∙ write_console-content line w)

failed-Off :
    (complaint filename : List ℕ) (level : ℕ) (w : World)
    → 0 < strlen filename
    → Off (logger_init false complaint (some filename) level w)
unfolding logger_init open_file
failed-Off complaint filename level w named = rw (lt→ltb 0 (strlen filename) named)

-- Once a log file with a name could not be opened, no line reaches a file, also when a later one is opened, until
-- `logger_enable_file` is called.
pub init_failed :
    (complaint filename : List ℕ) (level : ℕ) (w : World) (os : List Op) (level' : ℕ) (line : Line)
    → 0 < strlen filename
    → NoEnableFile os
    → (log_write level' line
        (steps os (logger_init false complaint (some filename) level w))).content
      ≡ (steps os (logger_init false complaint (some filename) level w)).content
init_failed complaint filename level w os level' line named n =
    log_write-content level' line _ (steps-Off os _ n (failed-Off complaint filename level w named))

init-opened :
    (complaint filename : List ℕ) (level : ℕ) (w : World)
    → 0 < strlen filename
    → (let name = cstr (filename_buffer w.logger.filename filename) in
        let w' = logger_init true complaint (some filename) level w in
        (w'.logger ≡ record w.logger {
          file = some name;
          filename = filename_buffer w.logger.filename filename;
          level = level;
        })
        × (w'.content ≡ append_file w.content name (first_bytes (w.content name))))
unfolding logger_init open_file
init-opened complaint filename level w named =
    (rw (lt→ltb 0 (strlen filename) named), rw (lt→ltb 0 (strlen filename) named))

log_write-opened :
    (level : ℕ) (line : Line) (w : World) (name : List ℕ)
    → w.logger.file ≡ some name
    → w.logger.console_output ≡ 0
    → w.logger.file_output ≢ 0
    → w.logger.level ≤ level
    → (log_write level line w).content
      ≡ append_file w.content name (line.file_head ++ (line.text ++ newline))
unfolding log_write write_console write_file file_line
log_write-opened level line w name at off on shown =
    rw (le→ltb level w.logger.level shown, off, ==_ne w.logger.file_output 0 on, at)

-- A named file that is opened for the first time holds, after a first call of `log_write` with the
-- console off, the file on and a level that is not below the logger's, the mark of UTF-8 and the line.
pub first_line :
    (complaint filename : List ℕ) (level : ℕ) (w : World) (level' : ℕ) (line : Line)
    → 0 < strlen filename
    → w.content (cstr (filename_buffer w.logger.filename filename)) ≡ none
    → w.logger.console_output ≡ 0
    → w.logger.file_output ≢ 0
    → level ≤ level'
    → (log_write level' line (logger_init true complaint (some filename) level w)).content
        (cstr (filename_buffer w.logger.filename filename))
      ≡ some (bom ++ (line.file_head ++ (line.text ++ newline)))
first_line complaint filename level w level' line named new off on shown =
    let w' : World = logger_init true complaint (some filename) level w in
    let name : List ℕ = cstr (filename_buffer w.logger.filename filename) in
    let (opened, begun) = init-opened complaint filename level w named in
    let written =
      log_write-opened level' line w' name (ap (λ l. l.file) opened)
        (ap (λ l. l.console_output) opened ∙ off) (rw (ap (λ l. l.file_output) opened) on)
        (rw (ap (λ l. l.level) opened) shown) in
    rw (
      written,
      append_file_self w'.content name (line.file_head ++ (line.text ++ newline)),
      begun,
      append_file_self w.content name (first_bytes (w.content name)),
      new,
    )
