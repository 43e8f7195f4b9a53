-- ===== src/Log/Heads/Calls.antt =====
-- A call of `log_write` in src/quekka/Quekka_log.c with its arguments, and the line that it leaves in
-- the log file.
use tiny_mon.Base.{
  ℕ, ◌≤◌, ◌<◌, ◌≡◌, ◌≢◌, refl, sym, ap, ◌∙◌, inl, inr, Bool, true, false, ◌==◌, ==_ne, ltb, le→ltb,
  ◌&&◌, if◌then◌else◌, Bool-cases, some, List, ◌++◌, cstr,
}
use tiny_mon.Log.{
  World, Logger, Line, newline, or_empty, write_console, write_stream, write_file, file_line,
  log_write,
}
use tiny_mon.Log.Marks.{append_file_self}
use tiny_mon.Log.Heads.{
  level_strings, level_colors, get_elem?, base_name, file_head, console_head, line_of,
  call_log_write, no_file,
}
use tiny_mon.Log.Heads.Read.{NoByte, read_line, read_line-file_head}
use tiny_mon.Log.Heads.Names.{IsPath, base_name-IsPath, level_names}

write_console-content : (line : Line) (w : World) → (write_console line w).content ≡ w.content
unfolding write_console
write_console-content line w = elim (Bool-cases (w.logger.console_output == 0)) [
  | inl e ↦ rw (write_console, e) refl
  | inr e ↦ rw (write_console, e) refl
]

write_console-logger : (line : Line) (w : World) → (write_console line w).logger ≡ w.logger
unfolding write_console
write_console-logger line w = elim (Bool-cases (w.logger.console_output == 0)) [
  | inl e ↦ rw (write_console, e) refl
  | inr e ↦ rw (write_console, e) refl
]

write_stream-content :
    (name : List ℕ) (line : Line) (w : World)
    → (write_stream (some name) line w).content name
      ≡ some (or_empty (w.content name) ++ file_line line w.logger)
write_stream-content name line w = append_file_self w.content name (file_line line w.logger)

write_file-content :
    (name : List ℕ) (line : Line) (w : World)
    → w.logger.file_output ≢ 0
    → w.logger.file ≡ some name
    → (write_file line w).content name ≡ some (or_empty (w.content name) ++ file_line line w.logger)
unfolding write_file
write_file-content name line w on opened =
    rw (==_ne w.logger.file_output 0 on)
      (ap (λ f. (write_stream f line w).content name) opened ∙ write_stream-content name line w)

log_write-appends :
    (level : ℕ) (line : Line) (w : World) (name : List ℕ)
    → w.logger.level ≤ level
    → w.logger.file_output ≢ 0
    → w.logger.file ≡ some name
    → (log_write level line w).content name
      ≡ some (or_empty (w.content name) ++ file_line line w.logger)
unfolding log_write
log_write-appends level line w name high on opened = rw (le→ltb level w.logger.level high) (
    write_file-content name line (write_console line w)
      (λ e. on (sym (ap (λ l. l.file_output) (write_console-logger line w)) ∙ e))
      (ap (λ l. l.file) (write_console-logger line w) ∙ opened)
    ∙ rw (write_console-content line w, write_console-logger line w) refl)

no_file-opened :
    (l : Logger) (name : List ℕ) → l.file_output ≢ 0 → l.file ≡ some name → no_file l ≡ false
no_file-opened l name on opened = rw (==_ne l.file_output 0 on, opened) refl

not_skipped : {A : Type 0} (b : Bool) (x y : A) → b ≡ false → (if b then x else y) ≡ y
not_skipped true x y e = absurd cc
not_skipped false x y e = refl

and_right : (a b : Bool) → b ≡ false → (a && b) ≡ false
and_right true b e = e
and_right false b e = refl

-- What a call does if it prints to the file: the call of `log_write` with the line.
call_log_write-printed :
    (time : List ℕ) (level : ℕ) (file function : List ℕ) (line : ℕ) (text used_up : List ℕ)
    (w : World) (l : Line)
    → w.logger.level ≤ level
    → no_file w.logger ≡ false
    → line_of time level file function line text used_up ≡ some l
    → call_log_write time level file function line text used_up w ≡ some (log_write level l w)
unfolding call_log_write
call_log_write-printed time level file function line text used_up w l high opened e =
    not_skipped (ltb level w.logger.level) (some w) _ (le→ltb level w.logger.level high)
    ∙ not_skipped ((w.logger.console_output == 0) && no_file w.logger) (some w) _
        (and_right (w.logger.console_output == 0) (no_file w.logger) opened)
    ∙ rw e refl

line_of-tables :
    (time : List ℕ) (level : ℕ) (file fname function : List ℕ) (line : ℕ)
    (text used_up name color : List ℕ)
    → get_elem? level_strings level ≡ some name
    → get_elem? level_colors level ≡ some color
    → base_name file ≡ fname
    → line_of time level file function line text used_up
      ≡ some (record {
        console_head = console_head color time name function fname line;
        file_head = file_head time name function fname line;
        text = text;
        used_up = used_up;
      })
unfolding line_of
line_of-tables time level file fname function line text used_up name color e1 e2 e3 =
    rw (line_of, e1, e2, e3) refl

-- The lines of the log can be read back. Take a call whose level is in the tables and not below the
-- logger's, made while a log file is open and output to it is on. Let its source file be given by a
-- path, its line number be an `int` of at least 0, the time, the function and the name of the file contain
-- no `]`, and that name no `:`. The call ends, the file has one more line, and what is read from the
-- line is the time, the name of the level, the function, the name of the source file without its
-- folders, the number of the line, and the message: the text, or with the console on what the second
-- use of the arguments gives.
pub call_log_write-reads :
    (time : List ℕ) (level : ℕ) (file fname function : List ℕ) (line : ℕ) (text used_up : List ℕ)
    (w : World) (name : List ℕ)
    → level < 5
    → w.logger.level ≤ level
    → w.logger.file_output ≢ 0
    → w.logger.file ≡ some name
    → line < 0x8000_0000
    → IsPath file fname
    → NoByte b'/' fname
    → NoByte b']' (cstr time)
    → NoByte b']' (cstr function)
    → NoByte b']' (cstr fname)
    → NoByte b':' (cstr fname)
    → (w' : World) × (bytes level_name : List ℕ) × (call_log_write time level file function line
          text used_up w
        ≡ some w')
      × (w'.content name ≡ some (or_empty (w.content name) ++ bytes))
      × (get_elem? level_strings level ≡ some level_name)
      × (read_line bytes ≡ record {
        time = cstr time;
        level = level_name;
        function = cstr function;
        file = cstr fname;
        line = line;
        message = (if w.logger.console_output == 0 then text else used_up) ++ newline;
      })
unfolding file_line
call_log_write-reads time level file fname function line text used_up w name lt high on opened small
      path slash n1 n2 n3 n4 =
    let (level_name, color, e1, e2, n5) = level_names level lt in
    let l : Line = record {
      console_head = console_head color time level_name function fname line;
      file_head = file_head time level_name function fname line;
      text = text;
      used_up = used_up;
    } in
    (
      log_write level l w,
      file_line l w.logger,
      level_name,
      call_log_write-printed time level file function line text used_up w l high
          (no_file-opened w.logger name on opened)
          (line_of-tables time level file fname function line text used_up level_name color e1 e2
            (base_name-IsPath file fname path slash)),
      log_write-appends level l w name high on opened,
      e1,
      read_line-file_head time level_name function fname line _ n1 n5 n2 n3 n4 small,
    )
