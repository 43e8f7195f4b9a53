-- ===== src/Log/Pieces.antt =====
-- The pieces in which a thread of src/quekka/Quekka_log.c writes its line, against the whole line.
use tiny_mon.Base.{
  ℕ, ◌≡◌, ◌≢◌, refl, sym, ap, fun_ext, ◌∙◌, inl, inr, Bool, true, false, not, ◌==◌, ==_ne,
  if◌then◌else◌, Bool-cases, Option, none, some, List, ◌++◌, append_assoc,
}
use tiny_mon.Log.{
  World, Line, newline, same_name, or_empty, append_file, write_console, write_stream, write_file,
  file_line,
}
use tiny_mon.Log.Marks.{append_file_self}
use tiny_mon.Log.Threads.{
  Call, Pc, idle, waiting, console, console_text, console_newline, file, file_text, file_newline,
  leaving, print, print_file, text_of, Move, console_off, console_on, console_format, console_end,
  file_off, file_missing, file_on, file_format, file_end,
}

-- A whole line, whatever the level.
abbrev pub write_line : Line → World → World
write_line line w = write_file line (write_console line w)

-- The end of the line that a thread is in, in one piece.
abbrev end_of_file : Bool → Call → World → World
end_of_file used c w =
    if w.logger.file_output == 0
    then w
    else print_file w.logger.file (c.line.file_head ++ (text_of used c.line ++ newline)) w

abbrev pub finish : Pc → World → World
finish idle w = w
finish (waiting c) w = w
finish (console c) w = write_line c.line w
finish (console_text c) w = end_of_file true c (print (c.line.text ++ newline) w)
finish (console_newline c) w = end_of_file true c (print newline w)
finish (file used c) w = end_of_file used c w
finish (file_text used c) w = print_file w.logger.file (text_of used c.line ++ newline) w
finish (file_newline c) w = print_file w.logger.file newline w
finish (leaving c) w = w

append_file_twice :
    (content : List ℕ → Option (List ℕ)) (name a b other : List ℕ)
    → append_file (append_file content name a) name b other
      ≡ append_file content name (a ++ b) other
unfolding append_file
append_file_twice content name a b other = elim (Bool-cases (same_name other name)) [
  | inl e ↦
      rw (e, append_file_self content name a) (ap some (append_assoc (or_empty (content name)) a b))
  | inr e ↦ rw e refl
]

print_file_twice :
    (o : Option (List ℕ)) (a b : List ℕ) (w : World)
    → print_file o b (print_file o a w) ≡ print_file o (a ++ b) w
unfolding print_file
print_file_twice none a b w = refl
print_file_twice (some name) a b w =
    ap {A = List ℕ → Option (List ℕ)} (λ c. record w { content = c })
      (fun_ext (append_file_twice w.content name a b))

print_file-logger :
    (o : Option (List ℕ)) (a : List ℕ) (w : World) → (print_file o a w).logger ≡ w.logger
unfolding print_file
print_file-logger none a w = refl
print_file-logger (some name) a w = refl

print_twice : (a b : List ℕ) (w : World) → print b (print a w) ≡ print (a ++ b) w
print_twice a b w = ap (λ l. record w { stderr = l }) (append_assoc w.stderr a b)

write_stream-print :
    (o : Option (List ℕ)) (line : Line) (w : World)
    → write_stream o line w ≡ print_file o (file_line line w.logger) w
unfolding print_file
write_stream-print none line w = refl
write_stream-print (some name) line w = refl

-- The line for the file, by whether the console has had it.
write_file-end :
    (c : Call) (w : World) (used : Bool)
    → (w.logger.console_output == 0) ≡ not used
    → write_file c.line w ≡ end_of_file used c w
unfolding write_file file_line
write_file-end c w true e = rw (write_stream-print w.logger.file c.line w, file_line, e) refl
write_file-end c w false e = rw (write_stream-print w.logger.file c.line w, file_line, e) refl

write_console-off :
    (line : Line) (w : World) → w.logger.console_output ≡ 0 → write_console line w ≡ w
unfolding write_console
write_console-off line w off = rw off refl

write_console-on :
    (line : Line) (w : World)
    → w.logger.console_output ≢ 0
    → write_console line w ≡ print (line.console_head ++ (line.text ++ newline)) w
unfolding write_console
write_console-on line w on = rw (==_ne w.logger.console_output 0 on) refl

-- A piece of a line leaves the rest of it.
pub Move-finish : {w w' : World} {p p' : Pc} → Move w p w' p' → finish p w ≡ finish p' w'
unfolding print_file
Move-finish {w} (console_off {c} off) =
    ap (write_file c.line) (write_console-off c.line w off) ∙ write_file-end c w false (rw off refl)
Move-finish {w} (console_on {c} on) =
    ap (write_file c.line) (write_console-on c.line w on)
    ∙ write_file-end c (print (c.line.console_head ++ (c.line.text ++ newline)) w) true
        (==_ne w.logger.console_output 0 on)
    ∙ ap (end_of_file true c) (sym (print_twice c.line.console_head (c.line.text ++ newline) w))
Move-finish {w} (console_format {c}) =
    ap (end_of_file true c) (sym (print_twice c.line.text newline w))
Move-finish {w} (console_end {c}) = refl
Move-finish {w} (file_off {used} {c} off) = rw off refl
Move-finish {w} (file_missing {used} {c} missing) = elim (Bool-cases (w.logger.file_output == 0)) [
  | inl e ↦ rw e refl
  | inr e ↦ rw (e, missing) refl
]
Move-finish {w} (file_on {used} {c} {name} on has_file) =
    rw (==_ne w.logger.file_output 0 on, print_file-logger w.logger.file c.line.file_head w)
      (sym (print_file_twice w.logger.file c.line.file_head (text_of used c.line ++ newline) w))
Move-finish {w} (file_format {used} {c}) =
    rw (print_file-logger w.logger.file (text_of used c.line) w)
      (sym (print_file_twice w.logger.file (text_of used c.line) newline w))
Move-finish {w} (file_end {c}) = refl

-- The call of `log_write` in which a thread holds the mutex.
abbrev pub call_of : Pc → Option Call
call_of idle = none
call_of (waiting c) = none
call_of (console c) = some c
call_of (console_text c) = some c
call_of (console_newline c) = some c
call_of (file used c) = some c
call_of (file_text used c) = some c
call_of (file_newline c) = some c
call_of (leaving c) = some c

pub Move-call :
    {w w' : World} {p p' : Pc}
    → Move w p w' p'
    → (c : Call) × (call_of p ≡ some c) × (call_of p' ≡ some c)
Move-call (console_off {c} off) = (c, refl, refl)
Move-call (console_on {c} on) = (c, refl, refl)
Move-call (console_format {c}) = (c, refl, refl)
Move-call (console_end {c}) = (c, refl, refl)
Move-call (file_off {used} {c} off) = (c, refl, refl)
Move-call (file_missing {used} {c} missing) = (c, refl, refl)
Move-call (file_on {used} {c} on has_file) = (c, refl, refl)
Move-call (file_format {used} {c}) = (c, refl, refl)
Move-call (file_end {c}) = (c, refl, refl)
