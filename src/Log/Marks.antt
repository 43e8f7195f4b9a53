-- ===== src/Log/Marks.antt =====
-- The mark of UTF-8 at the beginning of each log file.
use tiny_mon.Base.{
  ℕ, ◌≡◌, refl, ap, sym, subst, ◌∙◌, inl, inr, Bool, true, not, ◌==◌, ltb, Bool-cases, Option, none,
  some, List, [], ◌∷◌, ◌++◌, cstr, strlen, arith,
}
use mathlib.Core.Option.{some-injective}
use tiny_mon.Log.{
  filename_buffer, first_bytes, World, Logger, Line, same_name, or_empty, append_file, bom,
  close_file, open_file, logger_init, logger_set_level, logger_enable_console, logger_enable_file,
  logger_close, write_console, write_stream, write_file, file_line, log_write,
}
use tiny_mon.Log.Grows.{Op, step, steps, choose, append_file-grows}

abbrev pub StartsBom : List ℕ → Type 0
StartsBom bytes = (rest : List ℕ) × (bytes ≡ bom ++ rest)

abbrev pub AllStart : (List ℕ → Option (List ℕ)) → Type 0
AllStart content = (name bytes : List ℕ) → content name ≡ some bytes → StartsBom bytes

-- Each file begins with the mark, and the open file exists.
pub record Marked (w : World) : Type 0 where
  pub files : AllStart w.content
  pub opened :
      (name : List ℕ) → w.logger.file ≡ some name → (bytes : List ℕ) × (w.content name ≡ some bytes)

same_name_self : (s : List ℕ) → same_name s s ≡ true
unfolding same_name
same_name_self [] = refl
same_name_self (c ∷ s) = ground (arith, same_name_self s)

append_file-AllStart :
    (content : List ℕ → Option (List ℕ)) (name bytes : List ℕ)
    → AllStart content
    → StartsBom (or_empty (content name) ++ bytes)
    → AllStart (append_file content name bytes)
unfolding append_file
append_file-AllStart content name bytes all start other b e =
    elim (Bool-cases (same_name other name)) [
      | inl h ↦ subst StartsBom (some-injective _ _ (rw h at e)) start
      | inr h ↦ all other b (rw h at e)
    ]

pub append_file_self :
    (content : List ℕ → Option (List ℕ)) (name bytes : List ℕ)
    → append_file content name bytes name ≡ some (or_empty (content name) ++ bytes)
unfolding append_file
append_file_self content name bytes = rw (same_name_self name)

append_file-has :
    (content : List ℕ → Option (List ℕ)) (name bytes other : List ℕ)
    → some name ≡ some other
    → (b : List ℕ) × (append_file content name bytes other ≡ some b)
append_file-has content name bytes other e = (
  or_empty (content name) ++ bytes,
  rw (← some-injective _ _ e) (append_file_self content name bytes),
)

StartsBom-append : (s t : List ℕ) → StartsBom s → StartsBom (s ++ t)
StartsBom-append s t (rest, e) = (rest ++ t, ap (λ l. l ++ t) e)

-- What `logger_init` writes makes a file begin with the mark.
bom-StartsBom :
    (o : Option (List ℕ))
    → ((bytes : List ℕ) → o ≡ some bytes → StartsBom bytes)
    → StartsBom (or_empty o ++ first_bytes o)
bom-StartsBom none all = ([], refl)
bom-StartsBom (some bytes) all = StartsBom-append bytes _ (all bytes refl)

Marked-closed :
    (w : World) (l : Logger) → l.file ≡ none → Marked w → Marked (record w { logger = l })
Marked-closed w l e m = record { files = m.files; opened = λ name e'. cc }

Marked-logger :
    (w : World) (l : Logger) → l.file ≡ w.logger.file → Marked w → Marked (record w { logger = l })
Marked-logger w l e m = record { files = m.files; opened = λ name e'. m.opened name (sym e ∙ e') }

open_file-Marked :
    (openable : Bool) (complaint filename : List ℕ) (w : World)
    → Marked w
    → Marked (open_file openable complaint filename w)
unfolding open_file
open_file-Marked openable complaint filename w m =
    choose Marked (not openable) _ _ (λ e. record { files = m.files; opened = λ name e'. cc })
      (λ e. record {
        files =
            append_file-AllStart w.content name (first_bytes (w.content name)) m.files
              (bom-StartsBom (w.content name) (m.files name));
        opened = append_file-has w.content name (first_bytes (w.content name));
      })
  where
    name : List ℕ
    name = cstr (filename_buffer w.logger.filename filename)

write_stream-Marked :
    (o : Option (List ℕ)) (line : Line) (w : World)
    → w.logger.file ≡ o
    → Marked w
    → Marked (write_stream o line w)
write_stream-Marked none line w e m = m
write_stream-Marked (some name) line w e m =
    let (bytes, has) = m.opened name e in
    record {
      files = append_file-AllStart w.content name (file_line line w.logger) m.files (
          StartsBom-append (or_empty (w.content name)) (file_line line w.logger)
            (rw has (m.files name bytes has)));
      opened = λ other e'.
          let (old, has') = m.opened other e' in
          let (more, has'') =
            append_file-grows w.content name (file_line line w.logger) other old has' in
          (old ++ more, has'');
    }

log_write-Marked :
    (level : ℕ) (line : Line) (w : World) → Marked w → Marked (log_write level line w)
unfolding log_write write_console write_file
log_write-Marked level line w m =
    choose Marked (ltb level w.logger.level) _ _ (λ e. m)
      (λ e.
        let m' : Marked (write_console line w) =
          choose Marked (w.logger.console_output == 0) _ _ (λ e. m)
            (λ e. record { files = m.files; opened = m.opened }) in
        choose Marked ((write_console line w).logger.file_output == 0) _ _ (λ e. m')
          (λ e. write_stream-Marked _ line (write_console line w) refl m'))

step-Marked : (o : Op) (w : World) → Marked w → Marked (step o w)
unfolding step logger_init logger_set_level logger_enable_console logger_enable_file logger_close
step-Marked (Op.init openable complaint none level) w m = Marked-closed w _ refl m
step-Marked (Op.init openable complaint (some filename) level) w m =
    let closed : World = record w { logger = close_file w.logger } in
    let m' : Marked closed = Marked-closed w (close_file w.logger) refl m in
    Marked-logger _ _ refl (
      choose Marked (ltb 0 (strlen filename)) (open_file openable complaint filename closed) closed
        (λ e. open_file-Marked openable complaint filename closed m') (λ e. m'))
step-Marked (Op.set_level level) w m = Marked-logger w _ refl m
step-Marked (Op.enable_console enable) w m = Marked-logger w _ refl m
step-Marked (Op.enable_file enable) w m = Marked-logger w _ refl m
step-Marked Op.close w m = Marked-closed w _ refl m
step-Marked (Op.write level line) w m = log_write-Marked level line w m

-- If each file begins with the mark of UTF-8 and the open file exists, then this stays so, whatever
-- is called: a file that the logger creates gets the mark, and no later line is put in front of it.
pub steps-Marked : (os : List Op) (w : World) → Marked w → Marked (steps os w)
unfolding steps
steps-Marked [] w m = m
steps-Marked (o ∷ os) w m = steps-Marked os (step o w) (step-Marked o w m)
