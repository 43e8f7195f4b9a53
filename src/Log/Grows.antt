-- ===== src/Log/Grows.antt =====
-- Sequences of calls of the logger: what they leave of the files, and how the files begin.
use tiny_mon.Base.{
  ℕ, ◌≡◌, refl, ap, sym, ◌∙◌, inl, inr, Bool, true, false, not, ◌==◌, ltb, if◌then◌else◌,
  Bool-cases, Option, none, some, List, [], ◌∷◌, ◌++◌, append_assoc, append-nil, strlen, arith,
}
use tiny_mon.Log.{
  World, Logger, Line, same_name, append_file, close_file, open_file, logger_init, logger_set_level,
  logger_enable_console, logger_enable_file, logger_close, write_console, write_stream, write_file,
  file_line, log_write,
}

-- A call of the logger, with what the outside decides.
pub data Op : Type 0 where
  init : (openable : Bool) → (complaint : List ℕ) → Option (List ℕ) → (level : ℕ) → Op
  set_level : (level : ℕ) → Op
  enable_console : (enable : ℕ) → Op
  enable_file : (enable : ℕ) → Op
  close : Op
  write : (level : ℕ) → Line → Op

unfoldable pub step : Op → World → World
step (Op.init openable complaint filename level) = logger_init openable complaint filename level
step (Op.set_level level) = logger_set_level level
step (Op.enable_console enable) = logger_enable_console enable
step (Op.enable_file enable) = logger_enable_file enable
step Op.close = logger_close
step (Op.write level line) = log_write level line

unfoldable pub steps : List Op → World → World
steps [] w = w
steps (o ∷ os) w = steps os (step o w)

pub same_name-eq : (s t : List ℕ) → same_name s t ≡ true → s ≡ t
unfolding same_name
same_name-eq [] [] e = refl
same_name-eq [] (d ∷ t) e = cc
same_name-eq (c ∷ s) [] e = cc
same_name-eq (c ∷ s) (d ∷ t) e = ground (arith, same_name-eq s t)

-- Nothing that was written is lost: a file keeps its contents, and so does stderr.
pub record Grows (w w' : World) : Type 0 where
  pub files :
      (name old : List ℕ)
      → w.content name ≡ some old
      → (more : List ℕ) × (w'.content name ≡ some (old ++ more))
  pub console : (more : List ℕ) × (w'.stderr ≡ w.stderr ++ more)

Grows-refl : (w : World) → Grows w w
Grows-refl w = record {
  files = λ name old e. ([], e ∙ ap some (sym (append-nil old)));
  console = ([], sym (append-nil w.stderr));
}

Grows-trans : (u v w : World) → Grows u v → Grows v w → Grows u w
Grows-trans u v w a b = record {
  files = λ name old e.
      let (more, e') = a.files name old e in
      let (more', e'') = b.files name (old ++ more) e' in
      (more ++ more', e'' ∙ ap some (append_assoc old more more'));
  console = (
    a.console.0 ++ b.console.0,
    b.console.1
        ∙ ap (λ l. l ++ b.console.0) a.console.1
        ∙ append_assoc u.stderr a.console.0 b.console.0,
  );
}

pub append_file-grows :
    (content : List ℕ → Option (List ℕ)) (name bytes other old : List ℕ)
    → content other ≡ some old
    → (more : List ℕ) × (append_file content name bytes other ≡ some (old ++ more))
unfolding append_file
append_file-grows content name bytes other old e = elim (Bool-cases (same_name other name)) [
  | inl h ↦ (bytes, rw (h, ← same_name-eq other name h, e))
  | inr h ↦ ([], rw (h, append-nil old) e)
]

Grows-file :
    (w : World) (l : Logger) (name bytes : List ℕ)
    → Grows w (record w { logger = l; content = append_file w.content name bytes })
Grows-file w l name bytes = record {
  files = append_file-grows w.content name bytes;
  console = ([], sym (append-nil w.stderr));
}

Grows-console :
    (w : World) (l : Logger) (text : List ℕ)
    → Grows w (record w { logger = l; stderr = w.stderr ++ text })
Grows-console w l text = record {
  files = λ name old e. ([], e ∙ ap some (sym (append-nil old)));
  console = (text, refl);
}

Grows-logger : (w w' : World) (l : Logger) → Grows w w' → Grows w (record w' { logger = l })
Grows-logger w w' l g = record { files = g.files; console = g.console }

pub choose :
    (P : World → Type 0) (b : Bool) (x y : World)
    → (b ≡ true → P x)
    → (b ≡ false → P y)
    → P (if b then x else y)
choose P true x y p q = p refl
choose P false x y p q = q refl

open_file-Grows :
    (openable : Bool) (complaint filename : List ℕ) (w : World)
    → Grows w (open_file openable complaint filename w)
unfolding open_file
open_file-Grows openable complaint filename w =
    choose (Grows w) (not openable) _ _ (λ e. Grows-console w _ complaint) (λ e. Grows-file w _ _ _)

write_stream-Grows :
    (o : Option (List ℕ)) (line : Line) (w : World) → Grows w (write_stream o line w)
write_stream-Grows none line w = Grows-refl w
write_stream-Grows (some name) line w = Grows-file w w.logger name (file_line line w.logger)

log_write-Grows : (level : ℕ) (line : Line) (w : World) → Grows w (log_write level line w)
unfolding log_write write_console write_file
log_write-Grows level line w =
    choose (Grows w) (ltb level w.logger.level) _ _ (λ e. Grows-refl w)
      (λ e.
        Grows-trans w (write_console line w) _
          (choose (Grows w) (w.logger.console_output == 0) _ _ (λ e. Grows-refl w)
            (λ e. Grows-console w _ _))
          (choose (Grows (write_console line w)) ((write_console line w).logger.file_output == 0) _
            _ (λ e. Grows-refl _) (λ e. write_stream-Grows _ line (write_console line w))))

step-Grows : (o : Op) (w : World) → Grows w (step o w)
unfolding step logger_init logger_set_level logger_enable_console logger_enable_file logger_close
step-Grows (Op.init openable complaint none level) w = Grows-logger w w _ (Grows-refl w)
step-Grows (Op.init openable complaint (some filename) level) w = Grows-logger w _ _ (
    choose (Grows w) (ltb 0 (strlen filename)) _ _
      (λ e.
        Grows-trans w (record w { logger = close_file w.logger }) _
          (Grows-logger w w _ (Grows-refl w))
          (open_file-Grows openable complaint filename (record w { logger = close_file w.logger })))
      (λ e. Grows-logger w w _ (Grows-refl w)))
step-Grows (Op.set_level level) w = Grows-logger w w _ (Grows-refl w)
step-Grows (Op.enable_console enable) w = Grows-logger w w _ (Grows-refl w)
step-Grows (Op.enable_file enable) w = Grows-logger w w _ (Grows-refl w)
step-Grows Op.close w = Grows-logger w w _ (Grows-refl w)
step-Grows (Op.write level line) w = log_write-Grows level line w

-- Whatever is called, in whatever order: every file keeps what it holds and is added to at its end
-- alone, and so is stderr.
pub steps-Grows : (os : List Op) (w : World) → Grows w (steps os w)
unfolding steps
steps-Grows [] w = Grows-refl w
steps-Grows (o ∷ os) w =
    Grows-trans w (step o w) (steps os (step o w)) (step-Grows o w) (steps-Grows os (step o w))
