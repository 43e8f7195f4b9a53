-- ===== src/Log/Heads/Tests.antt =====
-- A call of `log_write` of src/quekka/Quekka_log.c with its arguments.
use tiny_mon.Base.{
  ℕ, Bool, ◌≡◌, refl, inr, true, false, List, [], ◌∷◌, ◌++◌, some, replicate, arith, ◌==◌,
  if◌then◌else◌, cstr,
}
use tiny_mon.Log.{World, log_info, newline, bom}
use tiny_mon.Log.Heads.{level_strings, get_elem?, call_log_write}
use tiny_mon.Log.Heads.Read.{NoByte, read_line}
use tiny_mon.Log.Heads.Calls.{call_log_write-reads}

abbrev name : List ℕ
name = b'q' ∷ []

-- `g_logger`, after `logger_init` with that name has opened a new file.
abbrev opened : World
opened = record {
  logger = record {
    file = some name;
    level = log_info;
    console_output = 1;
    file_output = 1;
    filename = b'q' ∷ replicate 255 0;
  };
  content = λ other. some bom;
  stderr = [];
}

abbrev is_absent : (c : ℕ) → List ℕ → Bool
is_absent c [] = true
is_absent c (d ∷ s) = let rest = is_absent c s in if d == c then false else rest

absent_step :
    (c d : ℕ) (s : List ℕ) (same : Bool)
    → (d == c) ≡ same
    → (if same then false else is_absent c s) ≡ true
    → (is_absent c s ≡ true → NoByte c s)
    → NoByte c (d ∷ s)
absent_step c d s true e h rest = absurd cc
absent_step c d s false e h rest = (λ at. ground (arith, e, at), rest h)

absent : (c : ℕ) (s : List ℕ) → is_absent c s ≡ true → NoByte c s
absent c [] h = tt
absent c (d ∷ s) h = absent_step c d s (d == c) refl h (absent c s)

-- 2024-01-01 00:00:00, `main`, `../src/m.c`.
abbrev time : List ℕ
time =
    b'2' ∷ b'0' ∷ b'2' ∷ b'4' ∷ b'-' ∷ b'0' ∷ b'1' ∷ b'-' ∷ b'0' ∷ b'1' ∷ b' ' ∷ b'0' ∷ b'0' ∷ b':'
    ∷ b'0' ∷ b'0' ∷ b':' ∷ b'0' ∷ b'0' ∷ 0 ∷ []

abbrev function : List ℕ
function = b'm' ∷ b'a' ∷ b'i' ∷ b'n' ∷ 0 ∷ []

abbrev folders : List ℕ
folders = b'.' ∷ b'.' ∷ b'/' ∷ b's' ∷ b'r' ∷ b'c' ∷ []

abbrev fname : List ℕ
fname = b'm' ∷ b'.' ∷ b'c' ∷ 0 ∷ []

call_log_write-reads_example :
    (w' : World) × (bytes level_name : List ℕ) × (call_log_write time 2
        (folders ++ (b'/' ∷ fname))
        function
        42
        (b'h' ∷ b'i' ∷ [])
        (b'?' ∷ [])
        opened
      ≡ some w')
    × (w'.content name ≡ some (bom ++ bytes))
    × (get_elem? level_strings 2 ≡ some level_name)
    × (read_line bytes ≡ record {
      time = cstr time;
      level = level_name;
      function = cstr function;
      file = cstr fname;
      line = 42;
      message = b'?' ∷ newline;
    })
unfolding cstr
call_log_write-reads_example =
    call_log_write-reads time 2 (folders ++ (b'/' ∷ fname)) fname function 42 (b'h' ∷ b'i' ∷ [])
      (b'?' ∷ []) opened name (omega arith) (omega arith) (λ e. omega arith) refl (omega arith)
      (inr (folders, refl, absent 0 folders refl)) (absent b'/' fname refl)
      (absent b']' (cstr time) refl) (absent b']' (cstr function) refl)
      (absent b']' (cstr fname) refl) (absent b':' (cstr fname) refl)
