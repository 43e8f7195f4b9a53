-- ===== src/Log/Heads.antt =====
-- src/quekka/Quekka_log.c, the texts that `log_write` puts in front of a message: the time, the level,
-- and the place in the source. A text that is an argument of the call is a pointer to characters.
pub mod Digits
pub mod Read
pub mod Names
pub mod Calls
pub mod Tests
use tiny_mon.Base.{
  ℕ, zero, suc, ◌+◌, ◌-◌, ◌/◌, ◌%◌, Bool, true, false, ◌||◌, List, [], ◌∷◌, ◌++◌, Option, none,
  some, ◌==◌, ltb, leb, ◌&&◌, if◌then◌else◌, drop, cstr, is_negative,
}
use tiny_mon.Log.{World, Logger, Line, log_write}

abbrev pub level_strings : List (List ℕ)
level_strings =
    (b'D' ∷ b'E' ∷ b'B' ∷ b'U' ∷ b'G' ∷ [])
    ∷ (b'I' ∷ b'N' ∷ b'F' ∷ b'O' ∷ [])
    ∷ (b'W' ∷ b'A' ∷ b'R' ∷ b'N' ∷ b'I' ∷ b'N' ∷ b'G' ∷ [])
    ∷ (b'E' ∷ b'R' ∷ b'R' ∷ b'O' ∷ b'R' ∷ [])
    ∷ (b'F' ∷ b'A' ∷ b'T' ∷ b'A' ∷ b'L' ∷ [])
    ∷ []

-- `\033[` and the number of the color.
abbrev color : (number : List ℕ) → List ℕ
color number = 0x1b ∷ b'[' ∷ (number ++ (b'm' ∷ []))

abbrev pub level_colors : List (List ℕ)
level_colors =
    color (b'3' ∷ b'6' ∷ [])
    ∷ color (b'3' ∷ b'2' ∷ [])
    ∷ color (b'3' ∷ b'3' ∷ [])
    ∷ color (b'3' ∷ b'1' ∷ [])
    ∷ color (b'3' ∷ b'5' ∷ [])
    ∷ []

abbrev pub color_reset : List ℕ
color_reset = color (b'0' ∷ [])

-- An entry of an array; there is none out of its bounds.
abbrev pub get_elem? : List (List ℕ) → ℕ → Option (List ℕ)
get_elem? [] i = none
get_elem? (x ∷ xs) zero = some x
get_elem? (x ∷ xs) (suc i) = get_elem? xs i

-- `strrchr(s, c)`: the text from the last `c` on.
unfoldable pub strrchr : List ℕ → (c : ℕ) → Option (List ℕ)
strrchr [] c = none
strrchr (d ∷ s) c =
    let rest = strrchr s c in
    if d == 0
    then none
    else elim rest [ some t ↦ some t | none ↦ if d == c then some (d ∷ s) else none ]

-- The name of a file without its folders.
unfoldable pub base_name : (file : List ℕ) → List ℕ
unfolding strrchr
base_name file = elim (strrchr file b'/') [ none ↦ file | some t ↦ drop 1 t ]

-- The decimal digits of a number, at most `fuel` of them.
unfoldable pub digits : (fuel : ℕ) → ℕ → List ℕ
digits zero n = []
digits (suc fuel) n =
    let rest = digits fuel (n / 10) in
    if ltb n 10 then (b'0' + n) ∷ [] else rest ++ ((b'0' + n % 10) ∷ [])

-- `%d` of an `int`, which has at most ten digits.
unfoldable pub print_int : ℕ → List ℕ
unfolding digits
print_int n = if is_negative n then b'-' ∷ digits 10 (0x1_0000_0000 - n) else digits 10 n

-- A text in brackets and a space.
abbrev pub bracketed : List ℕ → List ℕ → List ℕ
bracketed s rest = b'[' ∷ (s ++ (b']' ∷ b' ' ∷ rest))

-- `%s:%d`.
abbrev pub place : (filename : List ℕ) → (line : ℕ) → List ℕ
place filename line = cstr filename ++ (b':' ∷ print_int line)

unfoldable pub console_head : (color time level function filename : List ℕ) → (line : ℕ) → List ℕ
unfolding print_int
console_head color time level function filename line =
    color
    ++ bracketed (cstr time) (
        bracketed level (
          bracketed (cstr function)
            (b'[' ∷ (place filename line ++ (b']' ∷ (color_reset ++ (b' ' ∷ [])))))))

unfoldable pub file_head : (time level function filename : List ℕ) → (line : ℕ) → List ℕ
unfolding print_int
file_head time level function filename line =
    bracketed (cstr time)
      (bracketed level (bracketed (cstr function) (bracketed (place filename line) [])))

-- What a call prints, or `none` if the level is not in the tables.
unfoldable pub line_of :
    (time : List ℕ)
    → (level : ℕ) → (file function : List ℕ) → (line : ℕ) → (text used_up : List ℕ) → Option Line
unfolding base_name console_head file_head
line_of time level file function line text used_up = elim (get_elem? level_strings level) [
  | none ↦ none
  | some name ↦ elim (get_elem? level_colors level) [
    | none ↦ none
    | some color ↦ some (record {
      console_head = console_head color time name function (base_name file) line;
      file_head = file_head time name function (base_name file) line;
      text = text;
      used_up = used_up;
    })
  ]
]

abbrev pub no_file : Logger → Bool
no_file l = (l.file_output == 0) || elim l.file [ none ↦ true | some name ↦ false ]

-- A call with its arguments. A level that is high enough is looked up in the tables when a line is
-- printed; `none` is a read out of their bounds.
unfoldable pub call_log_write :
    (time : List ℕ)
    → (level : ℕ) → (file function : List ℕ) → (line : ℕ) → (text used_up : List ℕ) → World
    → Option World
unfolding line_of log_write
call_log_write time level file function line text used_up w =
    if ltb level w.logger.level
    then some w
    else if (w.logger.console_output == 0) && no_file w.logger
    then some w
    else elim (line_of time level file function line text used_up) [
      | none ↦ none
      | some l ↦ some (log_write level l w)
    ]
