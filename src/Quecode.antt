-- ===== src/Quecode.antt =====
-- include/quekka/Quekka_quecode.h and src/quekka/Quekka_quecode.c: the error code of a thread.
use tiny_mon.Base.{ℕ, List, [], ◌∷◌, ltb, leb, ◌||◌, if◌then◌else◌, get_or}
use Prim.Native.String.{String}

-- The enumerators of `QUECODE_LIST`; `last` is the one that follows them.
abbrev pub quecode_success : ℕ
quecode_success = 0

abbrev pub quecode_failure : ℕ
quecode_failure = 1

abbrev pub quecode_invalid_input : ℕ
quecode_invalid_input = 2

abbrev pub quecode_last : ℕ
quecode_last = 3

abbrev pub quecode_string : List String
quecode_string = "Sucess" ∷ "Failure" ∷ "Invalid Input" ∷ []

-- The enumeration has no negative member, so it is unsigned and `0 > code` is never true.
abbrev pub string_code : ℕ → String
string_code code =
    if ltb code 0 || leb quecode_last code then "Unknown error" else get_or quecode_string code ""

-- The variable of the calling thread, after the call, and read.
abbrev pub set_code : (code quecode : ℕ) → ℕ
set_code code quecode = code

abbrev pub get_code : (quecode : ℕ) → ℕ
get_code quecode = quecode
