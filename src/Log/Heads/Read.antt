-- ===== src/Log/Heads/Read.antt =====
-- The lines of a log file read back: each begins with the time, the level and the place.
use tiny_mon.Base.{
  ℕ, ◌<◌, ◌≡◌, ◌≢◌, refl, ap, ◌==◌, ==_self, ==_ne, lt→leb, if◌then◌else◌, List, [], ◌∷◌, ◌++◌,
  append_assoc, drop, cstr, arith,
}
use tiny_mon.Config.{atoi}
use tiny_mon.Config.Address.{IsDigits}
use tiny_mon.Log.Heads.{print_int, bracketed, place, file_head}
use tiny_mon.Log.Heads.Digits.{digits-IsDigits, atoi-print_int}

abbrev pub NoByte : ℕ → List ℕ → Type 0
NoByte c [] = Unit {0}
NoByte c (d ∷ s) = (d ≢ c) × NoByte c s

-- The bytes before the first `c`, and those behind it.
unfoldable pub split_at : ℕ → List ℕ → List ℕ × List ℕ
split_at c [] = ([], [])
split_at c (d ∷ s) = let (a, b) = split_at c s in if d == c then ([], s) else (d ∷ a, b)

-- What stands in the brackets at the beginning, and what follows the space behind them.
abbrev pub read_field : List ℕ → List ℕ × List ℕ
read_field s = let (a, b) = split_at b']' (drop 1 s) in (a, drop 1 b)

pub record Entry : Type 0 where
  pub time : List ℕ
  pub level : List ℕ
  pub function : List ℕ
  pub file : List ℕ
  pub line : ℕ
  pub message : List ℕ

unfoldable pub read_line : List ℕ → Entry
unfolding split_at
read_line s =
    let (time, s1) = read_field s in
    let (level, s2) = read_field s1 in
    let (function, s3) = read_field s2 in
    let (at, message) = read_field s3 in
    let (file, line) = split_at b':' at in
    record {
      time = time;
      level = level;
      function = function;
      file = file;
      line = atoi line;
      message = message;
    }

split_at-append : (c : ℕ) (s t : List ℕ) → NoByte c s → split_at c (s ++ (c ∷ t)) ≡ (s, t)
unfolding split_at
split_at-append c [] t n = rw (==_self c) refl
split_at-append c (d ∷ s) t n = rw (==_ne d c n.0, split_at-append c s t n.1) refl

read_field-bracketed : (s rest : List ℕ) → NoByte b']' s → read_field (bracketed s rest) ≡ (s, rest)
read_field-bracketed s rest n = rw (split_at-append b']' s (b' ' ∷ rest) n) refl

NoByte-append : (c : ℕ) (s t : List ℕ) → NoByte c s → NoByte c t → NoByte c (s ++ t)
NoByte-append c [] t n m = m
NoByte-append c (d ∷ s) t n m = (n.0, NoByte-append c s t n.1 m)

NoByte-digits : (s : List ℕ) → IsDigits s → NoByte b']' s
NoByte-digits [] d = tt
NoByte-digits (c ∷ s) d = (λ e. ground (arith, d.0, e), NoByte-digits s d.1)

NoByte-place :
    (filename : List ℕ) (line : ℕ)
    → NoByte b']' (cstr filename)
    → line < 0x8000_0000
    → NoByte b']' (place filename line)
unfolding print_int
NoByte-place filename line n small = NoByte-append b']' (cstr filename) _ n (
  λ e. omega arith,
  rw (lt→leb 0x8000_0000 line small) (NoByte-digits _ (digits-IsDigits 10 line)),
)

bracketed-append : (s rest tail : List ℕ) → bracketed s rest ++ tail ≡ bracketed s (rest ++ tail)
bracketed-append s rest tail = ap (λ l. b'[' ∷ l) (append_assoc s (b']' ∷ b' ' ∷ rest) tail)

-- The head of a line for the file, with the message behind it.
pub read_line-file_head :
    (time level function filename : List ℕ) (line : ℕ) (message : List ℕ)
    → NoByte b']' (cstr time)
    → NoByte b']' level
    → NoByte b']' (cstr function)
    → NoByte b']' (cstr filename)
    → NoByte b':' (cstr filename)
    → line < 0x8000_0000
    → read_line (file_head time level function filename line ++ message) ≡ record {
      time = cstr time;
      level = level;
      function = cstr function;
      file = cstr filename;
      line = line;
      message = message;
    }
unfolding read_line file_head
read_line-file_head time level function filename line message n1 n2 n3 n4 n5 small =
    rw
      (
        bracketed-append (cstr time)
            (bracketed level (bracketed (cstr function) (bracketed (place filename line) [])))
            message,
        bracketed-append level (bracketed (cstr function) (bracketed (place filename line) []))
            message,
        bracketed-append (cstr function) (bracketed (place filename line) []) message,
        bracketed-append (place filename line) [] message,
        split_at-append b']' (cstr time)
            (b' '
              ∷ bracketed level
                  (bracketed (cstr function) (bracketed (place filename line) message)))
            n1,
        split_at-append b']' level
            (b' ' ∷ bracketed (cstr function) (bracketed (place filename line) message)) n2,
        split_at-append b']' (cstr function) (b' ' ∷ bracketed (place filename line) message) n3,
        split_at-append b']' (place filename line) (b' ' ∷ message)
            (NoByte-place filename line n4 small),
        split_at-append b':' (cstr filename) (print_int line) n5,
        atoi-print_int line small,
      )
      refl
