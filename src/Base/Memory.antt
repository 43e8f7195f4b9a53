-- ===== src/Base/Memory.antt =====
-- Bytes and C strings. A pointer to characters is the list of the bytes from it to the end of its
-- object; a text argument may leave its terminator out, so the end of a list reads as NUL.
use tiny_mon.Base.Tests.{◌==◌, if◌then◌else◌, Bool-cases}
use tiny_mon.Base.Lists.{length, take, drop, replicate}
use Prim.Native.Nat.{ℕ, zero, suc, ◌/◌, ◌%◌, ◌≤◌}
use mathlib.Core.Path.{◌≡◌, refl, ap}
use mathlib.Core.Logic.{inl, inr, ◌≢◌}
use mathlib.Core.List.{List, [], ◌∷◌, ◌++◌}
use native.Mathlib.Omega.{arith}

-- The bytes before the terminator.
unfoldable pub cstr : List ℕ → List ℕ
cstr [] = []
cstr (c ∷ s) = if c == 0 then [] else c ∷ cstr s

unfoldable pub strlen : List ℕ → ℕ
strlen [] = 0
strlen (c ∷ s) = if c == 0 then 0 else suc (strlen s)

-- The `n` bytes that `strncpy(dst, src, n)` writes: the text, cut at `n`, and NUL up to `n`.
unfoldable pub strncpy : ℕ → List ℕ → List ℕ
strncpy zero s = []
strncpy (suc n) [] = 0 ∷ strncpy n []
strncpy (suc n) (c ∷ s) = c ∷ strncpy n (if c == 0 then [] else s)

pub strlen-eq-length-cstr : (s : List ℕ) → strlen s ≡ length (cstr s)
unfolding strlen cstr
strlen-eq-length-cstr [] = refl
strlen-eq-length-cstr (c ∷ s) = ground (arith, strlen-eq-length-cstr s)

pub length-strncpy : (n : ℕ) (s : List ℕ) → length (strncpy n s) ≡ n
unfolding strncpy
length-strncpy zero s = refl
length-strncpy (suc n) [] = ap suc (length-strncpy n [])
length-strncpy (suc n) (c ∷ s) = ap suc (length-strncpy n (if c == 0 then [] else s))

strncpy-nil : (n : ℕ) → strncpy n [] ≡ replicate n 0
unfolding strncpy
strncpy-nil zero = refl
strncpy-nil (suc n) = ap (λ l. 0 ∷ l) (strncpy-nil n)

-- A copy with room for the terminator reads back as the text.
pub cstr-strncpy : (n : ℕ) (s : List ℕ) → cstr (strncpy n s) ≡ take n (cstr s)
unfolding strncpy cstr
cstr-strncpy zero s = refl
cstr-strncpy (suc n) [] = refl
cstr-strncpy (suc n) (c ∷ s) = elim (Bool-cases (c == 0)) [
  | inl e ↦ rw e
  | inr e ↦ rw e (ap (λ l. c ∷ l) (cstr-strncpy n s))
]

-- The copy begins with the text, if it has room for it.
pub take-strncpy : (n : ℕ) (s : List ℕ) → strlen s ≤ n → take (strlen s) (strncpy n s) ≡ cstr s
unfolding strncpy strlen cstr
take-strncpy zero [] h = refl
take-strncpy (suc n) [] h = refl
take-strncpy zero (c ∷ s) h = elim (Bool-cases (c == 0)) [
  | inl e ↦ rw e
  | inr e ↦ absurd (ground (arith, e, h))
]
take-strncpy (suc n) (c ∷ s) h = elim (Bool-cases (c == 0)) [
  | inl e ↦ rw e
  | inr e ↦ rw e (ap (λ l. c ∷ l) (take-strncpy n s (ground (arith, e, h))))
]

-- The terminator ends the reading also where other bytes follow.
pub cstr-append-zero : (s t : List ℕ) → cstr (s ++ (0 ∷ t)) ≡ cstr s
unfolding cstr
cstr-append-zero [] t = refl
cstr-append-zero (c ∷ s) t = ground (arith, cstr-append-zero s t)

pub cstr-cstr : (s : List ℕ) → cstr (cstr s) ≡ cstr s
unfolding cstr
cstr-cstr [] = refl
cstr-cstr (c ∷ s) = ground (arith, cstr-cstr s)

-- A `uint16_t` in the byte order of the host, which is little endian.
abbrev pub bytes16 : ℕ → List ℕ
bytes16 n = (n % 256) ∷ (n / 256) ∷ []

-- An array after its first `n` bytes are replaced by the `n` bytes given.
abbrev pub overwrite : List ℕ → ℕ → List ℕ → List ℕ
overwrite dst n bytes = bytes ++ drop n dst

-- A pointer into the text reads its remainder.
pub cstr-drop : (n : ℕ) (s : List ℕ) → n ≤ strlen s → cstr (drop n s) ≡ drop n (cstr s)
unfolding cstr strlen
cstr-drop zero s h = refl
cstr-drop (suc n) [] h = refl
cstr-drop (suc n) (c ∷ s) h = elim (Bool-cases (c == 0)) [
  | inl e ↦ absurd (ground arith)
  | inr e ↦ rw e (cstr-drop n s (ground arith))
]

-- No byte of a text is its terminator.
abbrev pub NonZero : List ℕ → Type 0
NonZero [] = Unit {0}
NonZero (c ∷ s) = (c ≢ 0) × NonZero s

pub cstr-append : (s t : List ℕ) → NonZero s → cstr (s ++ t) ≡ s ++ cstr t
unfolding cstr
cstr-append [] t n = refl
cstr-append (c ∷ s) t n = ground (arith, cstr-append s t n.1)

pub cstr-of_NonZero : (s : List ℕ) → NonZero s → cstr s ≡ s
unfolding cstr
cstr-of_NonZero [] n = refl
cstr-of_NonZero (c ∷ s) n = ground (arith, cstr-of_NonZero s n.1)
