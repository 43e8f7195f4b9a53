-- ===== src/Log/Heads/Digits.antt =====
-- The decimal digits that the log has, read by `atoi`.
use tiny_mon.Base.{
  ℕ, zero, suc, ◌+◌, ◌-◌, ◌*◌, ◌/◌, ◌%◌, ◌<◌, ◌≡◌, refl, ◌∙◌, ltb, List, [], ◌∷◌, ◌++◌, arith,
  lt→leb, Bool-cases, inl, inr,
}
use tiny_mon.Config.{atoi}
use tiny_mon.Config.Address.{IsDigits, value, atoi-digits}
use tiny_mon.Log.Heads.{digits, print_int}

abbrev pow10 : ℕ → ℕ
pow10 zero = 1
pow10 (suc n) = 10 * pow10 n

IsDigits-append : (s t : List ℕ) → IsDigits s → IsDigits t → IsDigits (s ++ t)
IsDigits-append [] t d e = e
IsDigits-append (c ∷ s) t d e = (d.0, IsDigits-append s t d.1 e)

value-append :
    (acc : ℕ) (s : List ℕ) (c : ℕ) → value acc (s ++ (c ∷ [])) ≡ value acc s * 10 + (c - b'0')
value-append acc [] c = refl
value-append acc (d ∷ s) c = value-append (acc * 10 + (d - b'0')) s c

pub digits-IsDigits : (fuel n : ℕ) → IsDigits (digits fuel n)
unfolding digits
digits-IsDigits zero n = tt
digits-IsDigits (suc fuel) n = elim (Bool-cases (ltb n 10)) [
  | inl e ↦ rw e (ground arith, tt)
  | inr e ↦ rw e (IsDigits-append _ _ (digits-IsDigits fuel (n / 10)) (ground arith, tt))
]

value-digits : (fuel n : ℕ) → n < pow10 fuel → value 0 (digits fuel n) ≡ n
unfolding digits
value-digits zero n lt = omega arith
value-digits (suc fuel) n lt = elim (Bool-cases (ltb n 10)) [
  | inl e ↦ rw e (omega arith)
  | inr e ↦ rw e (
      value-append 0 (digits fuel (n / 10)) (b'0' + n % 10)
      ∙ omega (arith, value-digits fuel (n / 10) (omega arith)))
]

-- `atoi` reads back a number that is not negative.
pub atoi-print_int : (n : ℕ) → n < 0x8000_0000 → atoi (print_int n) ≡ n
unfolding print_int
atoi-print_int n lt = rw (lt→leb 0x8000_0000 n lt) (
    atoi-digits (digits 10 n) (digits-IsDigits 10 n)
    ∙ omega (arith, value-digits 10 n (omega arith)))
