-- ===== src/Base/Lists.antt =====
-- Lists measured and cut by native numbers, under the library's names.
use Prim.Native.Nat.{ℕ, zero, suc, ◌+◌, ◌-◌, ◌≤◌, ◌<◌, min}
use mathlib.Core.Path.{◌≡◌, refl, sym, ap, ◌∙◌}
use mathlib.Core.List.{List, [], ◌∷◌, ◌++◌}
use native.Mathlib.Omega.{arith}

suc_add : (n m : ℕ) → suc n + m ≡ suc (n + m)
suc_add n m = omega arith

module _ {ℓ} {A : Type ℓ} where
  abbrev pub length : List A → ℕ
  length [] = 0
  length (x ∷ xs) = suc (length xs)

  abbrev pub get_or : List A → ℕ → A → A
  get_or [] i d = d
  get_or (x ∷ xs) zero d = x
  get_or (x ∷ xs) (suc i) d = get_or xs i d

  abbrev pub take : ℕ → List A → List A
  take zero xs = []
  take (suc n) [] = []
  take (suc n) (x ∷ xs) = x ∷ take n xs

  abbrev pub drop : ℕ → List A → List A
  drop zero xs = xs
  drop (suc n) [] = []
  drop (suc n) (x ∷ xs) = drop n xs

  -- A write out of bounds changes nothing.
  abbrev pub set : List A → ℕ → A → List A
  set [] i v = []
  set (x ∷ xs) zero v = v ∷ xs
  set (x ∷ xs) (suc i) v = x ∷ set xs i v

  abbrev pub replicate : ℕ → A → List A
  replicate zero a = []
  replicate (suc n) a = a ∷ replicate n a

  pub length-append : (xs ys : List A) → length (xs ++ ys) ≡ length xs + length ys
  length-append [] ys = omega arith
  length-append (x ∷ xs) ys = omega (arith, length-append xs ys)

  pub length-take : (n : ℕ) (xs : List A) → length (take n xs) ≡ min n (length xs)
  length-take zero xs = omega arith
  length-take (suc n) [] = omega arith
  length-take (suc n) (x ∷ xs) = omega (arith, length-take n xs)

  pub length-drop : (n : ℕ) (xs : List A) → length (drop n xs) ≡ length xs - n
  length-drop zero xs = omega arith
  length-drop (suc n) [] = omega arith
  length-drop (suc n) (x ∷ xs) = omega (arith, length-drop n xs)

  pub length-replicate : (n : ℕ) (a : A) → length (replicate n a) ≡ n
  length-replicate zero a = refl
  length-replicate (suc n) a = ap suc (length-replicate n a)

  pub take-append : (xs ys : List A) (n : ℕ) → length xs ≡ n → take n (xs ++ ys) ≡ xs
  take-append [] ys zero e = refl
  take-append [] ys (suc n) e = absurd (omega arith)
  take-append (x ∷ xs) ys zero e = absurd (omega arith)
  take-append (x ∷ xs) ys (suc n) e = ap (λ l. x ∷ l) (take-append xs ys n (omega arith))

  pub take-append_le : (n : ℕ) (xs ys : List A) → n ≤ length xs → take n (xs ++ ys) ≡ take n xs
  take-append_le zero xs ys h = refl
  take-append_le (suc n) [] ys h = absurd (omega arith)
  take-append_le (suc n) (x ∷ xs) ys h = ap (λ l. x ∷ l) (take-append_le n xs ys (omega arith))

  pub drop-append : (xs ys : List A) (n : ℕ) → length xs ≡ n → drop n (xs ++ ys) ≡ ys
  drop-append [] ys zero e = refl
  drop-append [] ys (suc n) e = absurd (omega arith)
  drop-append (x ∷ xs) ys zero e = absurd (omega arith)
  drop-append (x ∷ xs) ys (suc n) e = drop-append xs ys n (omega arith)

  pub take-of_le : (n : ℕ) (xs : List A) → length xs ≤ n → take n xs ≡ xs
  take-of_le zero [] h = refl
  take-of_le zero (x ∷ xs) h = absurd (omega arith)
  take-of_le (suc n) [] h = refl
  take-of_le (suc n) (x ∷ xs) h = ap (λ l. x ∷ l) (take-of_le n xs (omega arith))

  pub drop-nil : (n : ℕ) → drop n [] ≡ []
  drop-nil zero = refl
  drop-nil (suc n) = refl

module _ {ℓ} {A : Type ℓ} where
  pub length-set : (xs : List A) (i : ℕ) (v : A) → length (set xs i v) ≡ length xs
  length-set [] i v = refl
  length-set (x ∷ xs) zero v = refl
  length-set (x ∷ xs) (suc i) v = ap suc (length-set xs i v)

  pub drop-drop : (n m : ℕ) (xs : List A) → drop m (drop n xs) ≡ drop (n + m) xs
  drop-drop zero m xs = ap (λ (k : ℕ). drop k xs) (omega arith)
  drop-drop (suc n) m [] = rw (drop-nil m, drop-nil (suc n + m)) refl
  drop-drop (suc n) m (x ∷ xs) =
      drop-drop n m xs ∙ ap (λ (k : ℕ). drop k (x ∷ xs)) (sym (suc_add n m))

  pub take-append-drop : (n : ℕ) (xs : List A) → take n xs ++ drop n xs ≡ xs
  take-append-drop zero xs = refl
  take-append-drop (suc n) [] = refl
  take-append-drop (suc n) (x ∷ xs) = ap (λ l. x ∷ l) (take-append-drop n xs)

  pub take-take : (n m : ℕ) (xs : List A) → n ≤ m → take n (take m xs) ≡ take n xs
  take-take zero m xs h = refl
  take-take (suc n) zero xs h = absurd (omega arith)
  take-take (suc n) (suc m) [] h = refl
  take-take (suc n) (suc m) (x ∷ xs) h = ap (λ l. x ∷ l) (take-take n m xs (omega arith))

  pub get_or-append :
      (xs ys : List A) (n i : ℕ) (d : A)
      → length xs ≡ n
      → get_or (xs ++ ys) (n + i) d ≡ get_or ys i d
  get_or-append [] ys zero i d e = ap (λ (k : ℕ). get_or ys k d) (omega arith)
  get_or-append [] ys (suc n) i d e = absurd (omega arith)
  get_or-append (x ∷ xs) ys zero i d e = absurd (omega arith)
  get_or-append (x ∷ xs) ys (suc n) i d e =
      ap (λ (k : ℕ). get_or (x ∷ (xs ++ ys)) k d) (suc_add n i)
      ∙ get_or-append xs ys n i d (omega arith)

  pub take-append_add :
      (xs ys : List A) (n i : ℕ) → length xs ≡ n → take (n + i) (xs ++ ys) ≡ xs ++ take i ys
  take-append_add [] ys zero i e = ap (λ (k : ℕ). take k ys) (omega arith)
  take-append_add [] ys (suc n) i e = absurd (omega arith)
  take-append_add (x ∷ xs) ys zero i e = absurd (omega arith)
  take-append_add (x ∷ xs) ys (suc n) i e =
      ap (λ (k : ℕ). take k (x ∷ (xs ++ ys))) (suc_add n i)
      ∙ ap (λ l. x ∷ l) (take-append_add xs ys n i (omega arith))

  pub set-append :
      (xs ys : List A) (n i : ℕ) (v : A)
      → length xs ≡ n
      → set (xs ++ ys) (n + i) v ≡ xs ++ set ys i v
  set-append [] ys zero i v e = ap (λ (k : ℕ). set ys k v) (omega arith)
  set-append [] ys (suc n) i v e = absurd (omega arith)
  set-append (x ∷ xs) ys zero i v e = absurd (omega arith)
  set-append (x ∷ xs) ys (suc n) i v e =
      ap (λ (k : ℕ). set (x ∷ (xs ++ ys)) k v) (suc_add n i)
      ∙ ap (λ l. x ∷ l) (set-append xs ys n i v (omega arith))

  pub drop-replicate :
      (n m : ℕ) (a : A) → n < m → drop n (replicate m a) ≡ a ∷ replicate (m - suc n) a
  drop-replicate n zero a h = absurd (omega arith)
  drop-replicate zero (suc m) a h = ap (λ (k : ℕ). a ∷ replicate k a) (omega arith)
  drop-replicate (suc n) (suc m) a h =
      drop-replicate n m a (omega arith) ∙ ap (λ (k : ℕ). a ∷ replicate k a) (omega arith)
