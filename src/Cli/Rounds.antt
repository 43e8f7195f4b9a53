-- ===== src/Cli/Rounds.antt =====
-- One round of the loop of src/cli/quekka-cli.cpp, for the bytes that arrive.
use tiny_mon.Base.{
  ℕ, zero, suc, ◌+◌, ◌-◌, ◌*◌, ◌<◌, ◌≤◌, ◌≡◌, refl, ap, ap₂, ◌∙◌, Option, some, List, [], ◌∷◌, ◌++◌,
  length, length-take, take, drop, get_or, replicate, overwrite, cstr, strlen, arith, le→ltb,
  lt→ltb, lt→leb, ==_ne,
}
use tiny_mon.Os.{Sys, Call, Reply, done, fault, answered, continue}
use tiny_mon.Os.Ensures.{sys-cons}
use tiny_mon.Epoll.{Handler}
use tiny_mon.Message.Wire.{read16}
use tiny_mon.Cli.{Shown, Heap, process_quekka_data, receive_into, receive_body, receive_loop}

get_or-take : (n i : ℕ) (xs : List ℕ) → i < n → get_or (take n xs) i 0 ≡ get_or xs i 0
get_or-take zero i xs lt = absurd (omega arith)
get_or-take (suc n) i [] lt = refl
get_or-take (suc n) zero (x ∷ xs) lt = refl
get_or-take (suc n) (suc i) (x ∷ xs) lt = get_or-take n i xs (omega arith)

get_or-append_left :
    (i : ℕ) (xs ys : List ℕ) → i < length xs → get_or (xs ++ ys) i 0 ≡ get_or xs i 0
get_or-append_left i [] ys lt = absurd (omega arith)
get_or-append_left zero (x ∷ xs) ys lt = refl
get_or-append_left (suc i) (x ∷ xs) ys lt = get_or-append_left i xs ys (omega arith)

drop-get_or : (i : ℕ) (xs : List ℕ) → i < length xs → drop i xs ≡ get_or xs i 0 ∷ drop (suc i) xs
drop-get_or i [] lt = absurd (omega arith)
drop-get_or zero (x ∷ xs) lt = refl
drop-get_or (suc i) (x ∷ xs) lt = drop-get_or i xs (omega arith)

take-cons : (n x : ℕ) (xs : List ℕ) → 0 < n → take n (x ∷ xs) ≡ x ∷ take (n - 1) xs
take-cons zero x xs lt = absurd (omega arith)
take-cons (suc n) x xs lt = ap (λ (k : ℕ). x ∷ take k xs) (omega arith)

process_zero :
    (l : List ℕ) (shown : Shown) (t : Sys)
    → process_quekka_data (0 ∷ l) shown t ≡ done (shown ++ ([] ∷ [])) t
unfolding process_quekka_data cstr strlen
process_zero l shown t = rw (==_ne 0 (suc (length l)) (omega arith)) refl

-- A reply to `recv`: how many bytes it moved, of those that have arrived.
abbrev pub received : Reply → ℕ → List ℕ → Reply
received r n bytes = record r { value = n; bytes = bytes }

module _ (header w : List ℕ) (long : 152 ≤ length w) where
  -- The buffer of the header when its 152 bytes have arrived.
  abbrev header_of : List ℕ
  header_of = overwrite header 152 (take 152 w)

  header_of-get_or : (i : ℕ) → i < 152 → get_or header_of i 0 ≡ get_or w i 0
  header_of-get_or i lt =
      get_or-append_left i (take 152 w) (drop 152 header) (omega (arith, length-take 152 w))
      ∙ get_or-take 152 i w lt

  header_of-read16 : read16 header_of 148 ≡ read16 w 148
  header_of-read16 =
      ap₂ (λ x y. x + 256 * y) (header_of-get_or 148 (omega arith))
        (header_of-get_or 149 (omega arith))

-- One round of the loop, up to the block for the body.
module _ (malloc : Heap) (handler : Option Handler) (fuel : ℕ) (header : List ℕ) (shown : Shown)
    (s : Sys) (w block : List ℕ) (r : Reply) (n : ℕ) (rest : List Reply)
    (script : s.script ≡ received r 152 w ∷ rest) (long : 152 ≤ length w)
    (length_n : read16 w 148 ≡ n) (got : (t : Sys) → malloc t (n + 1) ≡ some block) where
  abbrev after_header : Sys
  after_header = answered (Call.recv 0 152) s (received r 152 w) rest

  receive_loop-header :
      receive_loop malloc handler (suc fuel) header shown s
      ≡ receive_into handler n
          (some block)
          (receive_loop malloc handler fuel (header_of header w long))
          shown
          after_header
  unfolding receive_loop receive_body
  receive_loop-header = rw (sys-cons (Call.recv 0 152) s (received r 152 w) rest script) (
      ap
        (λ m.
          receive_into handler m (malloc after_header (m + 1))
            (receive_loop malloc handler fuel (header_of header w long)) shown after_header)
        (header_of-read16 header w long ∙ length_n)
      ∙ ap
          (λ o.
            receive_into handler n o (receive_loop malloc handler fuel (header_of header w long))
              shown after_header)
          (got after_header))

  pub receive_loop-overflow : n < 8 → receive_loop malloc handler (suc fuel) header shown s ≡ fault
  unfolding receive_into
  receive_loop-overflow small = receive_loop-header ∙ rw (lt→ltb (n + 1) 9 (omega arith)) refl

-- One round of the loop with a body.
module _ (malloc : Heap) (handler : Option Handler) (fuel : ℕ) (header : List ℕ) (shown : Shown)
    (s : Sys) (w block : List ℕ) (r r' : Reply) (n : ℕ) (rest : List Reply)
    (script : s.script ≡ received r 152 w ∷ received r' (n - 1) (drop 152 w) ∷ rest)
    (long : 152 ≤ length w) (length_n : read16 w 148 ≡ n)
    (got : (t : Sys) → malloc t (n + 1) ≡ some block) (least : 8 ≤ n) (most : n < 65536) where
  abbrev had_header : Sys
  had_header =
      after_header malloc handler fuel header shown s w block r n _ script long length_n got

  abbrev buffer : List ℕ
  buffer = overwrite (overwrite block 9 (replicate 9 0)) (n - 1) (take (n - 1) (drop 152 w))

  abbrev after_body : Sys
  after_body = answered (Call.recv 0 (n - 1)) had_header (received r' (n - 1) (drop 152 w)) rest

  receive_into-body :
      receive_into handler n
        (some block)
        (receive_loop malloc handler fuel (header_of header w long))
        shown
        had_header
      ≡ continue
          (process_quekka_data buffer shown after_body)
          (receive_loop malloc handler fuel (header_of header w long))
  unfolding receive_into answered
  receive_into-body =
      rw
        (
          le→ltb (n + 1) 9 (omega arith),
          sys-cons (Call.recv 0 (n - 1)) had_header (received r' (n - 1) (drop 152 w)) rest refl,
          ==_ne (n - 1) 0 (omega arith),
          lt→leb 0x8000_0000 (n - 1) (omega arith),
        )
        refl

  -- If the body begins with a terminator, the text that is shown is empty.
  pub receive_loop-empty :
      get_or w 152 0 ≡ 0
      → 152 < length w
      → receive_loop malloc handler (suc fuel) header shown s
        ≡ receive_loop malloc handler fuel (header_of header w long) (shown ++ ([] ∷ [])) after_body
  receive_loop-empty zero_flag longer =
      receive_loop-header malloc handler fuel header shown s w block r n _ script long length_n got
      ∙ receive_into-body
      ∙ ap (λ m. continue m (receive_loop malloc handler fuel (header_of header w long)))
          (ap
              (λ l.
                process_quekka_data (overwrite (overwrite block 9 (replicate 9 0)) (n - 1) l) shown
                  after_body)
              (ap (take (n - 1)) (drop-get_or 152 w longer ∙ ap (λ x. x ∷ drop 153 w) zero_flag)
                ∙ take-cons (n - 1) 0 (drop 153 w) (omega arith))
            ∙ process_zero _ shown after_body)
