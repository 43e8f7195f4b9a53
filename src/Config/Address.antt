-- ===== src/Config/Address.antt =====
-- `Quekka_config_set_address` on an address of the documented form, and what the getters then return.
use tiny_mon.Base.{
  ℕ, zero, suc, ◌+◌, ◌-◌, ◌*◌, ◌%◌, ◌≤◌, ◌<◌, ◌≡◌, ◌≢◌, refl, ap, ◌∙◌, true, none, some, List, [],
  ◌∷◌, ◌++◌, length, drop, replicate, cstr, strlen, arith, overwrite, append_assoc, append-nil,
  le→ltb, lt→ltb, length-append, drop-replicate,
}
use tiny_mon.Base.Memory.{NonZero, cstr-append, strlen-eq-length-cstr}
use tiny_mon.Socket.{htons}
use tiny_mon.Config.{
  Config, init, is_digit, skip_space, scan_until_colon, scan_word, sscanf, ip_scanned, port_scanned,
  decimal, signed, atoi, set_address, set_port, get_ip, get_port,
}

-- The text of an address: no colon and no terminator.
abbrev pub IsIpText : List ℕ → Type 0
IsIpText [] = Unit {0}
IsIpText (c ∷ s) = (c ≢ b':') × (c ≢ 0) × IsIpText s

abbrev pub IsDigits : List ℕ → Type 0
IsDigits [] = Unit {0}
IsDigits (c ∷ s) = (is_digit c ≡ true) × IsDigits s

-- The number that digits stand for, behind those that gave `acc`.
abbrev pub value : ℕ → List ℕ → ℕ
value acc [] = acc
value acc (c ∷ s) = value (acc * 10 + (c - b'0')) s

scan_until_colon-append :
    (n : ℕ) (ip rest : List ℕ)
    → IsIpText ip
    → length ip ≤ n
    → scan_until_colon n (ip ++ (b':' ∷ rest)) ≡ (ip, b':' ∷ rest)
unfolding scan_until_colon
scan_until_colon-append zero [] rest i h = refl
scan_until_colon-append (suc n) [] rest i h = refl
scan_until_colon-append zero (c ∷ ip) rest i h = absurd (omega arith)
scan_until_colon-append (suc n) (c ∷ ip) rest i h =
    ground (arith, scan_until_colon-append n ip rest i.2)

scan_word-digits : (n : ℕ) (s : List ℕ) → IsDigits s → length s ≤ n → scan_word n s ≡ s
unfolding scan_word
scan_word-digits zero [] d h = refl
scan_word-digits (suc n) [] d h = refl
scan_word-digits zero (c ∷ s) d h = absurd (omega arith)
scan_word-digits (suc n) (c ∷ s) d h = ground (arith, scan_word-digits n s d.1)

skip_space-digits : (s : List ℕ) → IsDigits s → skip_space s ≡ s
unfolding skip_space
skip_space-digits [] d = refl
skip_space-digits (c ∷ s) d = ground arith

decimal-value : (acc : ℕ) (s : List ℕ) → IsDigits s → decimal acc s ≡ value acc s
unfolding decimal
decimal-value acc [] d = refl
decimal-value acc (c ∷ s) d = ground (arith, decimal-value (acc * 10 + (c - b'0')) s d.1)

signed-digits : (s : List ℕ) → IsDigits s → signed s ≡ value 0 s % 0x1_0000_0000
signed-digits [] d = refl
signed-digits (c ∷ s) d = ground (arith, decimal-value 0 (c ∷ s) d)

pub atoi-digits : (s : List ℕ) → IsDigits s → atoi s ≡ value 0 s % 0x1_0000_0000
unfolding atoi
atoi-digits s d = rw (skip_space-digits s d) (signed-digits s d)

port_scanned-digits :
    (ip s : List ℕ) → 0 < length s → port_scanned ip s ≡ record { matched = 2; ip = ip; port = s }
port_scanned-digits ip [] h = absurd (omega arith)
port_scanned-digits ip (c ∷ s) h = refl

ip_scanned-colon :
    (s ip rest : List ℕ)
    → 0 < length ip
    → ip_scanned s (ip, b':' ∷ rest) ≡ port_scanned ip (scan_word 15 (skip_space rest))
ip_scanned-colon s [] rest h = absurd (omega arith)
ip_scanned-colon s (c ∷ ip) rest h = refl

pub NonZero-of_ip : (s : List ℕ) → IsIpText s → NonZero s
NonZero-of_ip [] i = tt
NonZero-of_ip (c ∷ s) i = (i.1, NonZero-of_ip s i.2)

module _ (ip port : List ℕ) (text : IsIpText ip) (some_ip : 0 < length ip)
    (ip_fits : length ip ≤ 16) (digits : IsDigits port) (some_port : 0 < length port)
    (port_fits : length port ≤ 15) where
  abbrev address : List ℕ
  address = ip ++ (b':' ∷ port)

  sscanf-address : sscanf address ≡ record { matched = 2; ip = ip; port = port }
  unfolding sscanf
  sscanf-address =
      ap (ip_scanned address) (scan_until_colon-append 63 ip port text (omega arith))
      ∙ ip_scanned-colon address ip port some_ip
      ∙ rw (skip_space-digits port digits, scan_word-digits 15 port digits port_fits)
          (port_scanned-digits ip port some_port)

  abbrev after : Config → Config
  after c = record { ip = overwrite c.ip (length ip) ip; port = value 0 port % 0x1_0000 }

  set_address-after : (c : Config) → set_address c address ≡ some (0, after c)
  unfolding set_address
  set_address-after c =
      rw (sscanf-address, le→ltb 16 (length ip) ip_fits, atoi-digits port digits)
        (ap (λ (n : ℕ). some (0, record { ip = overwrite c.ip (length ip) ip; port = n }))
          (omega arith))

  -- An address "ip:port", of 1 to 16 characters without a colon and 1 to 15 digits, sets both fields
  -- and returns 0. The stored text is the new one with what it
  -- does not cover of the old one behind it; the port is the number modulo 2^16, in the byte order of the host.
  pub set_address_lem :
      (c : Config)
      → (c' : Config) × (set_address c address ≡ some (0, c'))
        × (cstr c'.ip ≡ ip ++ cstr (drop (length ip) c.ip))
        × (get_port c' ≡ value 0 port % 0x1_0000)
  unfolding get_port
  set_address_lem c = (
    after c,
    set_address-after c,
    cstr-append ip (drop (length ip) c.ip) (NonZero-of_ip ip text),
    refl,
  )

  positive : (t : List ℕ) → 0 < strlen (ip ++ t)
  positive t = omega (
    arith,
    strlen-eq-length-cstr (ip ++ t),
    ap length (cstr-append ip t (NonZero-of_ip ip text)),
    length-append ip (cstr t),
  )

  -- After `Quekka_config_init` and an address "ip:port", of 1 to 15 characters without a colon and 1 to
  -- 15 digits, the getters return what the address says: the text, and the number modulo 2^16.
  pub set_address_roundtrip :
      (c : Config) (out : List ℕ)
      → length ip < 16
      → (c' : Config) × (set_address (init c).1 address ≡ some (0, c'))
        × ((get_ip c' out).0 ≡ 0)
        × (cstr (get_ip c' out).1 ≡ ip)
        × (get_port c' ≡ value 0 port % 0x1_0000)
  unfolding init get_ip get_port cstr
  set_address_roundtrip c out room = (
    after (init c).1,
    set_address-after (init c).1,
    rw (lt→ltb 0 _ (positive (drop (length ip) (replicate 16 0)))),
    rw (lt→ltb 0 _ (positive (drop (length ip) (replicate 16 0)))) (
        ap cstr (append_assoc ip (drop (length ip) (replicate 16 0)) (drop 16 out))
        ∙ cstr-append ip (drop (length ip) (replicate 16 0) ++ drop 16 out) (NonZero-of_ip ip text)
        ∙ ap (λ l. ip ++ cstr (l ++ drop 16 out)) (drop-replicate (length ip) 16 0 room)
        ∙ append-nil ip),
    refl,
  )

  -- For 1 to 15 digits `Quekka_config_set_port` stores the number that `Quekka_config_set_address`
  -- stores of an address that ends in them, with its two bytes changed over.
  pub set_port-set_address :
      (c : Config)
      → (c' : Config) × (set_address c address ≡ some (0, c'))
        × (get_port (set_port c port).1 ≡ htons (get_port c'))
  unfolding get_port set_port
  set_port-set_address c =
      (after c, set_address-after c, rw (atoi-digits port digits) (omega arith))

port_scanned-ip : (ip word : List ℕ) → (port_scanned ip word).ip ≡ ip
port_scanned-ip ip [] = refl
port_scanned-ip ip (c ∷ word) = refl

sscanf-ip :
    (ip rest : List ℕ)
    → IsIpText ip
    → 0 < length ip
    → length ip ≤ 63
    → (sscanf (ip ++ (b':' ∷ rest))).ip ≡ ip
unfolding sscanf
sscanf-ip ip rest text some_ip fits =
    ap (λ p. (ip_scanned (ip ++ (b':' ∷ rest)) p).ip) (scan_until_colon-append 63 ip rest text fits)
    ∙ ap (λ r. r.ip) (ip_scanned-colon (ip ++ (b':' ∷ rest)) ip rest some_ip)
    ∙ port_scanned-ip ip _

-- A text of 17 to 63 characters before the first colon is written past the end of the array.
pub set_address_overflow :
    (c : Config) (ip rest : List ℕ)
    → IsIpText ip
    → 16 < length ip
    → length ip ≤ 63
    → set_address c (ip ++ (b':' ∷ rest)) ≡ none
unfolding set_address
set_address_overflow c ip rest text long fits =
    rw (sscanf-ip ip rest text (omega arith) fits, lt→ltb 16 (length ip) long)
