-- ===== src/Config.antt =====
-- include/quekka/Quekka_config.h and src/quekka/Quekka_config.c. Of the C library `sscanf` with the
-- format "%63[^:]:%15s" and `atoi`, whose value fits a `long`, are written out here.
pub mod Address
pub mod Ip
pub mod Tests
use tiny_mon.Base.{
  ℕ, zero, suc, ◌+◌, ◌-◌, ◌*◌, ◌%◌, Bool, true, false, not, ◌&&◌, ◌||◌, Option, none, some, List,
  [], ◌∷◌, ◌==◌, leb, ltb, if◌then◌else◌, replicate, length, cstr, strlen, strncpy, overwrite,
  uint16, minus_one,
}
use tiny_mon.Socket.{htons}

abbrev pub inet_addrstrlen : ℕ
inet_addrstrlen = 16

pub record Config : Type 0 where
  pub ip : List ℕ
  pub port : ℕ

unfoldable pub init : Config → ℕ × Config
init c = (0, record { ip = replicate inet_addrstrlen 0; port = 0 })

abbrev pub is_space : ℕ → Bool
is_space c = c == b' ' || (leb 9 c && leb c 13)

abbrev pub is_digit : ℕ → Bool
is_digit c = leb b'0' c && leb c b'9'

unfoldable pub skip_space : List ℕ → List ℕ
skip_space [] = []
skip_space (c ∷ s) = if is_space c then skip_space s else c ∷ s

-- `%n[^:]`: at most `n` characters before a colon or the end, and what follows them.
unfoldable pub scan_until_colon : ℕ → List ℕ → List ℕ × List ℕ
scan_until_colon zero s = ([], s)
scan_until_colon (suc n) [] = ([], [])
scan_until_colon (suc n) (c ∷ s) =
    let (taken, rest) = scan_until_colon n s in
    if c == b':' || c == 0 then ([], c ∷ s) else (c ∷ taken, rest)

-- `%ns` behind the white space: at most `n` characters that are not white space.
unfoldable pub scan_word : ℕ → List ℕ → List ℕ
scan_word zero s = []
scan_word (suc n) [] = []
scan_word (suc n) (c ∷ s) =
    let rest = scan_word n s in if is_space c || c == 0 then [] else c ∷ rest

-- What the call returns, and the texts that it stores.
pub record Scanned : Type 0 where
  pub matched : ℕ
  pub ip : List ℕ
  pub port : List ℕ

abbrev pub port_scanned : List ℕ → List ℕ → Scanned
port_scanned ip [] = record { matched = 1; ip = ip; port = [] }
port_scanned ip (c ∷ word) = record { matched = 2; ip = ip; port = c ∷ word }

abbrev pub colon_scanned : List ℕ → List ℕ → Scanned
colon_scanned ip [] = record { matched = 1; ip = ip; port = [] }
colon_scanned ip (c ∷ rest) =
    if c == b':'
    then port_scanned ip (scan_word 15 (skip_space rest))
    else record { matched = 1; ip = ip; port = [] }

abbrev pub ip_scanned : List ℕ → List ℕ × List ℕ → Scanned
ip_scanned s ([], rest) = record {
  matched = if strlen s == 0 then minus_one else 0;
  ip = [];
  port = [];
}
ip_scanned s (c ∷ ip, rest) = colon_scanned (c ∷ ip) rest

unfoldable pub sscanf : List ℕ → Scanned
sscanf s = ip_scanned s (scan_until_colon 63 s)

unfoldable pub decimal : ℕ → List ℕ → ℕ
decimal acc [] = acc
decimal acc (c ∷ s) =
    let rest = decimal (acc * 10 + (c - b'0')) s in if is_digit c then rest else acc

-- A number as an `int`, with its sign.
abbrev pub signed : List ℕ → ℕ
signed [] = 0
signed (c ∷ s) =
    if c == b'-'
    then (0x1_0000_0000 - decimal 0 s % 0x1_0000_0000) % 0x1_0000_0000
    else if c == b'+'
    then decimal 0 s % 0x1_0000_0000
    else decimal 0 (c ∷ s) % 0x1_0000_0000

unfoldable pub atoi : List ℕ → ℕ
atoi s = signed (skip_space s)

-- `none` is a write past the end of `_ip`: the two buffers of the scan are larger than the array.
unfoldable pub set_address : Config → List ℕ → Option (ℕ × Config)
set_address c address =
    let r = sscanf address in
    if ltb inet_addrstrlen (length r.ip)
    then none
    else some (
      if r.matched == 2 then 0 else minus_one,
      record { ip = overwrite c.ip (length r.ip) r.ip; port = uint16 (atoi r.port) },
    )

unfoldable pub set_ip : Config → List ℕ → ℕ × Config
set_ip c ip = (0, record c { ip = strncpy inet_addrstrlen ip })

unfoldable pub set_port : Config → List ℕ → ℕ × Config
set_port c port = (0, record c { port = htons (atoi port) })

-- The result, and the caller's buffer.
unfoldable pub get_ip : Config → List ℕ → ℕ × List ℕ
get_ip c ip =
    if ltb 0 (strlen c.ip) then (0, overwrite ip inet_addrstrlen c.ip) else (minus_one, ip)

unfoldable pub get_port : Config → ℕ
get_port c = c.port
