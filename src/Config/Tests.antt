-- ===== src/Config/Tests.antt =====
-- Addresses that `Quekka_config_set_address` is given.
use tiny_mon.Base.{ℕ, ◌≡◌, refl, List, [], ◌∷◌, ◌++◌, some, replicate, cstr, arith}
use tiny_mon.Config.{Config, init, set_address, get_ip, get_port}
use tiny_mon.Config.Address.{IsIpText, IsDigits, set_address_roundtrip}

abbrev ip : List ℕ
ip = b'1' ∷ b'0' ∷ b'.' ∷ b'0' ∷ b'.' ∷ b'0' ∷ b'.' ∷ b'7' ∷ []

abbrev port : List ℕ
port = b'8' ∷ b'0' ∷ b'8' ∷ b'0' ∷ []

abbrev fresh : Config
fresh = record { ip = replicate 16 0; port = 0 }

ip-IsIpText : IsIpText ip
ip-IsIpText = (
  ground arith,
  ground arith,
  (
    ground arith,
    ground arith,
    (
      ground arith,
      ground arith,
      (
        ground arith,
        ground arith,
        (
          ground arith,
          ground arith,
          (
            ground arith,
            ground arith,
            (ground arith, ground arith, (ground arith, ground arith, tt)),
          ),
        ),
      ),
    ),
  ),
)

port-IsDigits : IsDigits port
port-IsDigits = (refl, (refl, (refl, (refl, tt))))

set_address_roundtrip_example :
    (c' : Config) × (set_address (init fresh).1 (ip ++ (b':' ∷ port)) ≡ some (0, c'))
    × ((get_ip c' (replicate 16 0)).0 ≡ 0)
    × (cstr (get_ip c' (replicate 16 0)).1 ≡ ip)
    × (get_port c' ≡ 8080)
set_address_roundtrip_example =
    set_address_roundtrip ip port ip-IsIpText (omega arith) (omega arith) port-IsDigits
      (omega arith) (omega arith) fresh (replicate 16 0) (omega arith)
