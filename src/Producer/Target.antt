-- ===== src/Producer/Target.antt =====
-- The address that a producer of src/quekka/Quekka_producer.c connects to, by the two ways of
-- src/quekka/Quekka_config.c to set it.
use tiny_mon.Base.{
  ℕ, ◌%◌, ◌≤◌, ◌<◌, ◌≡◌, refl, ap, ◌∙◌, Bool, false, Option, none, some, List, ◌∷◌, ◌++◌, length,
  cstr, arith, take-of_le, is_negative, append-nil, drop-replicate,
}
use tiny_mon.Base.Memory.{cstr-strncpy, cstr-of_NonZero}
use tiny_mon.Os.{Sys, Call, Reply}
use tiny_mon.Os.Ensures
use tiny_mon.Os.Ensures.{Ensures}
use tiny_mon.Socket.{htons, socket_set_server_address}
use tiny_mon.Config
use tiny_mon.Config.{Config, set_address, set_ip, set_port, get_port}
use tiny_mon.Config.Address.{IsIpText, IsDigits, value, atoi-digits, set_address_lem, NonZero-of_ip}
use tiny_mon.Producer.{Producer, Thread}
use tiny_mon.Producer.Connect
use tiny_mon.Producer.Connect.{Connected, init-Connected}

-- A call that returns a producer has made a socket and connected it to this address, whose port is in
-- the order of the network.
abbrev pub Reaches : (ip port : ℕ) → Sys → Option Producer × Thread → Sys → Type 0
Reaches ip port s (none, t) s' = Unit {0}
Reaches ip port s (some p, t) s' =
    (made connected : Reply) × (s'.trace
      ≡ (Call.connect p.fd (record { ip = ip; port = port }), connected)
        ∷ (Call.socket, made)
        ∷ s.trace)
    × (is_negative connected.value ≡ false)
    × (t.g_producer ≡ some p)

-- What `inet_pton` stores for a text.
abbrev pub parsed : Option ℕ → ℕ
parsed none = 0
parsed (some ip) = ip

parsed_lem : (o : Option ℕ) → elim o as (λ x. ℕ) [ none ↦ 0 | some ip ↦ ip ] ≡ parsed o
parsed_lem none = refl
parsed_lem (some ip) = refl

module _ (inet_pton : List ℕ → Option ℕ)
    (reads_text : (s : List ℕ) → inet_pton s ≡ inet_pton (cstr s)) (memory : Bool) (t : Thread)
    (fresh : t.g_producer ≡ none) where
  server_address-text :
      (config : Config) (text : List ℕ) (port : ℕ)
      → cstr config.ip ≡ text
      → config.port ≡ port
      → socket_set_server_address inet_pton config.ip config.port
        ≡ record { ip = parsed (inet_pton text); port = htons port }
  unfolding socket_set_server_address
  server_address-text config text port same stored =
      rw (reads_text config.ip, same)
        (λ i. record { ip = parsed_lem (inet_pton text) i; port = htons (stored i) })

  init-Reaches :
      (config : Config) (text : List ℕ) (port : ℕ) (s : Sys)
      → cstr config.ip ≡ text
      → config.port ≡ port
      → Ensures
          (Reaches (parsed (inet_pton text)) (htons port) s)
          (Connect.init inet_pton memory t config s)
  init-Reaches config text port s same stored =
      Ensures.weaken (init-Connected inet_pton memory t config s fresh) reached
    where
      reached :
          (r : Option Producer × Thread) (s' : Sys)
          → ((p : Producer)
              → r.0 ≡ some p
              → Connected inet_pton config s p s' × (r.1.g_producer ≡ some p))
          → Reaches (parsed (inet_pton text)) (htons port) s r s'
      reached (none, t') s' gives = tt
      reached (some p, t') s' gives =
          let (c, kept) = gives p refl in
          (
            c.made,
            c.connected,
            rw (server_address-text config text port same stored) at c.trace,
            c.succeeded,
            kept,
          )

  -- A configuration gets an address of 1 to 15 characters without a colon and a port of 1 to 15 digits.
  -- Let `inet_pton` read its argument as a text, and let the thread have no producer. If the address is
  -- set as "ip:port", a call that returns a producer has connected it to that address and port. If the
  -- same text and digits are set by `Quekka_config_set_ip` and `Quekka_config_set_port`, it has
  -- connected to the address, but to the port with its two bytes changed over.
  pub init-Reaches_both :
      (ip port : List ℕ) (c : Config) (s : Sys)
      → IsIpText ip
      → 0 < length ip
      → length ip < 16
      → IsDigits port
      → 0 < length port
      → length port ≤ 15
      → (c1 : Config) × (set_address (Config.init c).1 (ip ++ (b':' ∷ port)) ≡ some (0, c1))
        × Ensures
            (Reaches (parsed (inet_pton ip)) (htons (value 0 port % 0x1_0000)) s)
            (Connect.init inet_pton memory t c1 s)
        × Ensures
            (Reaches (parsed (inet_pton ip)) (htons (htons (value 0 port % 0x1_0000))) s)
            (Connect.init inet_pton memory t (set_port (set_ip (Config.init c).1 ip).1 port).1 s)
  unfolding Config.init set_ip set_port get_port cstr
  init-Reaches_both ip port c s text some_ip room digits some_port fits =
      let (c1, set, at, number) =
        set_address_lem ip port text some_ip (omega arith) digits some_port fits
          (Config.init c).1 in
      (
        c1,
        set,
        init-Reaches c1 ip (value 0 port % 0x1_0000) s
            (at ∙ ap (λ l. ip ++ cstr l) (drop-replicate (length ip) 16 0 room) ∙ append-nil ip)
            number,
        init-Reaches (set_port (set_ip (Config.init c).1 ip).1 port).1 ip
            (htons (value 0 port % 0x1_0000)) s
            (cstr-strncpy 16 ip
              ∙ rw (cstr-of_NonZero ip (NonZero-of_ip ip text)) (take-of_le 16 ip (omega arith)))
            (rw (atoi-digits port digits) (omega arith)),
      )
