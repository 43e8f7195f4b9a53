-- ===== src/Producer/Tests.antt =====
-- A thread with a connected producer, and the calls on it.
use tiny_mon.Base.{
  ℕ, ◌+◌, ◌*◌, ◌/◌, ◌≤◌, ◌<◌, ◌≡◌, refl, ap, sym, ◌++◌, true, List, [], ◌∷◌, Option, none, some,
  length, map, take, cstr, strlen, arith,
}
use tiny_mon.Base.Memory.{cstr-cstr}
use tiny_mon.Os.{Sys, Reply}
use tiny_mon.Os.Ensures.{Ensures}
use tiny_mon.Quecode.{quecode_success}
use tiny_mon.Message.{payload_max, flag_more}
use tiny_mon.Message.Wire.{wire, wire_topic, wire_flags}
use tiny_mon.Socket.{htons}
use tiny_mon.Config
use tiny_mon.Config.{Config, set_address, set_ip, set_port}
use tiny_mon.Producer
use tiny_mon.Producer.{Producer, Thread, Send, publish}
use tiny_mon.Producer.Connect
use tiny_mon.Producer.Target.{Reaches, init-Reaches_both}
use tiny_mon.Producer.Outcomes.{Outcome, publish-Outcome}
use tiny_mon.Producer.Pieces.{piece, pieces, publish-pieces}
use tiny_mon.Producer.Publish.{All, publish-wire}

abbrev five : Producer
five = record { fd = 5; config = [] }

abbrev idle : Thread
idle = record { g_producer = none; quecode = quecode_success; sent = [] }

abbrev ready : Thread
ready = record { g_producer = some five; quecode = quecode_success; sent = [] }

abbrev topic : List ℕ
topic = b'd' ∷ b'i' ∷ b's' ∷ b'k' ∷ []

abbrev now : List ℕ
now = b'2' ∷ b'0' ∷ b'2' ∷ b'5' ∷ []

abbrev hello : List ℕ
hello = b'h' ∷ b'i' ∷ 0 ∷ []

named : 0 < strlen topic
unfolding strlen
named = omega arith

short : strlen topic < 65535
unfolding strlen
short = omega arith

some_bytes : 0 < strlen hello
unfolding strlen
some_bytes = omega arith

fits : strlen hello < payload_max
unfolding strlen
fits = omega arith

bound : strlen hello ≤ 65536 * payload_max
unfolding strlen
bound = omega arith

publish-wire_example :
    (ss : List Send) × (publish now ready topic hello (strlen hello)
      ≡ Producer.done (0, record ready { sent = ss }))
    × (length ss ≡ (strlen hello + 3942) / 3943)
    × All
        (λ m.
          (length (wire m) ≡ 4096)
          × (wire_topic m ≡ take 4 (cstr topic))
          × (wire_flags m ≡ flag_more))
        ss
publish-wire_example = publish-wire now topic hello ready five refl named short

-- The replies of a kernel that makes the socket 5 and connects it.
abbrev reply : ℕ → Reply
reply value = record {
  value = value;
  errno = 0;
  peer = record { ip = 0; port = 0 };
  bytes = [];
  ready = [];
}

abbrev kernel : Sys
kernel = record { script = reply 5 ∷ reply 0 ∷ []; trace = []; errno = 0; running = 0 }

abbrev config : Config
config = record { ip = b'1' ∷ 0 ∷ []; port = 8080 }

-- A reading of addresses that looks at the text only: the number of its characters.
abbrev text_length : List ℕ → Option ℕ
text_length s = some (length (cstr s))

text_length-cstr : (s : List ℕ) → text_length s ≡ text_length (cstr s)
text_length-cstr s = ap (λ l. some (length l)) (sym (cstr-cstr s))

abbrev localhost : List ℕ
localhost = b'1' ∷ b'2' ∷ b'7' ∷ b'.' ∷ b'1' ∷ []

abbrev port : List ℕ
port = b'9' ∷ b'0' ∷ []

init-Reaches_both_example :
    (c1 : Config) × (set_address (Config.init config).1 (localhost ++ (b':' ∷ port)) ≡ some (0, c1))
    × Ensures (Reaches 5 (htons 90) kernel) (Connect.init text_length true idle c1 kernel)
    × Ensures (Reaches 5 (htons (htons 90)) kernel) (
        Connect.init text_length true idle
          (set_port (set_ip (Config.init config).1 localhost).1 port).1
          kernel)
unfolding cstr
init-Reaches_both_example =
    init-Reaches_both text_length text_length-cstr true idle refl localhost port config kernel
      (omega arith) (omega arith) (omega arith) (refl, (refl, tt)) (omega arith) (omega arith)

publish-Outcome_example : Outcome ready topic hello 2 (publish now ready topic hello 2)
publish-Outcome_example = publish-Outcome now topic hello 2 ready

publish-pieces_example :
    (ss : List Send) × (publish now ready topic hello (strlen hello)
      ≡ Producer.done (0, record ready { sent = ss }))
    × (map piece ss ≡ pieces (cstr hello) 0 ((strlen hello + 3942) / 3943))
publish-pieces_example = publish-pieces now topic hello ready five refl named short bound
