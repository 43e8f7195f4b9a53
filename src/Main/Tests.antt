-- ===== src/Main/Tests.antt =====
-- The server program with an address and a port on its command line.
use tiny_mon.Base.{ℕ, ◌≡◌, true, List, [], ◌∷◌}
use tiny_mon.Os.{Sys, Reply}
use tiny_mon.Os.Safe.{Safe}
use tiny_mon.Main.{Opt, main}
use tiny_mon.Main.Serves.{IdleCall, main-Idle}

abbrev command_line : List Opt
command_line =
    record { opt = b'i'; optarg = 0x7ffe_0010; text = b'1' ∷ [] }
    ∷ record { opt = b'p'; optarg = 0x7ffe_0020; text = b'8' ∷ b'0' ∷ [] }
    ∷ []

abbrev reply : ℕ → Reply
reply value = record {
  value = value;
  errno = 0;
  peer = record { ip = 0; port = 0 };
  bytes = [];
  ready = [];
}

-- Six calls succeed, then one event arrives, and the next wait fails.
abbrev kernel : Sys
kernel = record {
  script =
      reply 3
      ∷ reply 0
      ∷ reply 0
      ∷ reply 0
      ∷ reply 4
      ∷ reply 0
      ∷ record (reply 1) { ready = record { ptr = 64; events = 1 } ∷ [] }
      ∷ reply 0xffff_ffff
      ∷ [];
  trace = [];
  errno = 0;
  running = 0;
}

main-Idle_example : Safe ⊥ IdleCall [] (λ code t. code ≡ 1) (main true 64 command_line kernel)
main-Idle_example = main-Idle true 64 command_line kernel
