-- ===== src/Broker/Tests.antt =====
-- The server in C++ with a port on its command line.
use tiny_mon.Base.{ℕ, ◌≡◌, refl, true, List, [], ◌∷◌}
use tiny_mon.Os.{Sys, Reply}
use tiny_mon.Os.Safe.{Safe}
use tiny_mon.Epoll.Safe.{WaitFailed}
use tiny_mon.Main.{Opt}
use tiny_mon.Config.{atoi, decimal, skip_space}
use tiny_mon.Broker.{initial, process_args, main}
use tiny_mon.Broker.Runs.{BrokerCall, Listening, main-Listening}

abbrev command_line : List Opt
command_line = record { opt = b'p'; optarg = 0x7ffe_0020; text = b'8' ∷ b'0' ∷ [] } ∷ []

abbrev reply : ℕ → Reply
reply value = record {
  value = value;
  errno = 0;
  peer = record { ip = 0; port = 0 };
  bytes = [];
  ready = [];
}

-- Six calls succeed, one event arrives that finds the end of the input, and the next wait fails.
abbrev kernel : Sys
kernel = record {
  script =
      reply 3
      ∷ reply 0
      ∷ reply 0
      ∷ reply 0
      ∷ reply 4
      ∷ reply 0
      ∷ record (reply 1) { ready = record { ptr = 0; events = 1 } ∷ [] }
      ∷ reply 0
      ∷ reply 0
      ∷ reply 0
      ∷ reply 0xffff_ffff
      ∷ [];
  trace = [];
  errno = 0;
  running = 0;
}

port_80 : (process_args command_line initial).1.quekka_binding_port ≡ 80
unfolding process_args atoi decimal skip_space
port_80 = refl

main-Listening_example :
    Safe ⊥
      (BrokerCall (process_args command_line initial).1.quekka_binding_port)
      []
      (λ code t.
        (code ≡ 0)
        × WaitFailed t
        × Listening (process_args command_line initial).1.quekka_binding_port [] t)
      (main true command_line kernel)
main-Listening_example = main-Listening true command_line kernel
