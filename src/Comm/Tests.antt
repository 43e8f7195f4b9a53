-- ===== src/Comm/Tests.antt =====
-- A client that says "hi" and leaves, and a forking server that gets one connection.
use tiny_mon.Base.{ℕ, ◌≡◌, refl, List, [], ◌∷◌, arith, minus_one}
use tiny_mon.Os.{Sys, Reply}
use tiny_mon.Os.Ensures.{Ensures}
use tiny_mon.Os.Holds.{Holds}
use tiny_mon.Os.Endless.{Endless}
use tiny_mon.Comm.{comm_handle_data, socket_connect_with_client}
use tiny_mon.Comm.Session.{Session, Open, comm_handle_data-Session}
use tiny_mon.Comm.Forking.{HoldsOne, ChildEnds, socket_connect_with_client-HoldsOne}

abbrev reply : ℕ → List ℕ → Reply
reply value bytes = record {
  value = value;
  errno = 0;
  peer = record { ip = 0; port = 0 };
  bytes = bytes;
  ready = [];
}

abbrev chat : Sys
chat = record {
  script = reply 2 (b'h' ∷ b'i' ∷ []) ∷ reply 8 [] ∷ reply 0 [] ∷ [];
  trace = [];
  errno = 0;
  running = 0;
}

comm_handle_data-Session_example :
    Ensures (λ code t. (code ≡ 0) × Session 4 [] t.trace) (comm_handle_data 4 chat)
    × Holds (λ t. Open 4 [] t.trace) (λ code t. Session 4 [] t.trace) (comm_handle_data 4 chat)
comm_handle_data-Session_example = comm_handle_data-Session 4 chat

-- `accept` gives 6, `fork` a child, `close` 0; the next `accept` fails.
abbrev visit : Sys
visit = record {
  script = reply 6 [] ∷ reply 1234 [] ∷ reply 0 [] ∷ reply minus_one [] ∷ [];
  trace = [];
  errno = 0;
  running = 0;
}

socket_connect_with_client-HoldsOne_example :
    Endless (HoldsOne []) (ChildEnds 3 []) (socket_connect_with_client 3 visit)
socket_connect_with_client-HoldsOne_example = socket_connect_with_client-HoldsOne 3 visit (
  (λ e. ground (arith, e)),
  ((λ e. ground (arith, e)), ((λ e. ground (arith, e)), ((λ e. refl), tt))),
)
