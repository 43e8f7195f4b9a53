-- ===== src/Server/Echo/Tests.antt =====
-- The server that sends back, with one client.
use tiny_mon.Base.{ℕ, ◌≡◌, refl, ap, none, some, List, [], ◌∷◌, arith, minus_one}
use tiny_mon.Os.{Sys, Reply, Call, Event}
use tiny_mon.Os.Descriptors.{live}
use tiny_mon.Os.Ensures
use tiny_mon.Os.Ensures.{Ensures, sys-Answered}
use tiny_mon.Os.Holds.{Holds}
use tiny_mon.Clients.{Info, new_info}
use tiny_mon.Clients.HeapTable.Samples.{table, single_table, single_table-Shows}
use tiny_mon.Server.{Server, Callbacks}
use tiny_mon.Server.Lifecycle.{socket_server_start, socket_server_send}
use tiny_mon.Server.Owns.{Polite, quiet}
use tiny_mon.Server.Echo.{Echoes, EchoesSoFar, Echoing, send_back}
use tiny_mon.Server.Echo.Loop.{socket_server_start-Echoes}

abbrev callbacks : Callbacks
callbacks = record {
  on_start = none;
  on_stop = none;
  on_connection = none;
  on_disconnected = none;
  on_received = some send_back;
}

callbacks-Polite : Polite callbacks
unfolding socket_server_send
callbacks-Polite = record {
  on_start = λ s. Ensures.ends (omega arith, refl);
  on_stop = λ s. Ensures.ends (omega arith, refl);
  on_connection = λ i s. Ensures.ends (omega arith, refl);
  on_disconnected = λ i s. Ensures.ends (omega arith, refl);
  on_received = λ i bytes s.
      Ensures.bind
        (Ensures.bind (sys-Answered (Call.send i.fd bytes) s)
          λ r t a. Ensures.ends (quiet a (ap live a.trace)))
        λ n t q. Ensures.ends q;
}

callbacks-Echoing : (old : List (Call × Reply)) → Echoing old callbacks
callbacks-Echoing old = record {
  on_start = λ s e. Holds.ends e;
  on_stop = λ s e. Holds.ends e;
  on_connection = λ i s e. Holds.ends e;
  on_disconnected = λ i s e. Holds.ends e;
  on_received = refl;
}

abbrev guest : Info
guest = new_info 7 (record { ip = 1; port = 9 })

abbrev server : Server table.Table
server = record {
  listen_fd = 3;
  epoll = some (record { epoll_fd = 4 });
  client_mgr = single_table guest;
  addr = record { ip = 0; port = 0 };
  callbacks = callbacks;
}

abbrev reply : ℕ → List ℕ → Reply
reply value bytes = record {
  value = value;
  errno = 11;
  peer = record { ip = 0; port = 0 };
  bytes = bytes;
  ready = [];
}

abbrev event : Event
event = record { ptr = 7; events = 1 }

-- The client 7 sends "hi".
abbrev kernel : Sys
kernel = record {
  script =
      record (reply 1 []) { ready = event ∷ [] }
      ∷ reply 2 (b'h' ∷ b'i' ∷ [])
      ∷ reply 2 []
      ∷ reply minus_one []
      ∷ [];
  trace =
      (Call.accept 3, reply 7 [])
      ∷ (Call.epoll_create, reply 4 [])
      ∷ (Call.socket, reply 3 [])
      ∷ [];
  errno = 0;
  running = 0;
}

socket_server_start-Echoes_example :
    Ensures (λ (code, out) t. code ≡ 0) (socket_server_start table (some server) kernel)
    × Holds
        (EchoesSoFar kernel.trace)
        (λ _ t. Echoes kernel.trace t.trace)
        (socket_server_start table (some server) kernel)
socket_server_start-Echoes_example =
    socket_server_start-Echoes table (4 ∷ 3 ∷ []) server kernel (guest ∷ []) (λ e. cc)
      callbacks-Polite (callbacks-Echoing kernel.trace) (single_table-Shows guest) refl
