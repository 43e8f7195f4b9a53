-- ===== src/Server/Distinct/Tests.antt =====
-- A server with one client, on a kernel that accepts no further one.
use tiny_mon.Base.{ℕ, ◌≡◌, refl, none, some, List, [], ◌∷◌, ◌++◌, arith, minus_one}
use tiny_mon.Os.{Sys, Reply, Call, done, sys, answered}
use tiny_mon.Os.Ensures
use tiny_mon.Os.Fresh.{Distinct}
use tiny_mon.Socket.{tcp_socket_accept, socket_accept}
use tiny_mon.Epoll.{wait, dispatch}
use tiny_mon.Clients.{Info, new_info, ok}
use tiny_mon.Clients.HeapTable.Samples.{table, single_table, single_table-Shows}
use tiny_mon.Server.{Server, Callbacks, epoll_event_callback, handle_accept}
use tiny_mon.Server.Lifecycle.{event_loop, socket_server_start}
use tiny_mon.Server.Owns.{Polite, fds}
use tiny_mon.Server.Distinct.{All, socket_server_start-Distinct}

abbrev silent : Callbacks
silent = record {
  on_start = none;
  on_stop = none;
  on_connection = none;
  on_disconnected = none;
  on_received = none;
}

silent-Polite : Polite silent
silent-Polite = record {
  on_start = λ s. Ensures.ends (omega arith, refl);
  on_stop = λ s. Ensures.ends (omega arith, refl);
  on_connection = λ i s. Ensures.ends (omega arith, refl);
  on_disconnected = λ i s. Ensures.ends (omega arith, refl);
  on_received = λ i bytes s. Ensures.ends (omega arith, refl);
}

abbrev guest : Info
guest = new_info 7 (record { ip = 1; port = 9 })

abbrev server : Server table.Table
server = record {
  listen_fd = 3;
  epoll = some (record { epoll_fd = 4 });
  client_mgr = single_table guest;
  addr = record { ip = 0; port = 0 };
  callbacks = silent;
}

abbrev reply : ℕ → Reply
reply value = record {
  value = value;
  errno = 11;
  peer = record { ip = 1; port = 9 };
  bytes = [];
  ready = [];
}

abbrev event : Reply
event = record (reply 1) { ready = record { ptr = 3; events = 1 } ∷ [] }

-- The socket 3, the handler 4 and the client 7 are open, and an event of the socket waits.
abbrev kernel : Sys
kernel = record {
  script = event ∷ reply minus_one ∷ reply minus_one ∷ [];
  trace = (Call.accept 3, reply 7) ∷ (Call.epoll_create, reply 4) ∷ (Call.socket, reply 3) ∷ [];
  errno = 0;
  running = 0;
}

abbrev ended : Sys
ended = record {
  script = [];
  trace =
      (Call.epoll_wait 4 minus_one, reply minus_one)
      ∷ (Call.accept 3, reply minus_one)
      ∷ (Call.epoll_wait 4 minus_one, event)
      ∷ kernel.trace;
  errno = 11;
  running = 1;
}

start : socket_server_start table (some server) kernel ≡ done (0, some server) ended
unfolding socket_server_start event_loop wait dispatch epoll_event_callback handle_accept
    tcp_socket_accept socket_accept sys answered
start = refl

socket_server_start-Distinct_example :
    (xs : List Info) × table.Shows (single_table guest) xs
    × Distinct (fds xs ++ (4 ∷ 3 ∷ []))
    × All (λ c. table.find (single_table guest) c.fd ≡ ok (some c)) xs
socket_server_start-Distinct_example =
    socket_server_start-Distinct table (4 ∷ 3 ∷ []) server server kernel ended 0 (λ e. cc)
      silent-Polite (guest ∷ [], single_table-Shows guest, refl) start
      (
        tt,
        (
          λ e. absurd (e refl),
          (tt, (λ e. (ground arith, (ground arith, tt)), (λ e. (ground arith, tt), (λ e. tt, tt)))),
        ),
      )
