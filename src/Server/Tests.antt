-- ===== src/Server/Tests.antt =====
-- A server with the linked list as its table, on an echo callback.
use tiny_mon.Base.{ℕ, ◌≡◌, refl, ap, none, some, List, [], ◌∷◌, arith, minus_one}
use tiny_mon.Os.{Sys, Reply, Call, Cmd, done, sys, pure, ◌>>◌}
use tiny_mon.Os.Descriptors.{live}
use tiny_mon.Os.Ensures
use tiny_mon.Os.Ensures.{Ensures, ends, sys-Answered}
use tiny_mon.Clients.{Info}
use tiny_mon.Clients.Table.{find_info}
use tiny_mon.Clients.HeapTable.Samples.{table, empty_table, empty_table-Shows}
use tiny_mon.Server.{Server, Callbacks, call}
use tiny_mon.Server.Lifecycle.{socket_server_start}
use tiny_mon.Server.Capacity.{Counted, socket_server_start-Counted}
use tiny_mon.Server.Owns.{Owns, Polite, quiet}
use tiny_mon.Server.Ending.{Ended, socket_server_start-Ended}
use tiny_mon.Server.Loop.{socket_server_start-Owns}
use tiny_mon.Os.Safe.{Safe}
use tiny_mon.Server.Deaf.{WaitCall, socket_server_start_deaf}

abbrev send_back : Info → List ℕ → Cmd (Unit {0})
send_back client bytes = do sys (Call.send client.fd bytes); pure tt

abbrev silent : Callbacks
silent = record {
  on_start = none;
  on_stop = none;
  on_connection = none;
  on_disconnected = none;
  on_received = none;
}

abbrev echoing : Callbacks
echoing = record silent { on_received = some send_back }

echoing-Polite : Polite echoing
echoing-Polite = record {
  on_start = λ s. ends (omega arith, refl);
  on_stop = λ s. ends (omega arith, refl);
  on_connection = λ i s. ends (omega arith, refl);
  on_disconnected = λ i s. ends (omega arith, refl);
  on_received =
      λ i bytes s. Ensures.bind (sys-Answered _ s) λ r t a. ends (quiet a (ap live a.trace));
}

abbrev no_clients : table.Table
no_clients = empty_table

no_clients-Shows : table.Shows no_clients []
no_clients-Shows = empty_table-Shows

abbrev server : Callbacks → Server table.Table
server callbacks = record {
  listen_fd = 3;
  epoll = some (record { epoll_fd = 4 });
  client_mgr = no_clients;
  addr = record { ip = 0; port = 0 };
  callbacks = callbacks;
}

abbrev reply : ℕ → Reply
reply value = record {
  value = value;
  errno = 11;
  peer = record { ip = 1; port = 9 };
  bytes = [];
  ready = [];
}

abbrev event : ℕ → Reply
event ptr = record (reply 1) { ready = record { ptr = ptr; events = 1 } ∷ [] }

-- A kernel that has made the socket 3 and the handler 4, and whose first event has the pointer `ptr`;
-- a connection 7 follows, and no further one.
abbrev kernel : ℕ → Sys
kernel ptr = record {
  script = event ptr ∷ reply 7 ∷ reply 2 ∷ reply 0 ∷ reply 0 ∷ reply minus_one ∷ [];
  trace = (Call.epoll_create, reply 4) ∷ (Call.socket, reply 3) ∷ [];
  errno = 0;
  running = 0;
}

-- A kernel whose events all carry null, and whose third wait fails.
abbrev null_kernel : Sys
null_kernel = record (kernel 0) { script = event 0 ∷ event 0 ∷ reply minus_one ∷ [] }

socket_server_start-Owns_example :
    Ensures
      (λ (code, out) t.
        (code ≡ 0)
        × (server' : Server table.Table) × (out ≡ some server')
        × (server' ≡ record (server echoing) { client_mgr = server'.client_mgr })
        × Owns table (4 ∷ 3 ∷ []) server' t)
      (socket_server_start table (some (server echoing)) (kernel 3))
socket_server_start-Owns_example =
    socket_server_start-Owns table (4 ∷ 3 ∷ []) (server echoing) (kernel 3) (λ e. cc) echoing-Polite
      ([], no_clients-Shows, refl)

socket_server_start-Counted_example :
    Ensures
      (λ (code, out) t.
        (code ≡ 0)
        × (server' : Server table.Table) × (out ≡ some server')
        × Counted table (4 ∷ 3 ∷ []) server' t)
      (socket_server_start table (some (server echoing)) (kernel 3))
socket_server_start-Counted_example =
    socket_server_start-Counted table (4 ∷ 3 ∷ []) (server echoing) (kernel 3) (λ e. cc)
      echoing-Polite ([], no_clients-Shows, refl)

socket_server_start-Ended_example :
    Ensures
      (λ (code, out) t.
        (code ≡ 0)
        × (server' : Server table.Table) × (u : Sys) × (out ≡ some server')
        × Ended u
        × (call server'.callbacks.on_stop u ≡ done tt t))
      (socket_server_start table (some (server echoing)) (kernel 3))
socket_server_start-Ended_example =
    socket_server_start-Ended table (4 ∷ 3 ∷ []) (server echoing) (kernel 3) (λ e. cc)
      echoing-Polite ([], no_clients-Shows, refl)

socket_server_start_deaf_example :
    Safe ⊥ WaitCall null_kernel.trace
      (λ (code, out) t. (code ≡ 0) × (out ≡ some (server echoing)))
      (socket_server_start table (some (server echoing)) null_kernel)
unfolding find_info
socket_server_start_deaf_example =
    socket_server_start_deaf table (server echoing) [] null_kernel no_clients-Shows (ground arith)
      refl (λ e. cc) refl refl ((refl, tt), ((refl, tt), (tt, tt)))

-- A kernel that makes the socket 3 and the handler 4, and then has two events.
abbrev whole_kernel : Sys
whole_kernel = record {
  script =
      reply 3
      ∷ reply 0
      ∷ reply 0
      ∷ reply 0
      ∷ reply 4
      ∷ reply 0
      ∷ event 3
      ∷ reply 7
      ∷ reply 2
      ∷ reply 0
      ∷ reply 0
      ∷ reply minus_one
      ∷ reply minus_one
      ∷ reply 0
      ∷ reply 0
      ∷ [];
  trace = [];
  errno = 0;
  running = 0;
}
