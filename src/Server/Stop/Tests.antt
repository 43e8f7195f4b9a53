-- ===== src/Server/Stop/Tests.antt =====
-- A callback that stops the server at the first event of two.
use tiny_mon.Base.{ℕ, ◌≡◌, refl, none, some, List, [], ◌∷◌, arith, minus_one}
use tiny_mon.Os.{Sys, Reply, Call, Event, done, answered, sys}
use tiny_mon.Os.Holds.{Holds}
use tiny_mon.Epoll.{dispatch}
use tiny_mon.Clients.{Info, Outcome, new_info}
use tiny_mon.Clients.Table.{find_info}
use tiny_mon.Clients.HeapTable.Samples.{table, single_table, single_table-Shows}
use tiny_mon.Server.{Server, Callbacks, epoll_event_callback, handle_client, receive_loop}
use tiny_mon.Server.Lifecycle.{event_loop, socket_server_stop}
use tiny_mon.Server.Still.{Lasting}
use tiny_mon.Server.Stop.{event_loop-stopped}

abbrev stopping : Callbacks
stopping = record {
  on_start = none;
  on_stop = none;
  on_connection = none;
  on_disconnected = none;
  on_received = some (λ client bytes. socket_server_stop);
}

stopping-Lasting : Lasting stopping
unfolding socket_server_stop
stopping-Lasting = record {
  on_connection = λ i s. Holds.ends (λ e. e);
  on_disconnected = λ i s. Holds.ends (λ e. e);
  on_received = λ i bytes s. Holds.ends (λ e. refl);
}

abbrev guest : Info
guest = new_info 7 (record { ip = 1; port = 9 })

abbrev server : Server table.Table
server = record {
  listen_fd = 3;
  epoll = some (record { epoll_fd = 4 });
  client_mgr = single_table guest;
  addr = record { ip = 0; port = 0 };
  callbacks = stopping;
}

abbrev reply : ℕ → List ℕ → Reply
reply value bytes = record {
  value = value;
  errno = 11;
  peer = record { ip = 0; port = 0 };
  bytes = bytes;
  ready = [];
}

abbrev event : Event
event = record { ptr = 7; events = 1 }

abbrev woken : Reply
woken = record (reply 2 []) { ready = event ∷ event ∷ [] }

abbrev later : List Reply
later = reply 1 (b'x' ∷ []) ∷ reply minus_one [] ∷ reply minus_one [] ∷ reply 0 [] ∷ []

-- Two events of the client 7 wait: one byte comes with the first.
abbrev kernel : Sys
kernel = record {
  script = woken ∷ later;
  trace = (Call.accept 3, reply 7 []) ∷ [];
  errno = 0;
  running = 1;
}

-- After the first event, and after both.
abbrev first : Sys
first = record {
  script = reply minus_one [] ∷ reply 0 [] ∷ [];
  trace =
      (Call.recv 7 1024, reply minus_one [])
      ∷ (Call.recv 7 1024, reply 1 (b'x' ∷ []))
      ∷ (Call.epoll_wait 4 minus_one, woken)
      ∷ kernel.trace;
  errno = 11;
  running = 0;
}

abbrev second : Sys
second = record {
  script = reply 0 [] ∷ [];
  trace = (Call.recv 7 1024, reply minus_one []) ∷ first.trace;
  errno = 11;
  running = 0;
}

found : table.find (single_table guest) 7 ≡ Outcome.ok (some guest)
unfolding find_info
found = table.find-Shows (single_table guest) (guest ∷ []) 7 (single_table-Shows guest)

first_event :
    dispatch
      (epoll_event_callback table)
      (event ∷ [])
      server
      (answered (Call.epoll_wait 4 minus_one) kernel woken later)
    ≡ done server first
unfolding dispatch epoll_event_callback handle_client receive_loop answered sys socket_server_stop
first_event = rw found refl

second_event : dispatch (epoll_event_callback table) (event ∷ []) server first ≡ done server second
unfolding dispatch epoll_event_callback handle_client receive_loop answered sys socket_server_stop
second_event = rw found refl

event_loop-stopped_example : event_loop table 2 server kernel ≡ done server second
event_loop-stopped_example =
    event_loop-stopped table 0 server server server kernel first second (record { epoll_fd = 4 })
      woken later (event ∷ []) (event ∷ []) stopping-Lasting refl (λ e. omega arith) refl
      (λ e. omega arith) refl first_event refl second_event
