-- ===== src/Cli/Messages.antt =====
-- What the client of src/cli/quekka-cli.cpp makes of the messages that src/quekka/Quekka_producer.c
-- sends.
use tiny_mon.Base.{
  ℕ, suc, ◌+◌, ◌-◌, ◌<◌, ◌≤◌, ◌≡◌, refl, ◌∙◌, Option, some, List, [], ◌∷◌, ◌++◌, length, drop,
  strlen, arith,
}
use tiny_mon.Os.{Sys, Reply, fault, answered}
use tiny_mon.Epoll.{Handler}
use tiny_mon.Message.{zero_header, payload_max}
use tiny_mon.Message.Wire.{wire}
use tiny_mon.Producer
use tiny_mon.Producer.{header_assemble, chunk_flag, Producer, Thread, publish}
use tiny_mon.Producer.Layout.{
  header_assemble-HasSizes, length-wire, wire_payload_len-message, wire_flags-message,
}
use tiny_mon.Producer.Single.{published, publish-published}
use tiny_mon.Cli.Rounds.{received, receive_loop-empty, receive_loop-overflow}
use tiny_mon.Cli.{Shown, Heap, receive_loop}

-- A text of 8 to 3942 bytes that is published through a connected producer, under a topic of 1 to 65534
-- bytes, is not what the client shows. It is sent in one message. When the first 152 bytes of the
-- message, and then as many as the client asks for, have arrived on the descriptor that it reads, and
-- there is memory, the round of its loop shows an empty text, and the loop goes on.
pub published_shows_empty :
    (msg_id topic payload : List ℕ) (thread : Thread) (p : Producer) (malloc : Heap)
    (handler : Option Handler) (fuel : ℕ) (header : List ℕ) (shown : Shown) (s : Sys)
    (block : List ℕ) (r r' : Reply) (rest : List Reply)
    → thread.g_producer ≡ some p
    → 0 < strlen topic
    → strlen topic < 65535
    → 8 ≤ strlen payload
    → strlen payload < payload_max
    → s.script
      ≡ received r 152 (wire (published msg_id topic payload))
        ∷ received r' (strlen payload - 1) (drop 152 (wire (published msg_id topic payload)))
        ∷ rest
    → ((t : Sys) → malloc t (strlen payload + 1) ≡ some block)
    → (publish msg_id thread topic payload (strlen payload)
        ≡ Producer.done (
          0,
          record thread {
            sent =
                thread.sent
                ++ (record { fd = p.fd; message = published msg_id topic payload } ∷ []);
          },
        ))
      × (header' : List ℕ) × (t : Sys) × (t.script ≡ rest)
      × (receive_loop malloc handler (suc fuel) header shown s
          ≡ receive_loop malloc handler fuel header' (shown ++ ([] ∷ [])) t)
unfolding answered
published_shows_empty msg_id topic payload thread p malloc handler fuel header shown s block r r'
      rest connected named short least most script got =
    let h = header_assemble msg_id zero_header topic in
    let sizes = header_assemble-HasSizes msg_id topic in
    let longer : length (wire (published msg_id topic payload)) ≡ 4096 =
      length-wire h _ 0 _ sizes in
    (
      publish-published msg_id topic payload thread p connected named short (omega arith)
          (omega arith),
      _,
      _,
      refl,
      receive_loop-empty malloc handler fuel header shown s (wire (published msg_id topic payload))
          block r r' (strlen payload) rest script (omega (arith, longer))
          (wire_payload_len-message h payload 0 _ sizes ∙ omega arith) got least (omega arith)
          (wire_flags-message h payload 0 _ sizes) (omega (arith, longer)),
    )

-- A text of 1 to 7 bytes that is published through a connected producer, under a topic of 1 to 65534
-- bytes, is cleared beyond the block that the client gets for it: it is sent in one message, and when
-- the first 152 bytes of that have arrived on the descriptor that the client reads, and there is memory,
-- its loop leaves the bounds of the block.
pub published_overflows :
    (msg_id topic payload : List ℕ) (thread : Thread) (p : Producer) (malloc : Heap)
    (handler : Option Handler) (fuel : ℕ) (header : List ℕ) (shown : Shown) (s : Sys)
    (block : List ℕ) (r : Reply) (rest : List Reply)
    → thread.g_producer ≡ some p
    → 0 < strlen topic
    → strlen topic < 65535
    → 0 < strlen payload
    → strlen payload < 8
    → s.script ≡ received r 152 (wire (published msg_id topic payload)) ∷ rest
    → ((t : Sys) → malloc t (strlen payload + 1) ≡ some block)
    → (publish msg_id thread topic payload (strlen payload)
        ≡ Producer.done (
          0,
          record thread {
            sent =
                thread.sent
                ++ (record { fd = p.fd; message = published msg_id topic payload } ∷ []);
          },
        ))
      × (receive_loop malloc handler (suc fuel) header shown s ≡ fault)
published_overflows msg_id topic payload thread p malloc handler fuel header shown s block r rest
      connected named short some_bytes few script got =
    let h = header_assemble msg_id zero_header topic in
    let sizes = header_assemble-HasSizes msg_id topic in
    let longer : length (wire (published msg_id topic payload)) ≡ 4096 =
      length-wire h _ 0 _ sizes in
    (
      publish-published msg_id topic payload thread p connected named short (omega arith)
          (omega arith),
      receive_loop-overflow malloc handler fuel header shown s
          (wire (published msg_id topic payload)) block r (strlen payload) rest script
          (omega (arith, longer)) (wire_payload_len-message h payload 0 _ sizes ∙ omega arith) got
          few,
    )
