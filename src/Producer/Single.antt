-- ===== src/Producer/Single.antt =====
-- A text that `Quekka_publish` of src/quekka/Quekka_producer.c sends in one message.
use tiny_mon.Base.{ℕ, ◌<◌, ◌≡◌, some, List, [], ◌∷◌, ◌++◌, strlen, arith}
use tiny_mon.Message.{Message, zero_header, payload_max}
use tiny_mon.Producer.{done, header_assemble, Producer, Thread, publish}
use tiny_mon.Producer.Fragments.{fragment, fragments, fragment_count}
use tiny_mon.Producer.Publish.{publish-sends}

-- The message that carries a text that fits into one.
abbrev pub published : (msg_id topic payload : List ℕ) → Message
published msg_id topic payload =
    fragment (header_assemble msg_id zero_header topic) payload (strlen payload) 0

-- What `publish` does with such a text.
pub publish-published :
    (msg_id topic payload : List ℕ) (thread : Thread) (p : Producer)
    → thread.g_producer ≡ some p
    → 0 < strlen topic
    → strlen topic < 65535
    → 0 < strlen payload
    → strlen payload < payload_max
    → publish msg_id thread topic payload (strlen payload)
      ≡ done (
        0,
        record thread {
          sent =
              thread.sent ++ (record { fd = p.fd; message = published msg_id topic payload } ∷ []);
        },
      )
unfolding fragments
publish-published msg_id topic payload thread p connected named short some_bytes fits =
    let one : fragment_count (strlen payload) ≡ 1 = ground arith in
    let sent = publish-sends msg_id topic payload thread p connected named short in rw one at sent
