-- ===== src/Protocol/Published/Tests.antt =====
-- The text "hi" under the topic "disk".
use tiny_mon.Base.{
  ℕ, ◌+◌, ◌≡◌, ◌<◌, refl, some, List, [], ◌∷◌, ◌++◌, take, drop, replicate, cstr, strlen, minus_one,
  arith,
}
use tiny_mon.Quecode.{quecode_success}
use tiny_mon.Message.{Message, zero_message, header_size, payload_max, topic_max, msg_size}
use tiny_mon.Message.Wire.{wire}
use tiny_mon.Producer
use tiny_mon.Producer.{Producer, Thread, publish}
use tiny_mon.Producer.Single.{published}
use tiny_mon.Protocol.{payload_len, serialize, deserialize}
use tiny_mon.Protocol.Published.{publish-deserialize}

abbrev ready : Thread
ready = record {
  g_producer = some (record { fd = 5; config = [] });
  quecode = quecode_success;
  sent = [];
}

abbrev topic : List ℕ
topic = b'd' ∷ b'i' ∷ b's' ∷ b'k' ∷ 0 ∷ []

abbrev hello : List ℕ
hello = b'h' ∷ b'i' ∷ 0 ∷ []

abbrev buffer : List ℕ
buffer = replicate 200 0

abbrev sent : Message
sent = published [] topic hello

fits : strlen hello < payload_max
unfolding strlen
fits = omega arith

publish-deserialize_example :
    (publish [] ready topic hello (strlen hello)
      ≡ Producer.done (0, record ready { sent = record { fd = 5; message = sent } ∷ [] }))
    × (m1 : Message) × (deserialize (wire sent) zero_message (strlen hello + header_size)
        ≡ some (strlen hello + header_size, m1))
    × (take (strlen hello) m1.payload ≡ cstr hello)
    × (payload_len m1.header ≡ strlen hello)
    × (cstr (take topic_max m1.header) ≡ take 4 (cstr topic))
    × (deserialize (wire sent) zero_message msg_size
        ≡ some (minus_one, record zero_message { header = m1.header }))
    × (serialize sent buffer 200
        ≡ some (
          header_size + strlen hello,
          take (header_size + strlen hello) (wire sent) ++ drop (header_size + strlen hello) buffer,
        ))
unfolding strlen
publish-deserialize_example =
    publish-deserialize [] topic hello fits ready (record { fd = 5; config = [] }) zero_message
      buffer 200 refl (omega arith) (omega arith) (omega arith) (omega arith)
