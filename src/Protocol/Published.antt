-- ===== src/Protocol/Published.antt =====
-- What the functions of src/quekka/Quekka_protocol.c make of a message of src/quekka/Quekka_producer.c.
pub mod Tests
use tiny_mon.Base.{
  ℕ, ◌+◌, ◌<◌, ◌≤◌, ◌≡◌, ◌≢◌, refl, sym, ap, ◌∙◌, some, List, [], ◌∷◌, ◌++◌, length, take, drop,
  take-append, take-append_le, drop-append, take-append_add, cstr, strlen, strncpy, minus_one,
  arith, overwrite, append_assoc, length-append, le→ltb, ==_ne, uint16, replicate,
}
use tiny_mon.Base.Memory.{cstr-append-zero, cstr-strncpy, strlen-eq-length-cstr}
use tiny_mon.Message.{Message, Header, zero_header, header_size, payload_max, topic_max, msg_size}
use tiny_mon.Message.Wire.{wire}
use tiny_mon.Producer
use tiny_mon.Producer.{Producer, Thread, publish, header_assemble, chunk_flag}
use tiny_mon.Producer.Layout.{
  HasSizes, header_assemble-HasSizes, header_assemble-topic, length-header, length-payload,
  payload_len-header, topic-header, take-payload,
}
use tiny_mon.Producer.Single.{published, publish-published}
use tiny_mon.Protocol.{payload_len, serialize, deserialize}
use tiny_mon.Protocol.RoundTrip.{deserialize-at, serialize-bytes}

-- The bytes of a message, cut behind those that its header counts.
wire-bytes :
    (m : Message) (n : ℕ)
    → length m.header ≡ header_size
    → take (header_size + n) (wire m) ≡ m.header ++ take n m.payload
wire-bytes m n whole = take-append_add m.header m.payload header_size n whole

-- A receiver that is handed more bytes than the header counts.
deserialize_whole :
    (m m' : Message) (n size : ℕ)
    → length m.header ≡ header_size
    → payload_len m.header ≡ n
    → header_size ≤ size
    → size ≢ n + header_size
    → deserialize (wire m) m' size ≡ some (minus_one, record m' { header = m.header })
unfolding deserialize
deserialize_whole m m' n size whole counted room other =
    rw
      (
        take-append m.header m.payload header_size whole,
        counted,
        le→ltb size header_size room,
        ==_ne size (n + header_size) other,
      )
      refl

module _ (msg_id topic payload : List ℕ) (fits : strlen payload < payload_max) where
  abbrev n : ℕ
  n = strlen payload

  abbrev m : Message
  m = published msg_id topic payload

  abbrev h : Header
  h = header_assemble msg_id zero_header topic

  sizes : HasSizes h
  sizes = header_assemble-HasSizes msg_id topic

  whole : length m.header ≡ header_size
  whole = length-header h _ 0 _ sizes

  counted : payload_len m.header ≡ n
  counted = payload_len-header h payload 0 _ sizes ∙ omega arith

  -- What `deserialize` leaves of the receiving message `m'`.
  abbrev received : Message → Message
  received m' = record {
    header = m.header;
    payload = overwrite m'.payload (payload_len m.header) (cstr payload);
  }

  deserialize-received :
      (m' : Message)
      → deserialize (wire m) m' (n + header_size) ≡ some (n + header_size, received m')
  deserialize-received m' =
      deserialize-at (wire m) m.header (cstr payload) m' (n + header_size)
        (take-append m.header m.payload header_size whole) (omega (arith, counted))
        (omega (arith, counted))
        (rw counted (
          ap (take n) (drop-append m.header m.payload header_size whole)
          ∙ take-payload h payload 0 _ sizes fits))

  received-text : (m' : Message) → take n (received m').payload ≡ cstr payload
  received-text m' = take-append (cstr payload) _ n (sym (strlen-eq-length-cstr payload))

  received-topic : cstr (take topic_max m.header) ≡ take 4 (cstr topic)
  received-topic =
      topic-header h payload 0 _ sizes
      ∙ ap cstr (header_assemble-topic msg_id topic)
      ∙ cstr-append-zero (strncpy 4 topic) (replicate 123 0)
      ∙ cstr-strncpy 4 topic

  serialize-wire :
      (buf : List ℕ) (size : ℕ)
      → header_size + n ≤ size
      → serialize m buf size
        ≡ some (header_size + n, take (header_size + n) (wire m) ++ drop (header_size + n) buf)
  serialize-wire buf size room =
      serialize-bytes m whole (omega (arith, counted)) (length-payload h payload 0 _ sizes) buf size
        (omega (arith, counted))
      ∙ rw (counted, wire-bytes m n whole) refl

  -- A text of 1 to 3942 bytes is published through a connected producer, under a topic of 1 to 65534
  -- bytes. The call sends one message of 4096 bytes. `Quekka_deserialize` reads of its first bytes, as
  -- many as the header counts and the header's, the text, its length and the first four bytes of the
  -- topic; of all 4096 bytes it returns -1 and takes the header alone. `Quekka_serialize` writes of the
  -- same message the bytes that are sent, as many as the header counts and the header's.
  pub publish-deserialize :
      (thread : Thread) (p : Producer) (m' : Message) (buf : List ℕ) (size : ℕ)
      → thread.g_producer ≡ some p
      → 0 < strlen topic
      → strlen topic < 65535
      → 0 < strlen payload
      → header_size + strlen payload ≤ size
      → (publish msg_id thread topic payload (strlen payload)
          ≡ Producer.done (
            0,
            record thread {
              sent =
                  thread.sent
                  ++ (record { fd = p.fd; message = published msg_id topic payload } ∷ []);
            },
          ))
        × (m1 : Message) × (deserialize
              (wire (published msg_id topic payload))
              m'
              (strlen payload + header_size)
            ≡ some (strlen payload + header_size, m1))
        × (take (strlen payload) m1.payload ≡ cstr payload)
        × (payload_len m1.header ≡ strlen payload)
        × (cstr (take topic_max m1.header) ≡ take 4 (cstr topic))
        × (deserialize (wire (published msg_id topic payload)) m' msg_size
            ≡ some (minus_one, record m' { header = m1.header }))
        × (serialize (published msg_id topic payload) buf size
            ≡ some (
              header_size + strlen payload,
              take (header_size + strlen payload) (wire (published msg_id topic payload))
                  ++ drop (header_size + strlen payload) buf,
            ))
  publish-deserialize thread p m' buf size connected named short some_bytes room = (
    publish-published msg_id topic payload thread p connected named short some_bytes fits,
    received m',
    deserialize-received m',
    received-text m',
    counted,
    received-topic,
    deserialize_whole m m' n msg_size whole counted (omega arith) (λ e. omega arith),
    serialize-wire buf size room,
  )
