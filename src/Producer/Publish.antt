-- ===== src/Producer/Publish.antt =====
-- `Quekka_publish`: what it refuses, what it sends, and what a receiver gets.
use tiny_mon.Base.{
  ℕ, zero, suc, ◌+◌, ◌-◌, ◌*◌, ◌/◌, ◌<◌, ◌≤◌, ◌≡◌, ◌≢◌, ◌⊎◌, refl, ap, ◌∙◌, List, [], ◌∷◌, ◌++◌,
  none, some, arith, length, length-append, length-take, length-drop, take, drop, cstr, strlen,
  strncpy, uint16, minus_one, take-of_le, ==_self, ==_ne, lt→leb, replicate,
}
use tiny_mon.Base.Memory.{strlen-eq-length-cstr, cstr-drop, cstr-strncpy, cstr-append-zero}
use native.Mathlib.Numerals.{add-one}
use tiny_mon.Quecode.{quecode_failure}
use tiny_mon.Message.{Header, Message, zero_header, payload_max, flag_more}
use tiny_mon.Message.Wire.{wire, wire_topic, wire_payload_len, wire_seq, wire_flags, wire_text}
use tiny_mon.Producer.{
  header_assemble, Send, Producer, Thread, done, segfault, publish_loop, publish,
}
use tiny_mon.Producer.Layout.{
  HasSizes, header_assemble-topic, header_assemble-HasSizes, length-wire, wire_flags-message,
  wire_payload_len-message, wire_seq-message, wire_topic-message, wire_text-message,
}
use tiny_mon.Producer.Fragments.{fragment_count, fragment, fragments, publish_loop-fragments}

-- What a receiver has when it joins the payload texts of the messages in the order of sending.
unfoldable pub delivered : List Send → List ℕ
delivered [] = []
delivered (s ∷ ss) = wire_text s.message ++ delivered ss

abbrev pub All : (Message → Type 0) → List Send → Type 0
All P [] = Unit {0}
All P (s ∷ ss) = P s.message × All P ss

module _ (h : Header) (payload : List ℕ) (sizes : HasSizes h) where
  abbrev len : ℕ
  len = strlen payload

  pub wire_text-fragment :
      (k : ℕ)
      → k < 65536
      → k * payload_max ≤ len
      → wire_text (fragment h payload len k) ≡ take 3942 (drop (k * payload_max) (cstr payload))
  wire_text-fragment k small within =
      wire_text-message h (drop (uint16 k * payload_max) payload) (uint16 k) _ sizes
      ∙ ap (λ (j : ℕ). take 3942 (cstr (drop (j * payload_max) payload))) (omega arith)
      ∙ ap (take 3942) (cstr-drop (k * payload_max) payload within)

  length-fragments : (fd k n : ℕ) → length (fragments h payload len fd k n) ≡ n
  unfolding fragments
  length-fragments fd k zero = refl
  length-fragments fd k (suc n) = ap suc (length-fragments fd (suc k) n)

  All-fragments :
      (P : Message → Type 0)
      → ((k : ℕ) → P (fragment h payload len k))
      → (fd k n : ℕ) → All P (fragments h payload len fd k n)
  unfolding fragments
  All-fragments P all fd k zero = tt
  All-fragments P all fd k (suc n) = (all k, All-fragments P all fd (suc k) n)

  -- Every full fragment but its last byte arrives.
  length-delivered :
      (fd k n : ℕ)
      → n ≡ fragment_count (len - k * payload_max)
      → k + n ≤ 65536
      → length (delivered (fragments h payload len fd k n)) + (len - k * payload_max) / payload_max
        ≡ len - k * payload_max
  unfolding delivered fragments
  length-delivered fd k zero e b = ground arith
  length-delivered fd k (suc n) e b = omega (
    arith,
    length-append (wire_text (fragment h payload len k))
        (delivered (fragments h payload len fd (suc k) n)),
    ap length (wire_text-fragment k (omega arith) (omega arith)),
    length-take 3942 (drop (k * payload_max) (cstr payload)),
    length-drop (k * payload_max) (cstr payload),
    strlen-eq-length-cstr payload,
    length-delivered fd (suc k) n (omega arith) (omega arith),
  )

-- What the calls below have in common: a connected producer and a topic of an admitted length.
module _ (msg_id topic payload : List ℕ) (t : Thread) (p : Producer)
    (connected : t.g_producer ≡ some p) (named : 0 < strlen topic)
    (short : strlen topic < 65535) where
  abbrev pub assembled : Header
  assembled = header_assemble msg_id zero_header topic

  abbrev pub sends : List Send
  sends = fragments assembled payload (strlen payload) p.fd 0 (fragment_count (strlen payload))

  pub publish-sends :
      publish msg_id t topic payload (strlen payload)
      ≡ done (0, record t { sent = t.sent ++ sends })
  unfolding publish header_assemble
  publish-sends = rw (
    ==_ne (strlen topic) 0 (omega arith),
    lt→leb 0xffff (strlen topic) short,
    ==_self (strlen payload),
    connected,
    publish_loop-fragments assembled payload (strlen payload) p (strlen payload + 1) 0
        (strlen payload) 0 0 0 (omega arith) (omega arith),
  )

  pub sizes : HasSizes assembled
  sizes = header_assemble-HasSizes msg_id topic

  -- With a connected producer, a topic of 1 to 65534 bytes and the right size, a call returns 0 and
  -- sends one message for every 3943 bytes begun. Each is 4096 bytes long and is read back with the
  -- first four bytes of the topic, and with the flag "more follows".
  pub publish-wire :
      (ss : List Send) × (publish msg_id t topic payload (strlen payload)
        ≡ done (0, record t { sent = t.sent ++ ss }))
      × (length ss ≡ (strlen payload + 3942) / 3943)
      × All
          (λ m.
            (length (wire m) ≡ 4096)
            × (wire_topic m ≡ take 4 (cstr topic))
            × (wire_flags m ≡ flag_more))
          ss
  publish-wire = (
    sends,
    publish-sends,
    length-fragments assembled payload sizes p.fd 0 _,
    All-fragments assembled payload sizes _
        (λ k. (
          length-wire assembled _ (uint16 k) _ sizes,
          wire_topic-message assembled _ (uint16 k) _ sizes
              ∙ ap cstr (header_assemble-topic msg_id topic)
              ∙ cstr-append-zero (strncpy 4 topic) (replicate 123 0)
              ∙ cstr-strncpy 4 topic,
          wire_flags-message assembled _ (uint16 k) _ sizes,
        ))
        p.fd 0 _,
  )

  -- With a connected producer and a topic of 1 to 65534 bytes, a text that is not empty and is shorter
  -- than the payload array arrives whole, in one message that tells its length and has the sequence
  -- number 0.
  pub publish_roundtrip :
      0 < strlen payload
      → strlen payload < payload_max
      → (m : Message) × (publish msg_id t topic payload (strlen payload)
          ≡ done (0, record t { sent = t.sent ++ (record { fd = p.fd; message = m } ∷ []) }))
        × (wire_text m ≡ cstr payload)
        × (wire_payload_len m ≡ strlen payload)
        × (wire_seq m ≡ 0)
  unfolding fragments
  publish_roundtrip some_bytes fits =
      let one : fragment_count (strlen payload) ≡ 1 = ground arith in
      (
        fragment assembled payload (strlen payload) 0,
        rw one at publish-sends,
        wire_text-fragment assembled payload sizes 0 (omega arith) (omega arith)
            ∙ take-of_le 3942 (cstr payload) (omega (arith, strlen-eq-length-cstr payload)),
        wire_payload_len-message assembled payload 0 _ sizes ∙ omega arith,
        wire_seq-message assembled payload 0 _ sizes,
      )

  -- With a connected producer and a topic of 1 to 65534 bytes, of `n` bytes that are
  -- published, at most 65536 * 3943, there arrive `n - n / 3943`: one of each full fragment is lost.
  pub publish_loses :
      strlen payload ≤ 65536 * payload_max
      → (ss : List Send) × (publish msg_id t topic payload (strlen payload)
          ≡ done (0, record t { sent = t.sent ++ ss }))
        × (length (delivered ss) + strlen payload / payload_max ≡ strlen payload)
  publish_loses bound = (
    sends,
    publish-sends,
    omega (
      arith,
      length-delivered assembled payload sizes p.fd 0 (fragment_count (strlen payload))
          (omega arith) (omega arith),
    ),
  )

-- A topic that is empty or too long, or a size that is not the length of the payload, is refused:
-- the result is -1, the thread's code says failure, and nothing is sent.
pub publish_rejects :
    (msg_id topic payload : List ℕ) (size : ℕ) (t : Thread)
    → (strlen topic ≡ 0) ⊎ (65535 ≤ strlen topic) ⊎ (strlen payload ≢ size)
    → publish msg_id t topic payload size ≡ done (minus_one, record t { quecode = quecode_failure })
unfolding publish
publish_rejects msg_id topic payload size t bad = ground arith

-- Without a producer a call with a topic of 1 to 65534 bytes, a text that is not empty and its length
-- reads through a null pointer.
pub publish_null :
    (msg_id topic payload : List ℕ) (t : Thread)
    → t.g_producer ≡ none
    → 0 < strlen topic
    → strlen topic < 65535
    → 0 < strlen payload
    → publish msg_id t topic payload (strlen payload) ≡ segfault
unfolding publish publish_loop
publish_null msg_id topic payload t missing named short some_bytes = rw (
  ==_ne (strlen topic) 0 (omega arith),
  lt→leb 0xffff (strlen topic) short,
  ==_self (strlen payload),
  missing,
  add-one (strlen payload),
  ==_ne (strlen payload) 0 (omega arith),
)
