-- ===== src/Producer/Layout.antt =====
-- Where the parts of an assembled message lie, and what a receiver reads there.
use tiny_mon.Base.{
  ℕ, ◌+◌, ◌-◌, ◌<◌, ◌≡◌, ap, ◌∙◌, List, [], ◌∷◌, ◌++◌, append_assoc, arith, length, length-append,
  take, get_or, replicate, cstr, strlen, strncpy, bytes16, uint16, take-append_add, take-append,
  take-append_le, set-append, get_or-append,
}
use tiny_mon.Base.Memory.{length-strncpy, take-strncpy, cstr-strncpy, cstr-append-zero}
use tiny_mon.Message.{
  Header, Message, header_size, zero_header, zero_message, header_bytes, payload_max, topic_max,
  msg_id_max,
}
use tiny_mon.Message.Wire.{
  read16, wire, wire_topic, wire_payload_len, wire_seq, wire_flags, wire_text,
}
use tiny_mon.Producer.{header_assemble, message_assemble}

-- The header's arrays have their declared sizes.
abbrev pub HasSizes : Header → Type 0
HasSizes h = (length h.topic ≡ topic_max) × (length h.message_id ≡ msg_id_max)

pub header_assemble-topic :
    (msg_id topic : List ℕ)
    → (header_assemble msg_id zero_header topic).topic ≡ strncpy 4 topic ++ replicate 124 0
unfolding header_assemble
header_assemble-topic msg_id topic =
    set-append (strncpy 4 topic) (replicate 124 0) 4 123 0 (length-strncpy 4 topic)

pub header_assemble-message_id :
    (msg_id topic : List ℕ)
    → (header_assemble msg_id zero_header topic).message_id ≡ strncpy 4 msg_id ++ replicate 14 0
unfolding header_assemble
header_assemble-message_id msg_id topic =
    set-append (strncpy 4 msg_id) (replicate 14 0) 4 13 0 (length-strncpy 4 msg_id)

pub header_assemble-HasSizes :
    (msg_id topic : List ℕ) → HasSizes (header_assemble msg_id zero_header topic)
header_assemble-HasSizes msg_id topic = (
  rw (
    header_assemble-topic msg_id topic,
    length-append (strncpy 4 topic) (replicate 124 0),
    length-strncpy 4 topic,
  ),
  rw (
    header_assemble-message_id msg_id topic,
    length-append (strncpy 4 msg_id) (replicate 14 0),
    length-strncpy 4 msg_id,
  ),
)

module _ (h : Header) (payload : List ℕ) (seq flag : ℕ) (sizes : HasSizes h) where
  -- The four numbers behind the two texts, with what follows them.
  abbrev fields : ℕ → List ℕ → List ℕ
  fields flags rest =
      bytes16 h.topic_len ++ (bytes16 (uint16 (strlen payload)) ++ (bytes16 seq ++ (flags ∷ rest)))

  abbrev message : Message
  message = (message_assemble h zero_message payload seq flag).1

  -- The flag that was assembled is not among the bytes copied: its place stays zero.
  pub message_assemble-header : message.header ≡ h.topic ++ (h.message_id ++ (fields 0 ([])))
  unfolding message_assemble header_bytes
  message_assemble-header =
      ap (λ l. l ++ (0 ∷ []))
        (take-append_add h.topic (h.message_id ++ tail) 128 24 sizes.0
          ∙ ap (λ l. h.topic ++ l) (take-append_add h.message_id tail 18 6 sizes.1))
      ∙ simp append_assoc
    where
      tail : List ℕ
      tail = (fields flag ([]))

  pub message_assemble-payload : message.payload ≡ strncpy (payload_max - 1) payload ++ (0 ∷ [])
  unfolding message_assemble
  message_assemble-payload =
      set-append (strncpy 3942 payload) (0 ∷ []) 3942 0 0 (length-strncpy 3942 payload)

  wire-layout : wire message ≡ h.topic ++ (h.message_id ++ (fields 0 (message.payload)))
  wire-layout = rw message_assemble-header (simp append_assoc)

  -- The byte at offset `146 + i` is the `i`-th of the four last fields.
  wire-get_or :
      (i : ℕ) → get_or (wire message) (128 + (18 + i)) 0 ≡ get_or (fields 0 (message.payload)) i 0
  wire-get_or i =
      rw wire-layout (
        get_or-append h.topic _ 128 (18 + i) 0 sizes.0
        ∙ get_or-append h.message_id _ 18 i 0 sizes.1)

  pub length-wire : length (wire message) ≡ 4096
  length-wire = rw wire-layout (
      omega (
        arith,
        length-append h.topic (h.message_id ++ fields 0 message.payload),
        length-append h.message_id (fields 0 message.payload),
        ap length message_assemble-payload,
        length-append (strncpy 3942 payload) (0 ∷ []),
        length-strncpy 3942 payload,
        sizes.0,
        sizes.1,
      ))

  pub wire_flags-message : wire_flags message ≡ 0
  wire_flags-message = wire-get_or 6

  pub wire_payload_len-message : wire_payload_len message ≡ uint16 (strlen payload)
  wire_payload_len-message = omega (arith, wire-get_or 2, wire-get_or 3)

  pub wire_seq-message : wire_seq message ≡ seq
  wire_seq-message = omega (arith, wire-get_or 4, wire-get_or 5)

  pub wire_topic-message : wire_topic message ≡ cstr h.topic
  wire_topic-message = rw wire-layout (ap cstr (take-append h.topic _ 128 sizes.0))

  pub wire_text-message : wire_text message ≡ take (payload_max - 1) (cstr payload)
  wire_text-message =
      ap cstr message_assemble-payload
      ∙ cstr-append-zero (strncpy 3942 payload) []
      ∙ cstr-strncpy 3942 payload

  -- The header alone.
  header-get_or : (i : ℕ) → get_or message.header (128 + (18 + i)) 0 ≡ get_or (fields 0 ([])) i 0
  header-get_or i =
      rw message_assemble-header (
        get_or-append h.topic _ 128 (18 + i) 0 sizes.0
        ∙ get_or-append h.message_id _ 18 i 0 sizes.1)

  pub length-header : length message.header ≡ header_size
  length-header = rw message_assemble-header (
      omega (
        arith,
        length-append h.topic (h.message_id ++ fields 0 []),
        length-append h.message_id (fields 0 []),
        sizes.0,
        sizes.1,
      ))

  pub length-payload : length message.payload ≡ payload_max
  length-payload = omega (
    arith,
    ap length message_assemble-payload,
    length-append (strncpy 3942 payload) (0 ∷ []),
    length-strncpy 3942 payload,
  )

  pub payload_len-header : read16 message.header 148 ≡ uint16 (strlen payload)
  payload_len-header = omega (arith, header-get_or 2, header-get_or 3)

  pub topic-header : cstr (take topic_max message.header) ≡ cstr h.topic
  topic-header = rw message_assemble-header (ap cstr (take-append h.topic _ 128 sizes.0))

  -- A text that fits lies at the beginning of the array.
  pub take-payload :
      strlen payload < payload_max → take (strlen payload) message.payload ≡ cstr payload
  take-payload fits = rw message_assemble-payload (
      take-append_le (strlen payload) (strncpy 3942 payload) (0 ∷ [])
        (omega (arith, length-strncpy 3942 payload))
      ∙ take-strncpy 3942 payload (omega arith))
