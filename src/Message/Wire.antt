-- ===== src/Message/Wire.antt =====
-- How a receiver reads the fields of a message that arrives as bytes.
use tiny_mon.Base.{ℕ, ◌+◌, ◌*◌, List, ◌++◌, get_or, take, cstr}
use tiny_mon.Message.{Message, topic_max}

-- What `send` is given: the `sizeof(Quekka_message)` bytes of the message.
abbrev pub wire : Message → List ℕ
wire m = m.header ++ m.payload

abbrev pub read16 : List ℕ → ℕ → ℕ
read16 b i = get_or b i 0 + 256 * get_or b (i + 1) 0

abbrev pub wire_topic : Message → List ℕ
wire_topic m = cstr (take topic_max (wire m))

abbrev pub wire_payload_len : Message → ℕ
wire_payload_len m = read16 (wire m) 148

abbrev pub wire_seq : Message → ℕ
wire_seq m = read16 (wire m) 150

abbrev pub wire_flags : Message → ℕ
wire_flags m = get_or (wire m) 152 0

-- The payload array read as a text.
abbrev pub wire_text : Message → List ℕ
wire_text m = cstr m.payload
