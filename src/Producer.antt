-- ===== src/Producer.antt =====
-- src/quekka/Quekka_producer.c, `Quekka_publish` and the two functions that assemble a message.
pub mod Connect
pub mod Fragments
pub mod Layout
pub mod Pieces
pub mod Publish
pub mod Single
pub mod Target
pub mod Outcomes
pub mod Tests
use tiny_mon.Base.{
  ℕ, zero, suc, ◌+◌, ◌-◌, ◌*◌, List, [], ◌∷◌, ◌++◌, Option, none, some, ltb, leb, ◌==◌, not, ◌||◌,
  if◌then◌else◌, take, drop, set, strlen, strncpy, overwrite, uint16, minus_one,
}
use tiny_mon.Quecode.{quecode_failure}
use tiny_mon.Message.{
  Header, Message, zero_header, zero_message, header_bytes, topic_max, msg_id_max, header_size,
  payload_max, flag_more, flag_last,
}

-- `sizeof(QUEKKA_TOPIC_MAX-1)` is the size of an `int`.
abbrev pub sizeof_int : ℕ
sizeof_int = 4

-- `msg_id` is the text that `strftime` makes of the current time.
unfoldable pub header_assemble : (msg_id : List ℕ) → Header → (topic : List ℕ) → Header
header_assemble msg_id h topic = record h {
  topic = set (overwrite h.topic sizeof_int (strncpy sizeof_int topic)) (topic_max - 1) 0;
  message_id =
      set (overwrite h.message_id sizeof_int (strncpy sizeof_int msg_id)) (msg_id_max - 1) 0;
  topic_len = uint16 (strlen topic);
}

-- The header keeps what is written to it; the message is given as it was before.
unfoldable pub message_assemble :
    Header → Message → (payload : List ℕ) → (seq flag : ℕ) → Header × Message
message_assemble header message payload seq flag = (
  header',
  record {
    header =
        overwrite message.header (header_size - 1) (take (header_size - 1) (header_bytes header'));
    payload =
        set (overwrite message.payload (payload_max - 1) (strncpy (payload_max - 1) payload))
          (payload_max - 1) 0;
  },
)
  where
    header' : Header
    header' = record header { payload_len = uint16 (strlen payload); seq = seq; flags = flag }

abbrev pub chunk_size : ℕ → ℕ
chunk_size remaining = if ltb payload_max remaining then payload_max else remaining

abbrev pub chunk_flag : ℕ → ℕ
chunk_flag remaining = if leb payload_max remaining then flag_more else flag_last

-- A message that is handed to `send`; what `send` answers is not read.
pub record Send : Type 0 where
  pub fd : ℕ
  pub message : Message

pub data Run (A : Type 0) : Type 0 where
  done : A → Run A
  segfault : Run A
  out_of_fuel : Run A

abbrev pub also_sent : Send → Run (List Send) → Run (List Send)
also_sent s (done ss) = done (s ∷ ss)
also_sent s segfault = segfault
also_sent s out_of_fuel = out_of_fuel

-- `config` is the eight bytes of the pointer `_config`.
pub record Producer : Type 0 where
  pub fd : ℕ
  pub config : List ℕ

-- The descriptor of `g_producer`, a fault at `NULL`.
abbrev pub with_fd : {A : Type 0} → Option Producer → (ℕ → Run A) → Run A
with_fd none k = segfault
with_fd (some p) k = k p.fd

-- `while (remaining > 0)`, on fuel.
unfoldable pub publish_loop :
    (fuel : ℕ)
    → Option Producer
    → Header
    → (payload : List ℕ) → (remaining seq : ℕ) → Run (List Send)
publish_loop zero g header payload remaining seq = out_of_fuel
publish_loop (suc fuel) g header payload remaining seq =
    let (header', message) =
      message_assemble header zero_message (drop (seq * payload_max) payload) seq
        (chunk_flag remaining) in
    let rest =
      publish_loop fuel g header' payload (remaining - chunk_size remaining) (uint16 (seq + 1)) in
    if remaining == 0
    then done []
    else with_fd g (λ fd. also_sent (record { fd = fd; message = message }) rest)

-- The state of the calling thread, and what it has sent, oldest first.
pub record Thread : Type 0 where
  pub g_producer : Option Producer
  pub quecode : ℕ
  pub sent : List Send

abbrev pub after_loop : Thread → Run (List Send) → Run (ℕ × Thread)
after_loop t (done ss) = done (0, record t { sent = t.sent ++ ss })
after_loop t segfault = segfault
after_loop t out_of_fuel = out_of_fuel

unfoldable pub publish :
    (msg_id : List ℕ) → Thread → (topic payload : List ℕ) → (payload_size : ℕ) → Run (ℕ × Thread)
publish msg_id t topic payload payload_size =
    if strlen topic == 0 || leb 0xffff (strlen topic)
    then done (minus_one, record t { quecode = quecode_failure })
    else if not (strlen payload == payload_size)
    then done (minus_one, record t { quecode = quecode_failure })
    else after_loop t (
        publish_loop (strlen payload + 1) t.g_producer (header_assemble msg_id zero_header topic)
          payload (strlen payload) 0)
