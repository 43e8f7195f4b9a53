-- ===== src/Message.antt =====
-- include/quekka/Quekka_message.h: the packed message, as the bytes of its two parts.
pub mod Wire
use tiny_mon.Base.{ℕ, ◌-◌, List, [], ◌∷◌, ◌++◌, replicate, bytes16}

abbrev pub msg_size : ℕ
msg_size = 4096

abbrev pub topic_max : ℕ
topic_max = 128

abbrev pub msg_id_max : ℕ
msg_id_max = 18

abbrev pub header_size : ℕ
header_size = 153

abbrev pub payload_max : ℕ
payload_max = msg_size - header_size

abbrev pub flag_more : ℕ
flag_more = 0

abbrev pub flag_last : ℕ
flag_last = 1

pub record Header : Type 0 where
  pub topic : List ℕ
  pub message_id : List ℕ
  pub topic_len : ℕ
  pub payload_len : ℕ
  pub seq : ℕ
  pub flags : ℕ

-- `Quekka_header header = {0}`.
abbrev pub zero_header : Header
zero_header = record {
  topic = replicate topic_max 0;
  message_id = replicate msg_id_max 0;
  topic_len = 0;
  payload_len = 0;
  seq = 0;
  flags = 0;
}

-- The packed layout: no byte stands between two fields.
unfoldable pub header_bytes : Header → List ℕ
header_bytes h =
    h.topic
    ++ (h.message_id
        ++ (bytes16 h.topic_len ++ (bytes16 h.payload_len ++ (bytes16 h.seq ++ (h.flags ∷ [])))))

-- A message in memory: the 153 bytes of its header and the bytes of its payload array.
pub record Message : Type 0 where
  pub header : List ℕ
  pub payload : List ℕ

abbrev pub zero_message : Message
zero_message = record { header = replicate header_size 0; payload = replicate payload_max 0 }
