-- ===== src/Protocol/Tests.antt =====
-- A message of three bytes, written and read back.
use tiny_mon.Base.{ℕ, ◌≡◌, refl, List, [], ◌∷◌, ◌++◌, some, replicate, take, drop, arith}
use tiny_mon.Message.{Message, zero_message}
use tiny_mon.Protocol.{serialize, deserialize}
use tiny_mon.Protocol.RoundTrip.{deserialize-serialize}

abbrev abc : Message
abc = record {
  header = replicate 148 0 ++ (3 ∷ 0 ∷ 0 ∷ 0 ∷ 1 ∷ []);
  payload = b'a' ∷ b'b' ∷ b'c' ∷ replicate 3940 0;
}

abbrev buffer : List ℕ
buffer = replicate 200 0

deserialize-serialize_example :
    (buf' : List ℕ) × (serialize abc buffer 200 ≡ some (156, buf'))
    × (deserialize buf' zero_message 156
        ≡ some (
          156,
          record {
            header = abc.header;
            payload = take 3 abc.payload ++ drop 3 zero_message.payload;
          },
        ))
deserialize-serialize_example =
    deserialize-serialize abc refl (omega arith) refl buffer 200 zero_message (omega arith)
