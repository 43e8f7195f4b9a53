-- ===== src/Protocol.antt =====
-- include/quekka/Quekka_protocol.h and src/quekka/Quekka_protocol.c, whose code is compiled out by
-- `#if 0`. The header is behind a pointer there: its 153 bytes. `none` is an access past the end of
-- the payload array.
pub mod Refusals
pub mod RoundTrip
pub mod Published
pub mod Tests
use tiny_mon.Base.{
  ℕ, ◌+◌, ◌*◌, Option, none, some, List, ◌++◌, ◌==◌, ltb, not, if◌then◌else◌, take, drop, get_or,
  overwrite, minus_one,
}
use tiny_mon.Message.{Message, header_size, payload_max}
use tiny_mon.Message.Wire.{read16}

-- `header->payload_len`.
abbrev pub payload_len : List ℕ → ℕ
payload_len header = read16 header 148

-- The result, and the buffer after the call.
unfoldable pub serialize : Message → (buf : List ℕ) → (size : ℕ) → Option (ℕ × List ℕ)
serialize m buf size =
    let len = payload_len m.header in
    let total_len = header_size + len in
    if ltb size total_len
    then some (minus_one, buf)
    else if ltb payload_max len
    then none
    else some (total_len, overwrite buf total_len (take header_size m.header ++ take len m.payload))

-- The result, and the message after the call.
unfoldable pub deserialize : (buf : List ℕ) → Message → (size : ℕ) → Option (ℕ × Message)
deserialize buf m size =
    let header = take header_size buf in
    let len = payload_len header in
    if ltb size header_size
    then some (minus_one, m)
    else if not (size == len + header_size)
    then some (minus_one, record m { header = header })
    else if ltb payload_max len
    then none
    else some (
      size,
      record {
        header = header;
        payload = overwrite m.payload len (take len (drop header_size buf));
      },
    )
