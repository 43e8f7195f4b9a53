-- ===== src/Protocol/RoundTrip.antt =====
-- `Quekka_deserialize` after `Quekka_serialize`.
use tiny_mon.Base.{
  ℕ, ◌+◌, ◌≤◌, ◌≡◌, ap, ◌∙◌, some, List, ◌++◌, arith, length, take, drop, length-take, take-append,
  drop-append, take-of_le, append_assoc, le→ltb, ==_self, overwrite,
}
use tiny_mon.Message.{Message, header_size, payload_max}
use tiny_mon.Protocol.{payload_len, serialize, deserialize}

pub deserialize-at :
    (b h p : List ℕ) (m : Message) (size : ℕ)
    → take header_size b ≡ h
    → size ≡ payload_len h + header_size
    → payload_len h ≤ payload_max
    → take (payload_len h) (drop header_size b) ≡ p
    → deserialize b m size
      ≡ some (size, record { header = h; payload = overwrite m.payload (payload_len h) p })
unfolding deserialize
deserialize-at b h p m size front total fits back = rw (
  front,
  le→ltb size header_size (omega (arith, total)),
  ← total,
  ==_self size,
  le→ltb payload_max (payload_len h) fits,
  back,
)

module _ (m : Message) (whole_header : length m.header ≡ header_size)
    (fits : payload_len m.header ≤ payload_max)
    (whole_payload : length m.payload ≡ payload_max) where
  abbrev pub len : ℕ
  len = payload_len m.header

  abbrev pub bytes : List ℕ
  bytes = m.header ++ take len m.payload

  pub serialize-bytes :
      (buf : List ℕ) (size : ℕ)
      → header_size + len ≤ size
      → serialize m buf size ≡ some (header_size + len, bytes ++ drop (header_size + len) buf)
  unfolding serialize
  serialize-bytes buf size room =
      rw (le→ltb size (header_size + len) room, le→ltb payload_max len fits)
        (ap
          (λ h. some (header_size + len, (h ++ take len m.payload) ++ drop (header_size + len) buf))
          (take-of_le header_size m.header (omega (arith, whole_header))))

  -- What a message of whole arrays, whose length field is at most the size of the payload array, writes
  -- into a large enough buffer is read back: the header, and of the payload the bytes
  -- that the header counts, whatever the receiving message held. Both calls return the total length.
  pub deserialize-serialize :
      (buf : List ℕ) (size : ℕ) (m' : Message)
      → header_size + len ≤ size
      → (buf' : List ℕ) × (serialize m buf size ≡ some (header_size + len, buf'))
        × (deserialize buf' m' (header_size + len)
            ≡ some (
              header_size + len,
              record { header = m.header; payload = take len m.payload ++ drop len m'.payload },
            ))
  deserialize-serialize buf size m' room = (
    bytes ++ drop (header_size + len) buf,
    serialize-bytes buf size room,
    deserialize-at _ m.header (take len m.payload) m' (header_size + len)
        (ap (take header_size) grouped ∙ take-append m.header rest header_size whole_header)
        (omega arith) fits
        (ap (λ l. take len (drop header_size l)) grouped
          ∙ ap (take len) (drop-append m.header rest header_size whole_header)
          ∙ take-append (take len m.payload) (drop (header_size + len) buf) len
              (omega (arith, length-take len m.payload, fits, whole_payload))),
  )
    where
      rest : List ℕ
      rest = take len m.payload ++ drop (header_size + len) buf

      grouped : bytes ++ drop (header_size + len) buf ≡ m.header ++ rest
      grouped = append_assoc m.header (take len m.payload) (drop (header_size + len) buf)
