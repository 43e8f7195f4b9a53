-- ===== src/Protocol/Refusals.antt =====
-- What `Quekka_deserialize` refuses.
use tiny_mon.Base.{
  ℕ, ◌+◌, ◌<◌, ◌≡◌, ◌≢◌, ◌⊎◌, refl, some, List, take, arith, minus_one, le→ltb, lt→ltb, ==_ne,
}
use native.Mathlib.Decide.{dec_lt}
use tiny_mon.Message.{Message, header_size}
use tiny_mon.Protocol.{payload_len, deserialize}

-- Bytes that are fewer than a header, or not as many as the header counts, give -1, and the payload of
-- the message stays as it was; so does its header, if there are fewer bytes than a header.
pub deserialize_refuses :
    (buf : List ℕ) (m : Message) (size : ℕ)
    → (size < header_size) ⊎ (size ≢ payload_len (take header_size buf) + header_size)
    → (m' : Message) × (deserialize buf m size ≡ some (minus_one, m'))
      × (m'.payload ≡ m.payload)
      × (size < header_size → m' ≡ m)
unfolding deserialize
deserialize_refuses buf m size bad = elim (dec_lt size header_size) [
  | yes small ↦ (m, rw (lt→ltb size header_size small), refl, λ _. refl)
  | no large ↦ (
    record m { header = take header_size buf },
    rw (
      le→ltb size header_size (omega arith),
      ==_ne size (payload_len (take header_size buf) + header_size) (ground (arith, bad)),
    ),
    refl,
    λ small. absurd (omega arith),
  )
]
