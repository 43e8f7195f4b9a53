-- ===== src/Producer/Pieces.antt =====
-- `Quekka_publish`: the sequence number and the text of each message, in the order of sending.
use tiny_mon.Base.{
  ℕ, zero, suc, ◌+◌, ◌-◌, ◌*◌, ◌/◌, ◌%◌, ◌<◌, ◌≤◌, ◌≡◌, refl, ap₂, List, [], ◌∷◌, ◌++◌, map, some,
  arith, take, drop, cstr, strlen, uint16,
}
use tiny_mon.Message.{Header, payload_max}
use tiny_mon.Message.Wire.{wire_seq, wire_text}
use tiny_mon.Producer.{Send, Producer, Thread, done, publish}
use tiny_mon.Producer.Layout.{HasSizes, wire_seq-message}
use tiny_mon.Producer.Fragments.{fragment_count, fragments}
use tiny_mon.Producer.Publish.{wire_text-fragment, assembled, sends, publish-sends, sizes}

-- The sequence number and the text that a receiver reads.
abbrev pub piece : Send → ℕ × List ℕ
piece s = (wire_seq s.message, wire_text s.message)

-- The pieces of a text from the `k`-th on, `n` of them: 3942 bytes of every 3943.
unfoldable pub pieces : (text : List ℕ) → (k n : ℕ) → List (ℕ × List ℕ)
pieces text k zero = []
pieces text k (suc n) =
    (k % 0x1_0000, take 3942 (drop (k * payload_max) text)) ∷ pieces text (suc k) n

fragments-pieces :
    (h : Header) (payload : List ℕ) (sz : HasSizes h) (fd k n : ℕ)
    → n ≡ fragment_count (strlen payload - k * payload_max)
    → k + n ≤ 65536
    → map piece (fragments h payload (strlen payload) fd k n) ≡ pieces (cstr payload) k n
unfolding fragments pieces
fragments-pieces h payload sz fd k zero e b = refl
fragments-pieces h payload sz fd k (suc n) e b =
    ap₂ (λ x y. x ∷ y)
      (ap₂ (λ (x : ℕ) (y : List ℕ). (x, y)) (wire_seq-message h _ (uint16 k) _ sz)
        (wire_text-fragment h payload sz k (omega arith) (omega arith)))
      (fragments-pieces h payload sz fd (suc k) n (omega arith) (omega arith))

-- With a connected producer and a topic of 1 to 65534 bytes, a text of at most 65536 * 3943 bytes is
-- sent in order: the messages are numbered from 0 on, modulo 2^16, and the one with the number `k` has
-- the text from the byte 3943 * k on, without the last of the 3943 bytes of a full message.
pub publish-pieces :
    (msg_id topic payload : List ℕ) (t : Thread) (p : Producer)
    → t.g_producer ≡ some p
    → 0 < strlen topic
    → strlen topic < 65535
    → strlen payload ≤ 65536 * payload_max
    → (ss : List Send) × (publish msg_id t topic payload (strlen payload)
        ≡ done (0, record t { sent = t.sent ++ ss }))
      × (map piece ss ≡ pieces (cstr payload) 0 ((strlen payload + 3942) / 3943))
publish-pieces msg_id topic payload t p connected named short bound = (
  sends msg_id topic payload t p connected named short,
  publish-sends msg_id topic payload t p connected named short,
  fragments-pieces (assembled msg_id topic payload t p connected named short) payload
      (sizes msg_id topic payload t p connected named short) p.fd 0
      (fragment_count (strlen payload)) (omega arith) (omega arith),
)
