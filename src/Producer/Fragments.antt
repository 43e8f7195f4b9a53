-- ===== src/Producer/Fragments.antt =====
-- The loop of `Quekka_publish` against the list of the fragments that it sends.
use tiny_mon.Base.{
  ℕ, zero, suc, ◌+◌, ◌-◌, ◌*◌, ◌/◌, ◌<◌, ◌≡◌, refl, List, [], ◌∷◌, some, arith, drop, strlen,
  uint16, ==_ne,
}
use tiny_mon.Message.{Header, Message, zero_message, payload_max}
use tiny_mon.Producer.{message_assemble, chunk_size, chunk_flag, Send, Producer, done, publish_loop}

-- How many messages carry `len` bytes.
abbrev pub fragment_count : ℕ → ℕ
fragment_count len = (len + (payload_max - 1)) / payload_max

fragment_count_step : (r : ℕ) → 0 < r → fragment_count r ≡ suc (fragment_count (r - chunk_size r))
fragment_count_step r h = ground arith

uint16-suc : (k : ℕ) → uint16 (uint16 k + 1) ≡ uint16 (suc k)
uint16-suc k = omega arith

module _ (h : Header) (payload : List ℕ) (len : ℕ) where
  -- The `k`-th message, assembled on its own from the header of the topic.
  abbrev pub fragment : ℕ → Message
  fragment k =
      (message_assemble h zero_message (drop (uint16 k * payload_max) payload) (uint16 k)
        (chunk_flag (len - k * payload_max))).1

  -- The messages from the `k`-th on, `n` of them, sent through `fd`.
  unfoldable pub fragments : (fd k n : ℕ) → List Send
  fragments fd k zero = []
  fragments fd k (suc n) = record { fd = fd; message = fragment k } ∷ fragments fd (suc k) n

  -- With fuel beyond the bytes left the loop ends, and has sent the fragments that are left.
  pub publish_loop-fragments :
      (p : Producer) (fuel k remaining a b c : ℕ)
      → remaining ≡ len - k * payload_max
      → remaining < fuel
      → publish_loop fuel
          (some p)
          (record h { payload_len = a; seq = b; flags = c })
          payload
          remaining
          (uint16 k)
        ≡ done (fragments p.fd k (fragment_count remaining))
  unfolding publish_loop fragments message_assemble
  publish_loop-fragments p zero k remaining a b c e lt = absurd (omega arith)
  publish_loop-fragments p (suc fuel) k zero a b c e lt = refl
  publish_loop-fragments p (suc fuel) k (suc r) a b c e lt =
      let ih =
        publish_loop-fragments p fuel (suc k) (suc r - chunk_size (suc r))
          (uint16 (strlen (drop (uint16 k * payload_max) payload))) (uint16 k) (chunk_flag (suc r))
          (ground arith) (ground arith) in
      rw (
        ==_ne (suc r) 0 (omega arith),
        fragment_count_step (suc r) (omega arith),
        ← e,
        uint16-suc k,
        ih,
      )
