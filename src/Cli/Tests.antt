-- ===== src/Cli/Tests.antt =====
-- The client with messages of a producer, and with an end of its input.
use tiny_mon.Base.{ℕ, ◌-◌, ◌≡◌, refl, true, List, [], ◌∷◌, some, drop, strlen, replicate, arith}
use tiny_mon.Os.{Address, Sys, Reply, fault}
use tiny_mon.Os.Safe.{Safe, Since-self}
use tiny_mon.Epoll.{Handler}
use tiny_mon.Epoll.Safe.{WaitFailed}
use tiny_mon.Message.Wire.{wire}
use tiny_mon.Producer
use tiny_mon.Producer.{Producer, Thread, publish}
use tiny_mon.Cli.{Heap, receive_loop, callback_fn, main}
use tiny_mon.Cli.Receive.{ClientCall, Left, callback_fn-Left}
use tiny_mon.Cli.Rounds.{received}
use tiny_mon.Producer.Single.{published}
use tiny_mon.Cli.Messages.{published_shows_empty, published_overflows}
use tiny_mon.Cli.Runs.{Connected, server, main-Connected}

abbrev local : Address
local = record { ip = 0x7f00_0001; port = 3879 }

abbrev handler : Handler
handler = record { epoll_fd = 4 }

-- Each block holds the same 16 bytes, whatever its size.
abbrev heap : Heap
heap s size = some (replicate 16 0xaa)

abbrev reply : ℕ → Reply
reply value = record {
  value = value;
  errno = 0;
  peer = record { ip = 0; port = 0 };
  bytes = [];
  ready = [];
}

abbrev kernel : List Reply → Sys
kernel script = record { script = script; trace = []; errno = 0; running = 0 }

callback_fn-Left_example :
    Safe
      (Unit {0})
      (ClientCall local)
      []
      (λ _ t. Left handler 3 t)
      (callback_fn heap (some handler) 0 1 [] (kernel (reply 0 ∷ reply 0 ∷ reply 0 ∷ [])))
callback_fn-Left_example =
    callback_fn-Left local heap handler 0 1 [] (kernel (reply 0 ∷ reply 0 ∷ reply 0 ∷ []))
      (Since-self _ [])

main-Connected_example :
    Safe
      (Unit {0})
      (ClientCall (server heap (λ text. some 0x7f00_0001) []))
      []
      (λ code t.
        (code ≡ 0) × WaitFailed t × Connected (server heap (λ text. some 0x7f00_0001) []) [] t)
      (main heap
        (λ text. some 0x7f00_0001)
        true
        []
        (kernel (reply 3 ∷ reply 4 ∷ reply 0 ∷ reply 0 ∷ reply 0xffff_ffff ∷ [])))
main-Connected_example =
    main-Connected heap (λ text. some 0x7f00_0001) true []
      (kernel (reply 3 ∷ reply 4 ∷ reply 0 ∷ reply 0 ∷ reply 0xffff_ffff ∷ []))

abbrev ready : Thread
ready = record { g_producer = some (record { fd = 5; config = [] }); quecode = 0; sent = [] }

abbrev topic : List ℕ
topic = b'd' ∷ b'i' ∷ b's' ∷ b'k' ∷ []

abbrev now : List ℕ
now = b'2' ∷ b'0' ∷ b'2' ∷ b'5' ∷ []

abbrev nine : List ℕ
nine = b'd' ∷ b'i' ∷ b's' ∷ b'k' ∷ b' ' ∷ b'f' ∷ b'u' ∷ b'l' ∷ b'l' ∷ []

abbrev two : List ℕ
two = b'h' ∷ b'i' ∷ []

-- The message with `nine`, in the two pieces that the client asks for.
abbrev arrived : Sys
arrived = kernel (
    received (reply 0) 152 (wire (published now topic nine))
    ∷ received (reply 0) (strlen nine - 1) (drop 152 (wire (published now topic nine)))
    ∷ reply 0
    ∷ [])

published_shows_empty_example :
    (publish now ready topic nine (strlen nine)
      ≡ Producer.done
          (0, record ready { sent = record { fd = 5; message = published now topic nine } ∷ [] }))
    × (header' : List ℕ) × (t : Sys) × (t.script ≡ reply 0 ∷ [])
    × (receive_loop heap (some handler) 4 (replicate 154 0) [] arrived
        ≡ receive_loop heap (some handler) 3 header' ([] ∷ []) t)
unfolding strlen
published_shows_empty_example =
    published_shows_empty now topic nine ready (record { fd = 5; config = [] }) heap (some handler)
      3 (replicate 154 0) [] arrived (replicate 16 0xaa) (reply 0) (reply 0) (reply 0 ∷ []) refl
      (omega arith) (omega arith) (omega arith) (omega arith) refl (λ t. refl)

published_overflows_example :
    (publish now ready topic two (strlen two)
      ≡ Producer.done
          (0, record ready { sent = record { fd = 5; message = published now topic two } ∷ [] }))
    × (receive_loop heap
          (some handler)
          2
          (replicate 154 0)
          []
          (kernel (received (reply 0) 152 (wire (published now topic two)) ∷ []))
        ≡ fault)
unfolding strlen
published_overflows_example =
    published_overflows now topic two ready (record { fd = 5; config = [] }) heap (some handler) 1
      (replicate 154 0) [] (kernel (received (reply 0) 152 (wire (published now topic two)) ∷ []))
      (replicate 16 0xaa) (reply 0) [] refl (omega arith) (omega arith) (omega arith) (omega arith)
      refl (λ t. refl)
