-- ===== src/Producer/Outcomes.antt =====
-- All that a call of `Quekka_publish` in src/quekka/Quekka_producer.c can do.
use tiny_mon.Base.{
  ℕ, ◌+◌, ◌/◌, ◌<◌, ◌≤◌, ◌≡◌, ◌≢◌, ◌⊎◌, inl, inr, refl, ap, List, ◌++◌, append-nil, none,
  Option-cases, arith, length, strlen, minus_one, ==_self, ==_ne, lt→leb,
}
use native.Mathlib.Decide.{dec_lt, ℕ_discrete}
use tiny_mon.Quecode.{quecode_failure}
use tiny_mon.Producer.{Send, Thread, Run, done, segfault, publish_loop, publish}
use tiny_mon.Producer.Publish.{publish-wire, publish_rejects, publish_null}

-- A topic of 1 to 65534 bytes, and the right size.
abbrev pub IsAccepted : (topic payload : List ℕ) → (size : ℕ) → Type 0
IsAccepted topic payload size =
    (0 < strlen topic) × (strlen topic < 65535) × (strlen payload ≡ size)

-- What is wrong with the arguments of a call that is refused.
abbrev pub IsRefused : (topic payload : List ℕ) → (size : ℕ) → Type 0
IsRefused topic payload size = (strlen topic ≡ 0) ⊎ (65535 ≤ strlen topic) ⊎ (strlen payload ≢ size)

-- The four ends of a call.
pub data Outcome (t : Thread) (topic payload : List ℕ) (size : ℕ) : Run (ℕ × Thread) → Type 0 where
  refused :
      IsRefused topic payload size
      → Outcome t topic payload size (done (minus_one, record t { quecode = quecode_failure }))
  nothing :
      IsAccepted topic payload size
      → strlen payload ≡ 0
      → Outcome t topic payload size (done (0, t))
  unconnected :
      IsAccepted topic payload size
      → 0 < strlen payload
      → t.g_producer ≡ none
      → Outcome t topic payload size segfault
  published :
      (ss : List Send)
      → IsAccepted topic payload size
      → 0 < strlen payload
      → t.g_producer ≢ none
      → length ss ≡ (strlen payload + 3942) / 3943
      → Outcome t topic payload size (done (0, record t { sent = t.sent ++ ss }))

publish_empty :
    (msg_id topic payload : List ℕ) (t : Thread)
    → 0 < strlen topic
    → strlen topic < 65535
    → strlen payload ≡ 0
    → publish msg_id t topic payload (strlen payload) ≡ done (0, t)
unfolding publish publish_loop
publish_empty msg_id topic payload t named short empty =
    rw
      (
        ==_ne (strlen topic) 0 (omega arith),
        lt→leb 0xffff (strlen topic) short,
        ==_self (strlen payload),
        empty,
      )
      (ap (λ l. done (0, record t { sent = l })) (append-nil t.sent))

sends :
    (msg_id topic payload : List ℕ) (size : ℕ) (t : Thread)
    → IsAccepted topic payload size
    → Outcome t topic payload size (publish msg_id t topic payload size)
sends msg_id topic payload size t (named, short, same) = elim (ℕ_discrete (strlen payload) 0) [
  | yes empty ↦
      rw (← same, publish_empty msg_id topic payload t named short empty)
        (nothing (named, short, refl) empty)
  | no some_bytes ↦ elim (Option-cases t.g_producer) [
    | inl missing ↦
        rw (← same, publish_null msg_id topic payload t missing named short (omega arith))
          (unconnected (named, short, refl) (omega arith) missing)
    | inr (p, connected) ↦
        let (ss, step, count, each) = publish-wire msg_id topic payload t p connected named short in
        rw (← same, step) (published ss (named, short, refl) (omega arith) (λ e. cc) count)
  ]
]

-- Whatever a call is given, it ends in one of four ways, and never goes on for ever. With an empty or too
-- long topic or a wrong size the result is -1, the thread's code says failure, and nothing is sent. Else
-- an empty text gives 0 and nothing is sent; a thread without a producer reads through a null pointer;
-- and with a producer the result is 0, and one message is sent for every 3943 bytes begun. Nothing else
-- of the thread changes.
pub publish-Outcome :
    (msg_id topic payload : List ℕ) (size : ℕ) (t : Thread)
    → Outcome t topic payload size (publish msg_id t topic payload size)
publish-Outcome msg_id topic payload size t = elim (ℕ_discrete (strlen payload) size) [
  | no other ↦
      rw (publish_rejects msg_id topic payload size t (inr (inr other))) (refused (inr (inr other)))
  | yes same ↦ elim (ℕ_discrete (strlen topic) 0) [
    | yes empty ↦ rw (publish_rejects msg_id topic payload size t (inl empty)) (refused (inl empty))
    | no named ↦ elim (dec_lt (strlen topic) 65535) [
      | yes short ↦ sends msg_id topic payload size t (omega arith, short, same)
      | no long ↦
          rw (publish_rejects msg_id topic payload size t (inr (inl (omega arith))))
            (refused (inr (inl (omega arith))))
    ]
  ]
]
