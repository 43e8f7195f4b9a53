-- ===== src/Producer/Connect.antt =====
-- src/quekka/Quekka_producer.c, `Quekka_producer_init`.
use tiny_mon.Base.{
  ℕ, ◌≡◌, refl, ap, ◌∙◌, Bool, false, not, Option, none, some, List, ◌∷◌, ◌==◌, if◌then◌else◌,
  Option-cases, inl, inr, take, drop, is_negative,
}
use mathlib.Core.Option.{some-injective}
use tiny_mon.Os.{Address, Sys, Cmd, Call, Reply, pure, done, ◌>>=◌, ◌>>◌}
use tiny_mon.Os.Ensures
use tiny_mon.Os.Ensures.{Ensures, ends, Answered, sys-Answered}
use tiny_mon.Socket.{socket_init, socket_set_server_address, socket_connect}
use tiny_mon.Socket.Laws.{socket_init-trace, socket_connect-trace}
use tiny_mon.Config.{Config}
use tiny_mon.Quecode.{quecode_failure}
use tiny_mon.Producer.{Producer, Thread}

-- `memcpy` takes the bytes of the configuration for those of the producer: those at offset 8 become
-- the pointer, the others are written over.
abbrev pub copied : Config → ℕ → Producer
copied config fd = record { fd = fd; config = take 8 (drop 8 config.ip) }

-- `memory` says whether `calloc` succeeds. The result is the pointer returned.
unfoldable pub connect_producer :
    (inet_pton : List ℕ → Option ℕ)
    → (memory : Bool) → Thread
    → Config
    → Cmd (Option Producer × Thread)
connect_producer inet_pton memory t config = do
  socket_fd ← socket_init
  if socket_fd == 0 then pure (none, record t { quecode = quecode_failure }) else do
    socket_connect (socket_set_server_address inet_pton config.ip config.port) socket_fd
    if not memory
        then pure (none, record t { g_producer = none; quecode = quecode_failure })
        else pure (
          some (copied config socket_fd),
          record t { g_producer = some (copied config socket_fd) },
        )

abbrev pub init_with :
    Option Producer → Thread → Cmd (Option Producer × Thread) → Cmd (Option Producer × Thread)
init_with none t connect = connect
init_with (some p) t connect = pure (some p, t)

unfoldable pub init :
    (inet_pton : List ℕ → Option ℕ)
    → (memory : Bool) → Thread
    → Config
    → Cmd (Option Producer × Thread)
unfolding connect_producer
init inet_pton memory t config =
    init_with t.g_producer t (connect_producer inet_pton memory t config)

-- The two calls that a first successful call adds to the trace.
pub record Connected (inet_pton : List ℕ → Option ℕ) (config : Config) (s : Sys) (p : Producer)
    (s' : Sys) : Type 0 where
  pub made : Reply
  pub connected : Reply
  pub trace :
      s'.trace
      ≡ (Call.connect p.fd (socket_set_server_address inet_pton config.ip config.port), connected)
        ∷ (Call.socket, made)
        ∷ s.trace
  pub succeeded : is_negative connected.value ≡ false

init_with-none :
    (g : Option Producer) (t : Thread) (connect : Cmd (Option Producer × Thread))
    → g ≡ none
    → init_with g t connect ≡ connect
init_with-none none t connect e = refl
init_with-none (some p) t connect e = cc

init_with-some :
    (g : Option Producer) (t : Thread) (connect : Cmd (Option Producer × Thread)) (p : Producer)
    → g ≡ some p
    → init_with g t connect ≡ pure (some p, t)
init_with-some none t connect p e = cc
init_with-some (some q) t connect p e = ap (λ x. pure (x, t)) e

module _ (inet_pton : List ℕ → Option ℕ) (memory : Bool) (t : Thread) (config : Config) where
  abbrev server : Address
  server = socket_set_server_address inet_pton config.ip config.port

  Gives : Sys → Option Producer × Thread → Sys → Type 0
  Gives s (result, t') s' =
      (p : Producer)
      → result ≡ some p
      → Connected inet_pton config s p s' × (t'.g_producer ≡ some p)

  connect_producer-Gives :
      (s : Sys) → Ensures (Gives s) (connect_producer inet_pton memory t config s)
  unfolding connect_producer Gives
  connect_producer-Gives s = Ensures.bind (socket_init-trace s) λ fd u (made, trace, _).
      Ensures.branch (fd == 0) _ _ u (λ e. ends (λ p given. cc))
        (λ e. Ensures.bind (socket_connect-trace server fd u) λ _ v (connected, trace', fine).
          Ensures.branch (not memory) _ _ v (λ e'. ends (λ p given. cc))
            (λ e'. ends (λ p given. (
              record {
                made = made;
                connected = connected;
                trace =
                    trace'
                    ∙ ap (λ x. (Call.connect fd server, connected) ∷ x) trace
                    ∙ ap
                        (λ q. (Call.connect q.fd server, connected) ∷ (Call.socket, made) ∷ s.trace)
                        (some-injective _ _ given);
                succeeded = fine;
              },
              given,
            ))))

  -- A call of a thread without a producer returns a producer only after it has made a socket and
  -- connected it, with success, to the address of the configuration; the thread keeps the producer.
  pub init-Connected :
      (s : Sys)
      → t.g_producer ≡ none
      → Ensures
          (λ (result, t') s'.
            (p : Producer)
            → result ≡ some p
            → Connected inet_pton config s p s' × (t'.g_producer ≡ some p))
          (init inet_pton memory t config s)
  unfolding init Gives
  init-Connected s fresh =
      rw (init_with-none t.g_producer t (connect_producer inet_pton memory t config) fresh)
        (connect_producer-Gives s)

-- Once a call has returned a producer, the next call of the thread returns the same one, whatever
-- configuration it is given, and changes nothing: it makes no system call.
pub init-init :
    (inet_pton : List ℕ → Option ℕ) (memory memory' : Bool) (t : Thread) (config config' : Config)
    (s : Sys)
    → Ensures
        (λ (result, t') s'.
          (p : Producer)
          → result ≡ some p
          → init inet_pton memory' t' config' s' ≡ done (some p, t') s')
        (init inet_pton memory t config s)
unfolding init Gives
init-init inet_pton memory memory' t config config' s = elim (Option-cases t.g_producer) [
  | inl e ↦ rw (init_with-none t.g_producer t (connect_producer inet_pton memory t config) e) (
      Ensures.weaken (connect_producer-Gives inet_pton memory t config s)
        λ (result, t') s' gives p given.
          ap (λ f. f s')
            (init_with-some t'.g_producer t' (connect_producer inet_pton memory' t' config') p
              (gives p given).1))
  | inr (q, e) ↦
      rw (init_with-some t.g_producer t (connect_producer inet_pton memory t config) q e) (
        ends (λ p given.
          ap (λ f. f s)
            (init_with-some t.g_producer t (connect_producer inet_pton memory' t config') p
              (e ∙ given))))
]
