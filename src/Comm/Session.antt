-- ===== src/Comm/Session.antt =====
-- `comm_handle_data`: the conversation with one client.
use tiny_mon.Base.{
  ℕ, zero, suc, ◌+◌, ◌-◌, ◌<◌, ◌≤◌, ◌≡◌, refl, ap, ◌∙◌, true, ◌||◌, ◌==◌, List, [], ◌∷◌, ◌++◌,
  length, set, replicate, cstr, arith, is_negative, false, take-of_le, drop-replicate, set-append,
}
use tiny_mon.Base.Memory.{cstr-append-zero}
use tiny_mon.Os.{Sys, Call, Reply}
use tiny_mon.Os.Ensures
use tiny_mon.Os.Ensures.{Ensures, ends, Answered, sys-Answered, length-script}
use tiny_mon.Os.Holds
use tiny_mon.Os.Holds.{Holds, starves, sys-Holds}
use tiny_mon.Comm.{
  buffer_size, echo, quit, strncmp_equal, received, response, comm_loop, comm_handle_data,
}

-- A `read` that moved as many bytes as its size and its result allow.
pub record FullRead (r : Reply) : Type 0 where
  pub fits : r.value < buffer_size
  pub whole : length r.bytes ≡ r.value

-- A `read` that brought a text, and not the end, an error or "quit".
abbrev pub IsText : Reply → Type 0
IsText r =
    ((r.value == 0) || is_negative r.value ≡ false) × (strncmp_equal 4 (received r) quit ≡ false)

-- The answer to the text of a whole `read`.
abbrev pub IsEcho : Reply → List ℕ → Type 0
IsEcho r bytes = FullRead r → bytes ≡ echo ++ cstr r.bytes

-- The calls of a conversation that has ended, on top of an older trace: rounds of a `read` that brings a
-- text and the `write` that echoes it with success, and a last `read` that brings the end, an error or
-- "quit", or a last `write` that fails.
pub data Session (fd : ℕ) : List (Call × Reply) → List (Call × Reply) → Type 0 where
  ended :
      {old : List (Call × Reply)} {r : Reply}
      → ((r.value == 0) || is_negative r.value ≡ true)
      → Session fd old ((Call.read fd 1023, r) ∷ old)
  quitted :
      {old : List (Call × Reply)} {r : Reply}
      → ((r.value == 0) || is_negative r.value ≡ false)
      → strncmp_equal 4 (received r) quit ≡ true
      → Session fd old ((Call.read fd 1023, r) ∷ old)
  broken :
      {old : List (Call × Reply)} {r w : Reply} {bytes : List ℕ}
      → IsText r
      → IsEcho r bytes
      → is_negative w.value ≡ true
      → Session fd old ((Call.write fd bytes, w) ∷ (Call.read fd 1023, r) ∷ old)
  round :
      {old new : List (Call × Reply)} {r w : Reply} {bytes : List ℕ}
      → IsText r
      → IsEcho r bytes
      → is_negative w.value ≡ false
      → Session fd ((Call.write fd bytes, w) ∷ (Call.read fd 1023, r) ∷ old) new
      → Session fd old new

-- The calls of a conversation that goes on: the same rounds, and where the program waits, for a text or
-- for the `write` that answers the last one.
pub data Open (fd : ℕ) : List (Call × Reply) → List (Call × Reply) → Type 0 where
  reading : {old : List (Call × Reply)} → Open fd old old
  writing :
      {old : List (Call × Reply)} {r : Reply}
      → IsText r
      → Open fd old ((Call.read fd 1023, r) ∷ old)
  again :
      {old new : List (Call × Reply)} {r w : Reply} {bytes : List ℕ}
      → IsText r
      → IsEcho r bytes
      → is_negative w.value ≡ false
      → Open fd ((Call.write fd bytes, w) ∷ (Call.read fd 1023, r) ∷ old) new
      → Open fd old new

length-cstr : (s : List ℕ) → length (cstr s) ≤ length s
unfolding cstr
length-cstr [] = omega arith
length-cstr (c ∷ s) = ground (arith, length-cstr s)

cstr-received : (r : Reply) → FullRead r → cstr (received r) ≡ cstr r.bytes
unfolding received
cstr-received r f =
    ap cstr (
      rw
        (
          take-of_le r.value r.bytes (omega (arith, f.whole)),
          drop-replicate {A = ℕ} r.value 1024 0 f.fits,
        )
        (ap (λ (n : ℕ). set (r.bytes ++ (0 ∷ replicate (1024 - suc r.value) 0)) n 0) (omega arith)
          ∙ set-append r.bytes (0 ∷ replicate (1024 - suc r.value) 0) r.value 0 0 f.whole))
    ∙ cstr-append-zero r.bytes (replicate (1024 - suc r.value) 0)

response-echo : (r : Reply) → FullRead r → response r ≡ echo ++ cstr r.bytes
unfolding response
response-echo r f =
    ap (λ l. echo ++ l)
      (rw (cstr-received r f)
        (take-of_le 1025 (cstr r.bytes) (omega (arith, length-cstr r.bytes, f.fits, f.whole))))

comm_loop-Session :
    (fuel fd : ℕ) (s : Sys)
    → Holds
        (λ t. Open fd s.trace t.trace)
        (λ code t. Session fd s.trace t.trace)
        (comm_loop fuel fd s)
unfolding comm_loop
comm_loop-Session zero fd s = starves
comm_loop-Session (suc fuel) fd s = Holds.bind (sys-Holds _ s reading) λ r t a.
    Holds.branch (r.value == 0 || is_negative r.value) _ _ t
      (λ e. Holds.ends (rw a.trace (Session.ended e)))
      (λ e.
        Holds.branch (strncmp_equal 4 (received r) quit) _ _ t
          (λ e'. Holds.ends (rw a.trace (Session.quitted e e')))
          (λ e'. Holds.bind (sys-Holds _ t (rw a.trace (writing (e, e')))) λ w u b.
            Holds.branch (is_negative w.value) _ _ u
              (λ e''.
                Holds.ends (rw (b.trace, a.trace) (Session.broken (e, e') (response-echo r) e'')))
              (λ e''.
                Holds.widen (comm_loop-Session fuel fd u)
                  (λ v rest. again (e, e') (response-echo r) e'' (rw (b.trace, a.trace) at rest))
                  λ code v rest.
                    Session.round (e, e') (response-echo r) e'' (rw (b.trace, a.trace) at rest))))

comm_loop-returns :
    (fuel fd : ℕ) (s : Sys)
    → length s.script < fuel
    → Ensures (λ code t. code ≡ 0) (comm_loop fuel fd s)
unfolding comm_loop
comm_loop-returns zero fd s lt = absurd (omega arith)
comm_loop-returns (suc fuel) fd s lt = Ensures.bind (sys-Answered _ s) λ r t a.
    Ensures.branch (r.value == 0 || is_negative r.value) _ _ t (λ e. ends refl)
      (λ e.
        Ensures.branch (strncmp_equal 4 (received r) quit) _ _ t (λ e'. ends refl)
          (λ e'. Ensures.bind (sys-Answered _ t) λ w u b.
            Ensures.branch (is_negative w.value) _ _ u (λ e''. ends refl)
              (λ e''.
                comm_loop-returns fuel fd u (omega (arith, length-script a, length-script b)))))

-- With all the fuel that it needs, the loop returns 0 whenever it ends, and what it has done is a
-- conversation: each text, but "quit", is answered before the next `read`, and if it has come whole, in at
-- most 1023 bytes, by "Echo: " and the whole text. It ends after the first `read` that brings the end, an
-- error or "quit", or the first `write` that fails. Where the loop waits, all texts have been answered
-- like this, with success, but perhaps the last.
pub comm_handle_data-Session :
    (fd : ℕ) (s : Sys)
    → Ensures (λ code t. (code ≡ 0) × Session fd s.trace t.trace) (comm_handle_data fd s)
      × Holds
          (λ t. Open fd s.trace t.trace)
          (λ code t. Session fd s.trace t.trace)
          (comm_handle_data fd s)
unfolding comm_handle_data
comm_handle_data-Session fd s =
    let fuel = length s.script + 1 in
    let session = comm_loop-Session fuel fd s in
    (Holds.both (comm_loop-returns fuel fd s (omega arith)) session, session)
