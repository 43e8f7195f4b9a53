-- ===== src/Os/Ensures.antt =====
-- Total correctness of a run: it does not fault and does not run out of fuel. It waits only when the
-- environment has given all its replies, and exits only with the code 1. Where it ends by itself its
-- result and state satisfy the postcondition.
use tiny_mon.Base.{
  ℕ, suc, ap, length, Bool, true, false, if◌then◌else◌, ℕ, ◌≡◌, refl, List, [], ◌∷◌,
}
use tiny_mon.Os.{
  Sys, Reply, Call, Run, done, waiting, exited, Cmd, continue, answered, take_reply, sys,
}

pub data Ensures {A : Type 0} (Q : A → Sys → Type 0) : Run A → Type 0 where
  ends : {a : A} {s : Sys} → Q a s → Ensures Q (done a s)
  waits : {s : Sys} → s.script ≡ [] → Ensures Q (waiting s)
  exits : {code : ℕ} {s : Sys} → code ≡ 1 → Ensures Q (exited code s)

module _ {A : Type 0} {P : A → Sys → Type 0} where
  pub bind :
      {B : Type 0} {Q : B → Sys → Type 0} {r : Run A} {k : A → Cmd B}
      → Ensures P r
      → ((a : A) (s : Sys) → P a s → Ensures Q (k a s))
      → Ensures Q (continue r k)
  bind (ends p) next = next _ _ p
  bind (waits e) next = waits e
  bind (exits e) next = exits e

  pub weaken :
      {Q : A → Sys → Type 0} {r : Run A}
      → Ensures P r
      → ((a : A) (s : Sys) → P a s → Q a s)
      → Ensures Q r
  weaken (ends p) implies = ends (implies _ _ p)
  weaken (waits e) implies = waits e
  weaken (exits e) implies = exits e

-- What a call changes: it takes one reply, and is the newest entry of the trace.
pub record Answered (c : Call) (s : Sys) (r : Reply) (t : Sys) : Type 0 where
  pub script : s.script ≡ r ∷ t.script
  pub trace : t.trace ≡ (c, r) ∷ s.trace
  pub running : t.running ≡ s.running

take_reply-Answered :
    (c : Call) (s : Sys) (script : List Reply)
    → s.script ≡ script
    → Ensures (Answered c s) (take_reply c s script)
unfolding take_reply answered
take_reply-Answered c s [] e = waits e
take_reply-Answered c s (r ∷ rest) e = ends (record { script = e; trace = refl; running = refl })

pub sys-Answered : (c : Call) (s : Sys) → Ensures (Answered c s) (sys c s)
unfolding sys
sys-Answered c s = take_reply-Answered c s s.script refl

-- A call that is answered by the first reply.
pub sys-cons :
    (c : Call) (s : Sys) (r : Reply) (rest : List Reply)
    → s.script ≡ r ∷ rest
    → sys c s ≡ done r (answered c s r rest)
unfolding sys take_reply
sys-cons c s r rest e = rw e refl

pub length-script :
    {c : Call} {s t : Sys} {r : Reply} → Answered c s r t → length s.script ≡ suc (length t.script)
length-script a = ap length a.script

-- A test, with its outcome for each branch.
pub branch :
    {A : Type 0} {Q : A → Sys → Type 0} (b : Bool) (m n : Cmd A) (s : Sys)
    → (b ≡ true → Ensures Q (m s))
    → (b ≡ false → Ensures Q (n s))
    → Ensures Q ((if b then m else n) s)
branch true m n s on_true on_false = on_true refl
branch false m n s on_true on_false = on_false refl
