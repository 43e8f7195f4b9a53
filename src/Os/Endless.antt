-- ===== src/Os/Endless.antt =====
-- Runs that never return: they wait, when the environment has given all its replies, or exit, and
-- each wait and each exit satisfies its condition.
use tiny_mon.Base.{ℕ, ◌≡◌, refl, Bool, true, false, if◌then◌else◌, List, [], ◌∷◌}
use tiny_mon.Os.{Sys, Call, Reply, Run, waiting, exited, Cmd, continue, take_reply, answered, sys}
use tiny_mon.Os.Ensures.{Answered}

-- A run that never returns: it waits, with no reply left and in a state that satisfies `W`, or it
-- exits by `X`.
pub data Endless {A : Type 0} (W : Sys → Type 0) (X : ℕ → Sys → Type 0) : Run A → Type 0 where
  waits : {s : Sys} → s.script ≡ [] → W s → Endless W X (waiting s)
  exits : {code : ℕ} {s : Sys} → X code s → Endless W X (exited code s)

module _ {A : Type 0} {W : Sys → Type 0} {X : ℕ → Sys → Type 0} where
  take_reply-Endless :
      (c : Call) (s : Sys) (script : List Reply) (k : Reply → Cmd A)
      → s.script ≡ script
      → W s
      → ((r : Reply) (t : Sys) → Answered c s r t → Endless W X (k r t))
      → Endless W X (continue (take_reply c s script) k)
  unfolding take_reply answered
  take_reply-Endless c s [] k e w next = waits e w
  take_reply-Endless c s (r ∷ rest) k e w next =
      next r _ (record { script = e; trace = refl; running = refl })

  pub sys-Endless :
      (c : Call) (s : Sys) (k : Reply → Cmd A)
      → W s
      → ((r : Reply) (t : Sys) → Answered c s r t → Endless W X (k r t))
      → Endless W X (continue (sys c s) k)
  unfolding sys
  sys-Endless c s k w next = take_reply-Endless c s s.script k refl w next

  pub branch :
      (b : Bool) (m n : Cmd A) (s : Sys)
      → (b ≡ true → Endless W X (m s))
      → (b ≡ false → Endless W X (n s))
      → Endless W X ((if b then m else n) s)
  branch true m n s on_true on_false = on_true refl
  branch false m n s on_true on_false = on_false refl
