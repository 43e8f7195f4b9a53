-- ===== src/Os/Holds.antt =====
-- What holds of a run where it returns, `Q`, and where it waits or exits, `W`. It may also fault or have
-- too little fuel, which Os/Ensures excludes.
use tiny_mon.Base.{ℕ, ◌≡◌, refl, Bool, true, false, if◌then◌else◌, List, [], ◌∷◌}
use tiny_mon.Os.{
  Sys, Run, done, waiting, exited, fault, out_of_fuel, Cmd, Call, Reply, continue, sys, take_reply,
  answered,
}
use tiny_mon.Os.Ensures.{Ensures, Answered}

pub data Holds {A : Type 0} (W : Sys → Type 0) (Q : A → Sys → Type 0) : Run A → Type 0 where
  ends : {a : A} {s : Sys} → Q a s → Holds W Q (done a s)
  waits : {s : Sys} → W s → Holds W Q (waiting s)
  exits : {code : ℕ} {s : Sys} → W s → Holds W Q (exited code s)
  faults : Holds W Q fault
  starves : Holds W Q out_of_fuel

module _ {A : Type 0} {W : Sys → Type 0} {P : A → Sys → Type 0} where
  pub bind :
      {B : Type 0} {Q : B → Sys → Type 0} {r : Run A} {k : A → Cmd B}
      → Holds W P r
      → ((a : A) (s : Sys) → P a s → Holds W Q (k a s))
      → Holds W Q (continue r k)
  bind (ends p) next = next _ _ p
  bind (waits w) next = waits w
  bind (exits w) next = exits w
  bind faults next = faults
  bind starves next = starves

  pub weaken :
      {Q : A → Sys → Type 0} {r : Run A}
      → Holds W P r
      → ((a : A) (s : Sys) → P a s → Q a s)
      → Holds W Q r
  weaken (ends p) implies = ends (implies _ _ p)
  weaken (waits w) implies = waits w
  weaken (exits w) implies = exits w
  weaken faults implies = faults
  weaken starves implies = starves

  -- The same with another condition where the run waits.
  pub widen :
      {V : Sys → Type 0} {Q : A → Sys → Type 0} {r : Run A}
      → Holds W P r
      → ((s : Sys) → W s → V s)
      → ((a : A) (s : Sys) → P a s → Q a s)
      → Holds V Q r
  widen (ends p) wider implies = ends (implies _ _ p)
  widen (waits w) wider implies = waits (wider _ w)
  widen (exits w) wider implies = exits (wider _ w)
  widen faults wider implies = faults
  widen starves wider implies = starves

  -- A total run keeps its postcondition beside the other.
  pub both :
      {Q : A → Sys → Type 0} {r : Run A}
      → Ensures Q r
      → Holds W P r
      → Ensures (λ a s. Q a s × P a s) r
  both (Ensures.ends q) (ends p) = Ensures.ends (q, p)
  both (Ensures.waits e) p = Ensures.waits e
  both (Ensures.exits e) p = Ensures.exits e

  pub returned : {a : A} {s : Sys} → Holds W P (done a s) → P a s
  returned (ends p) = p

pub branch :
    {A : Type 0} {W : Sys → Type 0} {Q : A → Sys → Type 0} (b : Bool) (m n : Cmd A) (s : Sys)
    → (b ≡ true → Holds W Q (m s))
    → (b ≡ false → Holds W Q (n s))
    → Holds W Q ((if b then m else n) s)
branch true m n s on_true on_false = on_true refl
branch false m n s on_true on_false = on_false refl

take_reply-Holds :
    {W : Sys → Type 0} (c : Call) (s : Sys) (script : List Reply)
    → W s
    → s.script ≡ script
    → Holds W (λ r t. Answered c s r t) (take_reply c s script)
unfolding take_reply answered
take_reply-Holds c s [] w e = waits w
take_reply-Holds c s (r ∷ rest) w e = ends (record { script = e; trace = refl; running = refl })

-- One call, which may wait.
pub sys-Holds :
    {W : Sys → Type 0} (c : Call) (s : Sys) → W s → Holds W (λ r t. Answered c s r t) (sys c s)
unfolding sys
sys-Holds c s w = take_reply-Holds c s s.script w refl

-- Nothing is asked of a run that does not return.
abbrev pub Anything : Sys → Type 0
Anything s = Unit {0}
