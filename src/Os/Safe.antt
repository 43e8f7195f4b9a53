-- ===== src/Os/Safe.antt =====
-- Runs whose calls are all of one kind, and that have enough fuel: they end with the postcondition,
-- wait when the environment has given all its replies, exit with the code 1, or fault, if `F` allows it.
-- The kind is asked of the calls made since the trace was `base`, however the run ends, but by a fault.
use tiny_mon.Base.{
  ℕ, ◌≡◌, refl, sym, ap, ◌∙◌, append_assoc, ◌++◌, Bool, true, false, if◌then◌else◌, List, [], ◌∷◌,
}
use tiny_mon.Os.{
  Sys, Call, Reply, Run, done, waiting, exited, fault, Cmd, continue, take_reply, answered, sys,
}
use tiny_mon.Os.Ensures.{Ensures, Answered}

-- All calls of a trace are of the kind `P`.
abbrev pub AllCalls : (Call → Type 0) → List (Call × Reply) → Type 0
AllCalls P [] = Unit {0}
AllCalls P ((c, r) ∷ trace) = P c × AllCalls P trace

-- What was called since the trace was `base`, and all of it is of the kind `P`.
abbrev pub Since : (Call → Type 0) → (base trace : List (Call × Reply)) → Type 0
Since P base trace = (made : List (Call × Reply)) × (trace ≡ made ++ base) × AllCalls P made

module _ (P : Call → Type 0) where
  pub Since-self : (base : List (Call × Reply)) → Since P base base
  Since-self base = ([], refl, tt)

  Since-cons :
      {base trace : List (Call × Reply)} (c : Call) (r : Reply)
      → P c
      → Since P base trace
      → Since P base ((c, r) ∷ trace)
  Since-cons c r p (made, e, all) = ((c, r) ∷ made, ap (λ l. (c, r) ∷ l) e, (p, all))

  AllCalls-append :
      (xs ys : List (Call × Reply)) → AllCalls P xs → AllCalls P ys → AllCalls P (xs ++ ys)
  AllCalls-append [] ys h h' = h'
  AllCalls-append ((c, r) ∷ xs) ys h h' = (h.0, AllCalls-append xs ys h.1 h')

  Since-trans :
      (base mid trace : List (Call × Reply))
      → Since P base mid
      → Since P mid trace
      → Since P base trace
  Since-trans base mid trace (xs, e, all) (ys, e', all') = (
    ys ++ xs,
    e' ∙ ap (λ l. ys ++ l) e ∙ sym (append_assoc ys xs base),
    AllCalls-append ys xs all' all,
  )

pub data Safe {A : Type 0} (F : Type 0) (P : Call → Type 0) (base : List (Call × Reply))
    (Q : A → Sys → Type 0) : Run A → Type 0 where
  ends : {a : A} {s : Sys} → Since P base s.trace → Q a s → Safe F P base Q (done a s)
  waits : {s : Sys} → s.script ≡ [] → Since P base s.trace → Safe F P base Q (waiting s)
  exits : {code : ℕ} {s : Sys} → code ≡ 1 → Since P base s.trace → Safe F P base Q (exited code s)
  faults : F → Safe F P base Q fault

module _ {A F : Type 0} {P : Call → Type 0} {base : List (Call × Reply)} where
  pub bind :
      {Q : A → Sys → Type 0} {B : Type 0} {Q' : B → Sys → Type 0} {r : Run A} {k : A → Cmd B}
      → Safe F P base Q r
      → ((a : A) (s : Sys) → Since P base s.trace → Q a s → Safe F P base Q' (k a s))
      → Safe F P base Q' (continue r k)
  bind (ends all q) next = next _ _ all q
  bind (waits e all) next = waits e all
  bind (exits e all) next = exits e all
  bind (faults f) next = faults f

  pub weaken :
      {Q Q' : A → Sys → Type 0} {r : Run A}
      → Safe F P base Q r
      → ((a : A) (s : Sys) → Q a s → Q' a s)
      → Safe F P base Q' r
  weaken (ends all q) implies = ends all (implies _ _ q)
  weaken (waits e all) implies = waits e all
  weaken (exits e all) implies = exits e all
  weaken (faults f) implies = faults f

  -- A total run keeps its postcondition beside the other.
  pub both :
      {Q Q' : A → Sys → Type 0} {r : Run A}
      → Ensures Q r
      → Safe F P base Q' r
      → Safe F P base (λ a s. Q a s × Q' a s) r
  both (Ensures.ends q) (ends all q') = ends all (q, q')
  both (Ensures.waits e) (waits e' all) = waits e' all
  both (Ensures.exits e) (exits e' all) = exits e' all

  -- The calls since `mid`, which was reached from `base`, are calls since `base`.
  pub rebase :
      {mid : List (Call × Reply)} {Q : A → Sys → Type 0} {r : Run A}
      → Since P base mid
      → Safe F P mid Q r
      → Safe F P base (λ a s. Q a s × Since P mid s.trace) r
  rebase made (ends all q) = ends (Since-trans P _ _ _ made all) (q, all)
  rebase made (waits e all) = waits e (Since-trans P _ _ _ made all)
  rebase made (exits e all) = exits e (Since-trans P _ _ _ made all)
  rebase made (faults f) = faults f

  pub branch :
      {Q : A → Sys → Type 0} (b : Bool) (m n : Cmd A) (s : Sys)
      → (b ≡ true → Safe F P base Q (m s))
      → (b ≡ false → Safe F P base Q (n s))
      → Safe F P base Q ((if b then m else n) s)
  branch true m n s on_true on_false = on_true refl
  branch false m n s on_true on_false = on_false refl

module _ {F : Type 0} {P : Call → Type 0} {base : List (Call × Reply)} (c : Call) where
  take_reply-Safe :
      (s : Sys) (script : List Reply)
      → P c
      → Since P base s.trace
      → s.script ≡ script
      → Safe F P base (Answered c s) (take_reply c s script)
  unfolding take_reply answered
  take_reply-Safe s [] p all e = waits e all
  take_reply-Safe s (r ∷ rest) p all e =
      ends (Since-cons P c r p all) (record { script = e; trace = refl; running = refl })

  -- One call of the kind.
  pub sys-Safe : (s : Sys) → P c → Since P base s.trace → Safe F P base (Answered c s) (sys c s)
  unfolding sys
  sys-Safe s p all = take_reply-Safe s s.script p all refl
