-- ===== src/Log/Atomic.antt =====
-- The lines of several threads in src/quekka/Quekka_log.c are written as if one by one.
use tiny_mon.Base.{
  ℕ, ◌≡◌, ◌≢◌, refl, sym, ap, subst, ◌∙◌, inl, inr, le→ltb, ==_self, ==_ne, Option, none, some,
  Option-cases, List, [], ◌∷◌, ◌++◌, arith,
}
use mathlib.Core.Option.{some-injective}
use native.Mathlib.Decide.{ℕ_discrete}
use tiny_mon.Log.{World, log_write}
use tiny_mon.Log.Grows.{Op, step, steps}
use tiny_mon.Log.Pieces.{write_line, finish, call_of, Move-finish, Move-call}
use tiny_mon.Log.Threads.{
  Call, Pc, idle, waiting, console, leaving, Move, State, update, NotWrite, refused, admitted,
  locks, moves, unlocks, calls, Reach, start, later,
}

-- A call in one piece: a line that has passed the test of its level is written.
unfoldable pub commit : Op → World → World
unfolding step
commit (Op.write level line) w = write_line line w
commit (Op.init openable complaint name level) w = step (Op.init openable complaint name level) w
commit (Op.set_level level) w = step (Op.set_level level) w
commit (Op.enable_console enable) w = step (Op.enable_console enable) w
commit (Op.enable_file enable) w = step (Op.enable_file enable) w
commit Op.close w = step Op.close w

unfoldable pub commits : List Op → World → World
unfolding commit
commits [] w = w
commits (o ∷ os) w = commits os (commit o w)

commits-snoc :
    (os : List Op) (o : Op) (w : World) → commits (os ++ (o ∷ [])) w ≡ commit o (commits os w)
unfolding commits
commits-snoc [] o w = refl
commits-snoc (o' ∷ os) o w = commits-snoc os o (commit o' w)

-- What is left of the line of a thread in a call makes the world one of whole calls.
abbrev Taken : (w world : World) → List Op → Pc → Type 0
Taken w world log p =
    (c : Call) × (call_of p ≡ some c) × (finish p world ≡ write_line c.line (commits log w))

-- The owner of the mutex is the only thread in a call, and with the mutex free the world is one of
-- whole calls.
record Inv (w : World) (s : State) : Type 0 where
  pub outside : (i : ℕ) → s.owner ≢ some i → call_of (s.pc i) ≡ none
  pub free : s.owner ≡ none → s.world ≡ commits s.log w
  pub taken : (i : ℕ) → s.owner ≡ some i → Taken w s.world s.log (s.pc i)

pub update_same : (pc : ℕ → Pc) (i : ℕ) (p : Pc) → update pc i p i ≡ p
unfolding update
update_same pc i p = rw (==_self i) refl

pub update_other : (pc : ℕ → Pc) (i j : ℕ) (p : Pc) → i ≢ j → update pc i p j ≡ pc j
unfolding update
update_other pc i j p ne = rw (==_ne i j ne) refl

update-call :
    (pc : ℕ → Pc) (i j : ℕ) (p : Pc) (x : Option Call)
    → (i ≡ j → call_of p ≡ x)
    → (i ≢ j → call_of (pc j) ≡ x)
    → call_of (update pc i p j) ≡ x
update-call pc i j p x on_same on_other = elim (ℕ_discrete i j) [
  | yes same ↦
      ap (λ k. call_of (update pc i p k)) (sym same)
      ∙ ap call_of (update_same pc i p)
      ∙ on_same same
  | no ne ↦ ap call_of (update_other pc i j p ne) ∙ on_other ne
]

commit-step : (o : Op) → NotWrite o → (w : World) → commit o w ≡ step o w
unfolding commit
commit-step (Op.init openable complaint name level) n w = refl
commit-step (Op.set_level level) n w = refl
commit-step (Op.enable_console enable) n w = refl
commit-step (Op.enable_file enable) n w = refl
commit-step Op.close n w = refl
commit-step (Op.write level line) n w = absurd n

module _ (w : World) (s : State) (inv : Inv w s) where
  -- A thread in a call has the mutex.
  owner-call : (i : ℕ) (c : Call) → call_of (s.pc i) ≡ some c → s.owner ≡ some i
  owner-call i c e = elim (Option-cases s.owner) [
    | inl free ↦
        absurd (let out = inv.outside i (λ q. let clash = sym free ∙ q in absurd cc) in absurd cc)
    | inr (j, owned) ↦ elim (ℕ_discrete j i) [
      | yes same ↦ owned ∙ ap some same
      | no ne ↦ let out = inv.outside i (λ q. ne (some-injective j i (sym owned ∙ q))) in absurd cc
    ]
  ]

  -- A thread outside a call does not have it.
  not_owner : (i : ℕ) → call_of (s.pc i) ≡ none → s.owner ≢ some i
  not_owner i e owned = let (c, in_call, _) = inv.taken i owned in absurd cc

  admitted-Inv :
      (i : ℕ) (c : Call) → s.pc i ≡ idle → Inv w (record s { pc = update s.pc i (waiting c) })
  admitted-Inv i c e =
      let out = not_owner i (ap call_of e) in
      record {
        outside = λ j h. update-call s.pc i j (waiting c) none (λ _. refl) (λ _. inv.outside j h);
        free = inv.free;
        taken = λ j owned.
            subst (Taken w s.world s.log)
              (sym (update_other s.pc i j (waiting c) (λ q. out (owned ∙ ap some (sym q)))))
              (inv.taken j owned);
      }

  locks-Inv :
      (i : ℕ) (c : Call)
      → s.pc i ≡ waiting c
      → s.owner ≡ none
      → Inv w (record s { owner = some i; pc = update s.pc i (console c) })
  locks-Inv i c e free = record {
    outside = λ j h.
        update-call s.pc i j (console c) none (λ q. absurd (h (ap some q)))
          (λ _. inv.outside j (λ q. let clash = sym free ∙ q in absurd cc));
    free = λ bad. absurd cc;
    taken = λ j owned.
        subst (λ k. Taken w s.world s.log (update s.pc i (console c) k)) (some-injective i j owned)
          (subst (Taken w s.world s.log) (sym (update_same s.pc i (console c)))
            (c, refl, ap (write_line c.line) (inv.free free)));
  }

  moves-Inv :
      (i : ℕ) (w' : World) (p : Pc)
      → Move s.world (s.pc i) w' p
      → Inv w (record s { world = w'; pc = update s.pc i p })
  moves-Inv i w' p move =
      let (c, before, after) = Move-call move in
      let owned = owner-call i c before in
      record {
        outside = λ j h.
            update-call s.pc i j p none (λ q. absurd (h (owned ∙ ap some q)))
              (λ _. inv.outside j h);
        free = λ bad. absurd (let clash = sym bad ∙ owned in absurd cc);
        taken = λ j owned'.
            let (c', in_call, rest) = inv.taken i owned in
            let same : c' ≡ c = some-injective c' c (sym in_call ∙ before) in
            subst (λ k. Taken w w' s.log (update s.pc i p k))
              (some-injective i j (sym owned ∙ owned'))
              (subst (Taken w w' s.log) (sym (update_same s.pc i p))
                (c', after ∙ ap some (sym same), sym (Move-finish move) ∙ rest));
      }

  unlocks-Inv :
      (i : ℕ) (c : Call)
      → s.pc i ≡ leaving c
      → Inv w (record s {
        owner = none;
        pc = update s.pc i idle;
        log = s.log ++ (Op.write c.level c.line ∷ []);
      })
  unfolding commit
  unlocks-Inv i c e =
      let owned = owner-call i c (ap call_of e) in
      let (c', in_call, rest) = inv.taken i owned in
      let same : c' ≡ c = some-injective c' c (sym in_call ∙ ap call_of e) in
      record {
        outside = λ j h.
            update-call s.pc i j idle none (λ _. refl)
              (λ ne. inv.outside j (λ q. ne (some-injective i j (sym owned ∙ q))));
        free = λ _.
            ap (λ p. finish p s.world) (sym e)
            ∙ rest
            ∙ ap {A = Call} (λ x. write_line x.line (commits s.log w)) same
            ∙ sym (commits-snoc s.log (Op.write c.level c.line) w);
        taken = λ j bad. absurd cc;
      }

  calls-Inv :
      (o : Op)
      → NotWrite o
      → s.owner ≡ none
      → Inv w (record s { world = step o s.world; log = s.log ++ (o ∷ []) })
  calls-Inv o n free = record {
    outside = inv.outside;
    free = λ _.
        ap (step o) (inv.free free)
        ∙ sym (commit-step o n (commits s.log w))
        ∙ sym (commits-snoc s.log o w);
    taken = λ i owned. absurd (let clash = sym free ∙ owned in absurd cc);
  }

Reach-Inv : {w : World} {s : State} → Reach w s → Inv w s
unfolding commits
Reach-Inv start = record { outside = λ i h. refl; free = λ e. refl; taken = λ i owned. absurd cc }
Reach-Inv (later r (refused i c e low)) = Reach-Inv r
Reach-Inv (later {s} r (admitted i c e high)) = admitted-Inv _ s (Reach-Inv r) i c e
Reach-Inv (later {s} r (locks i c e free)) = locks-Inv _ s (Reach-Inv r) i c e free
Reach-Inv (later {s} r (moves i {w} {p} move)) = moves-Inv _ s (Reach-Inv r) i w p move
Reach-Inv (later {s} r (unlocks i c e)) = unlocks-Inv _ s (Reach-Inv r) i c e
Reach-Inv (later {s} r (calls o n free)) = calls-Inv _ s (Reach-Inv r) o n free

-- The owner of the mutex is in a call.
pub Reach-call :
    {w : World} {s : State} (i : ℕ)
    → Reach w s
    → s.owner ≡ some i
    → (c : Call) × (call_of (s.pc i) ≡ some c)
Reach-call i r owned = let (c, in_call, rest) = (Reach-Inv r).taken i owned in (c, in_call)

-- A call at the level that the logger has now, so that it passes the test of its level.
abbrev pub at_level : Op → World → Op
at_level (Op.write level line) w = Op.write w.logger.level line
at_level o w = o

abbrev pub passing : List Op → World → List Op
passing [] w = []
passing (o ∷ os) w = at_level o w ∷ passing os (commit o w)

at_level-step : (o : Op) (w : World) → commit o w ≡ step (at_level o w) w
unfolding commit step log_write
at_level-step (Op.init openable complaint name level) w = refl
at_level-step (Op.set_level level) w = refl
at_level-step (Op.enable_console enable) w = refl
at_level-step (Op.enable_file enable) w = refl
at_level-step Op.close w = refl
at_level-step (Op.write level line) w = rw (le→ltb w.logger.level w.logger.level (omega arith)) refl

commits-steps : (os : List Op) (w : World) → commits os w ≡ steps (passing os w) w
unfolding commits steps
commits-steps [] w = refl
commits-steps (o ∷ os) w =
    commits-steps os (commit o w) ∙ ap (steps (passing os (commit o w))) (at_level-step o w)

-- However the steps of any number of threads are interleaved, no line is torn: whenever the mutex is
-- free, the files, stderr and the logger are what the calls that have given it back leave when they are
-- made one after the other, in the order in which they had it. A line is then as if its level were the
-- logger's at that time: it passed the test before it had the mutex.
pub Reach-Atomic :
    {w : World} {s : State} → Reach w s → s.owner ≡ none → s.world ≡ steps (passing s.log w) w
Reach-Atomic {w} {s} r free = (Reach-Inv r).free free ∙ commits-steps s.log w

-- No two threads are in the part of `log_write` that the mutex guards.
pub Reach-exclusive :
    {w : World} {s : State} (i j : ℕ) (c c' : Call)
    → Reach w s
    → call_of (s.pc i) ≡ some c
    → call_of (s.pc j) ≡ some c'
    → i ≡ j
Reach-exclusive {w} {s} i j c c' r e e' =
    some-injective i j
      (sym (owner-call w s (Reach-Inv r) i c e) ∙ owner-call w s (Reach-Inv r) j c' e')
