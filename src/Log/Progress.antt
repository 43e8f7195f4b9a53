-- ===== src/Log/Progress.antt =====
-- The mutex of src/quekka/Quekka_log.c is given back.
use tiny_mon.Base.{
  ℕ, ◌≡◌, ◌≢◌, refl, sym, subst, ◌∙◌, inl, inr, Bool, true, false, Option, none, some, Option-cases,
  [], ◌∷◌, ◌++◌,
}
use native.Mathlib.Decide.{ℕ_discrete}
use tiny_mon.Log.{World}
use tiny_mon.Log.Grows.{Op}
use tiny_mon.Log.Pieces.{call_of}
use tiny_mon.Log.Atomic.{update_same, update_other, Reach-call}
use tiny_mon.Log.Threads.{
  Call, Pc, idle, waiting, console, console_text, console_newline, file, file_text, file_newline,
  leaving, Move, console_off, console_on, console_format, console_end, file_off, file_missing,
  file_on, file_format, file_end, State, update, Step, refused, admitted, locks, moves, unlocks,
  calls, Reach,
}

-- The thread that makes a step; the calls that are one step are no thread's.
pub actor : {s t : State} → Step s t → Option ℕ
actor (refused i c e low) = some i
actor (admitted i c e high) = some i
actor (locks i c e free) = some i
actor (moves i m) = some i
actor (unlocks i c e) = some i
actor (calls o other free) = none

-- Steps of the thread `i` alone lead from one state to another.
pub data Alone (i : ℕ) : State → State → Type 0 where
  stays : {s : State} → Alone i s s
  goes : {s t u : State} (x : Step s t) → actor x ≡ some i → Alone i t u → Alone i s u

-- From `s` the thread `i` alone gets to the end of the call `c` and gives the mutex back.
pub record Frees (s : State) (i : ℕ) (c : Call) : Type 0 where
  pub after : State
  pub alone : Alone i s after
  pub free : after.owner ≡ none
  pub outside : after.pc i ≡ idle
  pub others : (j : ℕ) → i ≢ j → after.pc j ≡ s.pc j
  pub logged : after.log ≡ s.log ++ (Op.write c.level c.line ∷ [])

module _ (i : ℕ) (c : Call) where
  -- The thread makes one piece, and the rest from there.
  then_on :
      (s : State) (w' : World) (p p' : Pc)
      → s.pc i ≡ p
      → Move s.world p w' p'
      → ((t : State) → t.world ≡ w' → t.pc i ≡ p' → Frees t i c)
      → Frees s i c
  unfolding actor
  then_on s w' p p' at move rest =
      let t : State = record s { world = w'; pc = update s.pc i p' } in
      let f : Frees t i c = rest t refl (update_same s.pc i p') in
      record {
        after = f.after;
        alone = goes (moves i (subst (λ q. Move s.world q w' p') (sym at) move)) refl f.alone;
        free = f.free;
        outside = f.outside;
        others = λ j ne. f.others j ne ∙ update_other s.pc i j p' ne;
        logged = f.logged;
      }

  from_leaving : (s : State) → s.pc i ≡ leaving c → Frees s i c
  unfolding actor
  from_leaving s at = record {
    after = record s {
      owner = none;
      pc = update s.pc i idle;
      log = s.log ++ (Op.write c.level c.line ∷ []);
    };
    alone = goes (unlocks i c at) refl stays;
    free = refl;
    outside = update_same s.pc i idle;
    others = λ j ne. update_other s.pc i j idle ne;
    logged = refl;
  }

  from_file_newline : (s : State) → s.pc i ≡ file_newline c → Frees s i c
  from_file_newline s at =
      then_on s _ (file_newline c) (leaving c) at file_end (λ t _ at'. from_leaving t at')

  from_file_text : (s : State) (used : Bool) → s.pc i ≡ file_text used c → Frees s i c
  from_file_text s used at =
      then_on s _ (file_text used c) (file_newline c) at file_format
        (λ t _ at'. from_file_newline t at')

  from_file : (s : State) (used : Bool) → s.pc i ≡ file used c → Frees s i c
  from_file s used at = elim (ℕ_discrete s.world.logger.file_output 0) [
    | yes off ↦
        then_on s s.world (file used c) (leaving c) at (file_off off)
          (λ t _ at'. from_leaving t at')
    | no on ↦ elim (Option-cases s.world.logger.file) [
      | inl missing ↦
          then_on s s.world (file used c) (leaving c) at (file_missing missing)
            (λ t _ at'. from_leaving t at')
      | inr (name, opened) ↦
          then_on s _ (file used c) (file_text used c) at (file_on on opened)
            (λ t _ at'. from_file_text t used at')
    ]
  ]

  from_console_newline : (s : State) → s.pc i ≡ console_newline c → Frees s i c
  from_console_newline s at =
      then_on s _ (console_newline c) (file true c) at console_end (λ t _ at'. from_file t true at')

  from_console_text : (s : State) → s.pc i ≡ console_text c → Frees s i c
  from_console_text s at =
      then_on s _ (console_text c) (console_newline c) at console_format
        (λ t _ at'. from_console_newline t at')

  from_console : (s : State) → s.pc i ≡ console c → Frees s i c
  from_console s at = elim (ℕ_discrete s.world.logger.console_output 0) [
    | yes off ↦
        then_on s s.world (console c) (file false c) at (console_off off)
          (λ t _ at'. from_file t false at')
    | no on ↦
        then_on s _ (console c) (console_text c) at (console_on on)
          (λ t _ at'. from_console_text t at')
  ]

module _ (i : ℕ) where
  from_call : (p : Pc) (c : Call) (s : State) → call_of p ≡ some c → s.pc i ≡ p → Frees s i c
  from_call idle c s e at = cc
  from_call (waiting c') c s e at = cc
  from_call (console c') c s e at = from_console i c s (at ∙ cc)
  from_call (console_text c') c s e at = from_console_text i c s (at ∙ cc)
  from_call (console_newline c') c s e at = from_console_newline i c s (at ∙ cc)
  from_call (file used c') c s e at = from_file i c s used (at ∙ cc)
  from_call (file_text used c') c s e at = from_file_text i c s used (at ∙ cc)
  from_call (file_newline c') c s e at = from_file_newline i c s (at ∙ cc)
  from_call (leaving c') c s e at = from_leaving i c s (at ∙ cc)

-- No call blocks the others for good: in whatever state the threads are, the one that has the mutex gets
-- from there to the end of its call by steps of its own alone. The mutex is then free, the thread is
-- outside, the others stand where they stood, and its line is the last call that has given the mutex
-- back.
pub Reach-Frees :
    {w : World} {s : State} (i : ℕ) → Reach w s → s.owner ≡ some i → (c : Call) × Frees s i c
Reach-Frees {w} {s} i r owned =
    let (c, in_call) = Reach-call i r owned in (c, from_call i (s.pc i) c s in_call refl)
