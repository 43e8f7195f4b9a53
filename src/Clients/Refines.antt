-- ===== src/Clients/Refines.antt =====
-- Sequences of operations on the linked list give the answers that a list of clients allows.
use tiny_mon.Base.{ℕ, ◌≡◌, ◌⊎◌, Option, none, some, List, [], ◌∷◌, length}
use tiny_mon.Os.{Address}
use tiny_mon.Clients.{Info, new_info, Outcome, ok, fault, out_of_fuel, max_clients}
use tiny_mon.Clients.Table.{ClientTable, find_info, erase_info}

pub data Op : Type 0 where
  add : (fd : ℕ) → Address → Op
  find : (fd : ℕ) → Op
  remove : (fd : ℕ) → Op
  count : Op

-- What an operation answers; after `crashed` nothing more is answered.
pub data Answer : Type 0 where
  added : Option Info → Answer
  found : Option Info → Answer
  removed : Answer
  counted : ℕ → Answer
  crashed : Answer

-- A list of clients, the newest first, as a specification. Only an addition may be refused, with
-- 1000 clients or for lack of memory (`Oom`), and then it changes nothing.
pub data Allowed (Oom : Type 0) : List Op → List Info → List Answer → Type 0 where
  ends : {xs : List Info} → Allowed Oom [] xs []
  adds :
      {os : List Op} {xs : List Info} {rest : List Answer} {fd : ℕ} {addr : Address}
      → Allowed Oom os (new_info fd addr ∷ xs) rest
      → Allowed Oom (Op.add fd addr ∷ os) xs (Answer.added (some (new_info fd addr)) ∷ rest)
  refuses :
      {os : List Op} {xs : List Info} {rest : List Answer} {fd : ℕ} {addr : Address}
      → (length xs ≡ max_clients) ⊎ Oom
      → Allowed Oom os xs rest
      → Allowed Oom (Op.add fd addr ∷ os) xs (Answer.added none ∷ rest)
  finds :
      {os : List Op} {xs : List Info} {rest : List Answer} {fd : ℕ}
      → Allowed Oom os xs rest
      → Allowed Oom (Op.find fd ∷ os) xs (Answer.found (find_info xs fd) ∷ rest)
  removes :
      {os : List Op} {xs : List Info} {rest : List Answer} {fd : ℕ}
      → Allowed Oom os (erase_info xs fd) rest
      → Allowed Oom (Op.remove fd ∷ os) xs (Answer.removed ∷ rest)
  counts :
      {os : List Op} {xs : List Info} {rest : List Answer}
      → Allowed Oom os xs rest
      → Allowed Oom (Op.count ∷ os) xs (Answer.counted (length xs) ∷ rest)

module _ (ct : ClientTable) where
  open ct use {Table, Shows}

  abbrev found_answer : Outcome (Option Info) → List Answer → List Answer
  found_answer (ok i) rest = Answer.found i ∷ rest
  found_answer fault rest = Answer.crashed ∷ []
  found_answer out_of_fuel rest = Answer.crashed ∷ []

  abbrev removed_answer : Outcome Table → (Table → List Answer) → List Answer
  removed_answer (ok t) k = Answer.removed ∷ k t
  removed_answer fault k = Answer.crashed ∷ []
  removed_answer out_of_fuel k = Answer.crashed ∷ []

  unfoldable pub answers : List Op → Table → List Answer
  answers [] t = []
  answers (Op.add fd addr ∷ os) t =
      Answer.added (ct.add t fd addr).0 ∷ answers os (ct.add t fd addr).1
  answers (Op.find fd ∷ os) t = found_answer (ct.find t fd) (answers os t)
  answers (Op.remove fd ∷ os) t = removed_answer (ct.remove t fd) (answers os)
  answers (Op.count ∷ os) t = Answer.counted (ct.count t) ∷ answers os t
