-- ===== src/Mdb/Tests.antt =====
-- Tables of numbers, and the theorems about them at those.
use tiny_mon.Base.{ℕ, ◌≡◌, refl, true, false, none, some, List, [], ◌∷◌, ◌++◌}
use mathlib.Core.List.{Perm}
use tiny_mon.Mdb.Key.{number_key}
use tiny_mon.Mdb.Columns
use tiny_mon.Mdb.Columns.Map.{lookup, Unique}
use tiny_mon.Mdb.Columns.Laws.{is_some, value_or}
use tiny_mon.Mdb.Table.{Future, Table, new_table, get, upsert}
use tiny_mon.Mdb.Table.Calls.{Op, upsert_op, erase_op, meanings, view, calls, Shows, get-calls}
use tiny_mon.Mdb.Table.Replay.{replay, AllHonest, Logs, calls-Logs}
use tiny_mon.Mdb.Table.Threads.{State, Reach, start, calls_op, runs, tasks, events}
use tiny_mon.Mdb.Table.Order.{Reach-Logs, waiting-replay, overtaken}

-- A new row, a changed one, another new row, and a row that is removed.
abbrev four_calls : List (Op ℕ ℕ)
four_calls = upsert_op 1 10 ∷ upsert_op 1 11 ∷ upsert_op 2 20 ∷ erase_op 1 ∷ []

-- Its callback is the number 7.
abbrev numbers : Table ℕ ℕ ℕ
numbers = new_table (some 7)

numbers-Shows : Shows (some 7) (λ _. none) numbers
unfolding Unique lookup
numbers-Shows = record { callback = refl; maps = refl; unique = tt }

get-calls_example :
    get (calls 0 four_calls numbers).1 2 5
    ≡ (is_some (meanings four_calls (λ _. none) 2), value_or 5 (meanings four_calls (λ _. none) 2))
get-calls_example = get-calls 0 (some 7) four_calls 2 5

calls-Logs_example :
    Logs 0 7 (calls 0 four_calls numbers).0 (λ _. none) (view (calls 0 four_calls numbers).1)
calls-Logs_example = calls-Logs 0 7 four_calls numbers (λ _. none) numbers-Shows

-- Two calls by a caller that waits for the thread of each.
waited : (os : List (Op ℕ ℕ)) × (s : State ℕ ℕ ℕ) × Reach 0 true numbers os s × (s.pending ≡ [])
unfolding upsert Columns.upsert lookup
waited =
    let one = runs [] [] _ refl (calls_op (upsert_op 1 10) (λ _. refl) start) in
    (_, _, runs [] [] _ refl (calls_op (upsert_op 1 11) (λ _. refl) one), refl)

waiting-replay_example :
    AllHonest 0 (events waited.1.ran) (λ _. none)
    × (replay (events waited.1.ran) (λ _. none) ≡ view waited.1.table)
waiting-replay_example = waiting-replay 0 numbers 7 (λ _. none) numbers-Shows waited.2 waited.3

Reach-Logs_example :
    (fs : List (Future ℕ ℕ ℕ)) × Perm (waited.1.ran ++ waited.1.pending) (tasks fs)
    × Logs 0 7 fs (λ _. none) (view waited.1.table)
Reach-Logs_example = Reach-Logs 0 numbers 7 (λ _. none) numbers-Shows waited.2

overtaken_example :
    (s : State ℕ ℕ ℕ) × Reach 0 false numbers (upsert_op 1 10 ∷ upsert_op 1 11 ∷ []) s
    × (s.pending ≡ [])
    × (view s.table 1 ≡ some 11)
    × (replay (events s.ran) (λ _. none) 1 ≡ some 10)
overtaken_example = overtaken 0 7 1 10 11
