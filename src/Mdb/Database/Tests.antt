-- ===== src/Mdb/Database/Tests.antt =====
-- A database with tables of two record types.
use tiny_mon.Base.{ℕ, ◌≡◌, ◌≢◌, refl, Bool, true, false, none, some}
use mathlib.Core.Bool.{Bool-discrete}
use tiny_mon.Mdb.Key.{number_key}
use tiny_mon.Mdb.Columns.Map.{lookup, emplace}
use tiny_mon.Mdb.Database.{
  Schema, returned, threw, fault, Mdb, empty, update, named, get_table, get_at, has_table,
  drop_table, deref, Change, change, get,
}
use tiny_mon.Mdb.Database.Laws.{get_table_again}
use tiny_mon.Mdb.Database.Sound.{Sound}
use tiny_mon.Mdb.Database.Reach.{Reach, start, gets, Reach-Sound, drop_table_dangles}

-- The record types are `true` and `false`; keys, values, callbacks and names are numbers.
abbrev sample : Schema
sample = record {
  RecordType = Bool;
  same_type = Bool-discrete;
  KeyType = λ r. ℕ;
  ValueType = λ r. ℕ;
  CallbackType = λ r. ℕ;
  key = λ r. number_key;
  blank = λ r. 0;
  Name = ℕ;
  name_key = number_key;
}

-- Table 5 at the address 100, then table 6 at the address 200.
abbrev one_table : Mdb sample
one_table = (get_table sample true 5 (some 7) 100 (empty sample)).1

abbrev two_tables : Mdb sample
two_tables = (get_table sample false 6 none 200 one_table).1

two_tables-Reach : Reach sample two_tables
unfolding get_table get_at update lookup
two_tables-Reach = gets false 6 none 200 refl (gets true 5 (some 7) 100 refl start)

Reach-Sound_example : Sound sample two_tables
Reach-Sound_example = Reach-Sound sample two_tables-Reach

got : get_table sample true 5 (some 7) 100 (empty sample) ≡ (returned 100, one_table)
unfolding get_table get_at lookup
got = refl

get_table_again_example :
    (true ≡ false → get_table sample false 5 (some 8) 300 one_table ≡ (returned 100, one_table))
    × (true ≢ false → get_table sample false 5 (some 8) 300 one_table ≡ (threw, one_table))
get_table_again_example =
    get_table_again sample true false 5 (some 7) (some 8) 100 300 100 (empty sample) one_table got

named_5 : named sample two_tables 5 ≡ some 100
unfolding get_table get_at lookup emplace
named_5 = refl

drop_table_dangles_example :
    (db' : Mdb sample) × (drop_table sample two_tables 5 ≡ (true, db'))
    × (has_table sample db' 5 ≡ false)
    × ((r : Bool) (f : Change sample r) → change sample r 100 db' f ≡ fault)
    × ((r : Bool) (k out : ℕ) → get sample r 100 k out db' ≡ fault)
    × ((r : Bool) (n a' : ℕ)
        → 5 ≢ n
        → named sample two_tables n ≡ some a'
        → (named sample db' n ≡ some a') × (deref sample r a' db' ≡ deref sample r a' two_tables))
drop_table_dangles_example = drop_table_dangles sample 5 100 two_tables-Reach named_5
