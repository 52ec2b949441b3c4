-- ===== src/Tests/Storage.antt =====
-- The database of the gateway at concrete calls.
use linux_programing.Common.{ℕ, ◌≤◌, ◌≡◌, Bool, true, false, some, List, [], ◌∷◌}
use linux_programing.Gateway.Database.{fdb_init}
use linux_programing.Gateway.Database.Insert.{insert_all, insert_all-fdb_init}

abbrev calls : List (Bool × ℕ)
calls = (true, 21) ∷ (false, 22) ∷ (true, 23) ∷ []

insert_all_example :
    ((insert_all calls fdb_init).inserted ≡ some 21 ∷ some 23 ∷ [])
    × ((insert_all calls fdb_init).prepares ≤ 1)
insert_all_example = insert_all-fdb_init calls
