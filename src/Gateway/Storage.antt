-- ===== src/Gateway/Storage.antt =====
-- final-assignment/main-server.c, `storage_mgr`: what it does with the messages that it takes from the
-- list.
pub mod Delivered
use linux_programing.Common.{ℕ, zero, suc, Bool, List, [], ◌∷◌}
use linux_programing.Common.Int.{ℤ, pos, negsuc}
use linux_programing.Gateway.Message.{JsonApi, Msg, Attempt, returned, bad_access, msg_parse}
use linux_programing.Gateway.Database.{Fdb, fdb_data_insert}

-- A message, and the answers of SQLite while it is inserted.
pub record Taken : Type 0 where
  pub msg : List ℕ
  pub sql_ok : Bool
  pub stepped : Bool

module _ {Item Real : Type 0} (api : JsonApi Item Real) (sen_ids : List ℤ) where
  -- `if (ret == 0)`, with `*parsed` as it is then.
  insert_parsed :
      Taken → Attempt (ℤ × Msg Real) → Fdb (Msg Real) → Attempt (Msg Real × Fdb (Msg Real))
  insert_parsed t bad_access f = bad_access
  insert_parsed t (returned (pos zero, m)) f =
      returned (m, (fdb_data_insert t.sql_ok t.stepped m f).1)
  insert_parsed t (returned (pos (suc n), m)) f = returned (m, f)
  insert_parsed t (returned (negsuc n, m)) f = returned (m, f)

  pub store : Taken → Msg Real → Fdb (Msg Real) → Attempt (Msg Real × Fdb (Msg Real))
  unfolding insert_parsed
  store t m f = insert_parsed t (msg_parse api sen_ids t.msg m) f

  -- The loop over the messages taken.
  pub store_all : List Taken → Msg Real → Fdb (Msg Real) → Attempt (Msg Real × Fdb (Msg Real))
  store_all [] m f = returned (m, f)
  store_all (t ∷ ts) m f = elim (store t m f) [
    | bad_access ↦ bad_access
    | returned (n, g) ↦ store_all ts n g
  ]
