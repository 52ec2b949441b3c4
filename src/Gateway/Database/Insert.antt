-- ===== src/Gateway/Database/Insert.antt =====
-- fdb.c: what the calls of `fdb_data_insert` insert.
use mathlib.Core.List.{append-nil, append_assoc}
use linux_programing.Common.{
  sym, ℕ, ◌≤◌, ◌≡◌, refl, length, map, Option, some, get_or, ◌||◌, Bool, true, false, List, [], ◌∷◌,
  ◌++◌, arith, if◌then◌else◌, ◌&&◌,
}
use linux_programing.Common.Int.{pos, negsuc}
use linux_programing.Gateway.Database.{
  Slot, unprepared, prepared, Fdb, fdb_init, bind_and_step, fdb_data_insert, fdb_stmt_cache,
  cache_slot, reset, clear_bindings, bind, row_of, after_step, fdb_stmt_data_insert, fdb_destroy,
  close_connection, System,
}

module _ {Reading : Type 0} where
  abbrev pub is_prepared : Slot Reading → Bool
  is_prepared unprepared = false
  is_prepared (prepared b idle) = true

  -- The statement of `fdb_data_insert` is prepared.
  abbrev pub ready : Fdb Reading → Bool
  ready f = is_prepared (get_or f.stmts fdb_stmt_data_insert unprepared)

  -- The statement was asked for only until it was prepared.
  pub record IsFdb (f : Fdb Reading) : Type 0 where
    pub slots : length f.stmts ≡ 3
    pub once : f.prepares ≡ (if ready f then 1 else 0)

  insert_slots_lem :
      (stmts : List (Slot Reading)) (f : Fdb Reading) (sql_ok stepped : Bool) (r : Reading)
      → f.stmts ≡ stmts
      → length stmts ≡ 3
      → ((fdb_data_insert sql_ok stepped r f).0
          ≡ (if (ready f || sql_ok) && stepped then pos 0 else negsuc 0))
        × ((fdb_data_insert sql_ok stepped r f).1.inserted
            ≡ (if (ready f || sql_ok) && stepped then f.inserted ++ some r ∷ [] else f.inserted))
  unfolding fdb_data_insert fdb_stmt_cache cache_slot bind_and_step reset clear_bindings bind row_of
      after_step
  insert_slots_lem [] f sql_ok stepped r e three = absurd (omega (arith, three))
  insert_slots_lem (unprepared ∷ stmts) f sql_ok stepped r e three = ground (arith, e)
  insert_slots_lem (prepared b idle ∷ stmts) f sql_ok stepped r e three = ground (arith, e)

  -- `fdb_data_insert` returns 0 exactly when the statement is or can be prepared and the step is
  -- done; the reading is then bound and the last row inserted. Else it returns -1 and inserts nothing.
  pub fdb_data_insert_lem :
      (f : Fdb Reading) (sql_ok stepped : Bool) (r : Reading)
      → IsFdb f
      → ((fdb_data_insert sql_ok stepped r f).0
          ≡ (if (ready f || sql_ok) && stepped then pos 0 else negsuc 0))
        × ((fdb_data_insert sql_ok stepped r f).1.inserted
            ≡ (if (ready f || sql_ok) && stepped then f.inserted ++ some r ∷ [] else f.inserted))
  fdb_data_insert_lem f sql_ok stepped r v =
      insert_slots_lem f.stmts f sql_ok stepped r refl v.slots

  insert_slots-IsFdb :
      (stmts : List (Slot Reading)) (prepares : ℕ) (inserted : List (Option Reading))
      (stepped : Bool) (r : Reading)
      → IsFdb (record { stmts = stmts; prepares = prepares; inserted = inserted })
      → IsFdb
          (fdb_data_insert true stepped r
            (record { stmts = stmts; prepares = prepares; inserted = inserted })).1
  unfolding fdb_data_insert fdb_stmt_cache cache_slot bind_and_step reset clear_bindings bind row_of
      after_step
  insert_slots-IsFdb [] prepares inserted stepped r v = absurd (omega (arith, v.slots))
  insert_slots-IsFdb (unprepared ∷ stmts) prepares inserted true r v = record {
    slots = v.slots;
    once = omega (arith, v.once);
  }
  insert_slots-IsFdb (unprepared ∷ stmts) prepares inserted false r v = record {
    slots = v.slots;
    once = omega (arith, v.once);
  }
  insert_slots-IsFdb (prepared b idle ∷ stmts) prepares inserted true r v = record {
    slots = v.slots;
    once = v.once;
  }
  insert_slots-IsFdb (prepared b idle ∷ stmts) prepares inserted false r v = record {
    slots = v.slots;
    once = v.once;
  }

  pub insert-IsFdb :
      (f : Fdb Reading) (stepped : Bool) (r : Reading)
      → IsFdb f
      → IsFdb (fdb_data_insert true stepped r f).1
  insert-IsFdb f stepped r v = insert_slots-IsFdb f.stmts f.prepares f.inserted stepped r v

  pub fdb_init-IsFdb : IsFdb fdb_init
  unfolding fdb_init
  fdb_init-IsFdb = record { slots = refl; once = refl }

  -- The calls of `storage_mgr`, each with whether its step is done.
  pub insert_all : List (Bool × Reading) → Fdb Reading → Fdb Reading
  insert_all [] f = f
  insert_all ((stepped, r) ∷ calls) f = insert_all calls (fdb_data_insert true stepped r f).1

  abbrev pub done : List (Bool × Reading) → List Reading
  done [] = []
  done ((stepped, r) ∷ calls) = if stepped then r ∷ done calls else done calls

  insert_all_lem :
      (calls : List (Bool × Reading)) (f : Fdb Reading)
      → IsFdb f
      → IsFdb (insert_all calls f)
        × ((insert_all calls f).inserted ≡ f.inserted ++ map some (done calls))
  unfolding insert_all
  insert_all_lem [] f v = (v, sym (append-nil f.inserted))
  insert_all_lem ((stepped, r) ∷ calls) f v =
      let g : Fdb Reading = (fdb_data_insert true stepped r f).1 in
      let later = insert_all_lem calls g (insert-IsFdb f stepped r v) in
      let one = fdb_data_insert_lem f true stepped r v in
      (
        later.0,
        ground
            (arith, later.1, one.1, append_assoc f.inserted (some r ∷ []) (map some (done calls))),
      )

  -- From a new database, with a statement that can be prepared, exactly the readings whose step is
  -- done are inserted, in the order of the calls, and the statement is prepared at most once.
  pub insert_all-fdb_init :
      (calls : List (Bool × Reading))
      → ((insert_all calls fdb_init).inserted ≡ map some (done calls))
        × ((insert_all calls fdb_init).prepares ≤ 1)
  unfolding fdb_init
  insert_all-fdb_init calls =
      let run = insert_all_lem calls fdb_init fdb_init-IsFdb in (run.1, ground (arith, run.0.once))

-- A database that was not used gives its connection back when it is destroyed; after an insertion the
-- prepared statement keeps the connection.
fdb_destroy_lem :
    {Reading : Type 0} (stepped : Bool) (r : Reading) (s : System)
    → (fdb_destroy true (fdb_init {Reading = Reading}) s ≡ close_connection s)
      × (fdb_destroy true (fdb_data_insert true stepped r fdb_init).1 s ≡ s)
unfolding fdb_destroy fdb_init fdb_data_insert
fdb_destroy_lem true r s = (refl, refl)
fdb_destroy_lem false r s = (refl, refl)
