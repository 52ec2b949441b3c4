-- ===== src/Gateway/Database.antt =====
-- final-assignment/fdb/fdb.c: the database of the gateway. What SQLite and the file system answer
-- are parameters.
pub mod Handles
pub mod Insert
use linux_programing.Common.{
  ℕ, ◌+◌, ◌-◌, Bool, true, false, Option, none, some, List, [], ◌∷◌, ◌++◌, if◌then◌else◌, set,
  get_or, leb,
}
use linux_programing.Common.Int.{ℤ, pos, negsuc}

-- The open connections, prepared statements and open files, the statements that were run, and the
-- contents of `sensor.db`, if it exists.
pub record System : Type 0 where
  pub connections : ℕ
  pub statements : ℕ
  pub files : ℕ
  pub executed : ℕ
  pub sensor_db : Option (List ℕ)

-- `sqlite3_open_v2` leaves a handle to close also when it fails.
abbrev pub open_connection : System → System
open_connection s = record s { connections = s.connections + 1 }

abbrev pub close_connection : System → System
close_connection s = record s { connections = s.connections - 1 }

abbrev pub fopen : System → System
fopen s = record s { files = s.files + 1 }

abbrev pub fclose : System → System
fclose s = record s { files = s.files - 1 }

-- The results of `sqlite3_step`; any other is `sqlite_error`.
pub data StepResult : Type 0 where
  sqlite_misuse sqlite_row sqlite_done sqlite_error : StepResult

-- A statement of the script: whether it could be prepared, and the result of the step.
pub record Statement : Type 0 where
  pub prepared : Bool
  pub result : StepResult

abbrev pub step_ok : StepResult → Bool
step_ok sqlite_error = false
step_ok _ = true

-- The loop over the script: whether it came to its end.
run_script : List Statement → System → Bool × System
run_script [] s = (true, s)
run_script (st ∷ script) s =
    let stepped : System = record s { statements = s.statements + 1 } in
    let done : System = record stepped { statements = stepped.statements - 1 } in
    let later = run_script script (record done { executed = s.executed + 1 }) in
    if st.prepared then if step_ok st.result then later else (false, done) else (false, s)

-- The answers to `fdb_create_file`.
pub record Creation : Type 0 where
  pub opened : Bool
  pub script : List Statement
  pub chmod : Bool

pub fdb_create_file : Creation → System → ℤ × System
unfolding run_script
fdb_create_file c s =
    let opened : System = open_connection s in
    let ran = run_script c.script opened in
    if c.opened
    then if ran.0
      then if c.chmod then (pos 0, close_connection ran.1) else (negsuc 0, close_connection ran.1)
      else (negsuc 0, close_connection ran.1)
    else (negsuc 0, close_connection opened)

-- A block that `fread` returns, and whether `fwrite` writes all of it. What a failed `fwrite`
-- leaves in the file is not looked at: the file is removed.
pub record Block : Type 0 where
  pub bytes : List ℕ
  pub written : Bool

-- The answers to `fdb_create_sensor_db`: the first `fopen` of the template, its creation, the
-- second `fopen`, that of the copy, the blocks of the template, `fclose` of the copy and `chmod`.
pub record Copying : Type 0 where
  pub template : Bool
  pub creation : Creation
  pub template_again : Bool
  pub dest : Bool
  pub blocks : List Block
  pub closed : Bool
  pub chmod : Bool

-- The copy loop: `result`, and the contents of the copy, none once it is unlinked.
copy_blocks : List Block → (copied : List ℕ) → ℤ × Option (List ℕ)
copy_blocks [] copied = (pos 0, some copied)
copy_blocks (b ∷ blocks) copied =
    let later = copy_blocks blocks (copied ++ b.bytes) in
    if b.written then later else (negsuc 0, none)

-- The part from the second `fopen` on.
finish_copy : Copying → ℤ × Option (List ℕ) → System → ℤ × System
finish_copy c (negsuc n, contents) s =
    if c.closed
    then (negsuc 0, record s { sensor_db = none })
    else (negsuc 0, record s { sensor_db = contents })
finish_copy c (pos n, contents) s =
    if c.closed
    then if c.chmod
      then (pos 0, record s { sensor_db = contents })
      else (negsuc 0, record s { sensor_db = none })
    else (negsuc 0, record s { sensor_db = contents })

-- Both files are open in the loop, and closed behind it.
copy_template : Copying → System → ℤ × System
unfolding copy_blocks finish_copy
copy_template c s =
    let source : System = fopen s in
    if c.dest
    then finish_copy c (copy_blocks c.blocks []) (fclose (fclose (fopen source)))
    else (negsuc 0, fclose source)

create_template : Copying → ℤ × System → ℤ × System
unfolding copy_template
create_template c (negsuc n, s) = (negsuc 0, s)
create_template c (pos n, s) = if c.template_again then copy_template c s else (negsuc 0, s)

pub fdb_create_sensor_db : Copying → System → ℤ × System
unfolding create_template
fdb_create_sensor_db c s =
    if c.template then copy_template c s else create_template c (fdb_create_file c.creation s)

-- The slots of `stmt`: a prepared statement has its bindings, if they are set, and is `idle` when it was
-- not stepped since it was prepared or reset.
pub data Slot (Reading : Type 0) : Type 0 where
  unprepared : Slot Reading
  prepared : (bound : Option Reading) → (idle : Bool) → Slot Reading

-- `FDB_STMT_SIZE` and `FDB_STMT_DATA_INSERT`
abbrev pub fdb_stmt_size : ℕ
fdb_stmt_size = 3

abbrev pub fdb_stmt_data_insert : ℕ
fdb_stmt_data_insert = 0

-- `fdb_t`, with the number of calls that prepare a statement and the rows that were inserted.
pub record Fdb (Reading : Type 0) : Type 0 where
  pub stmts : List (Slot Reading)
  pub prepares : ℕ
  pub inserted : List (Option Reading)

module _ {Reading : Type 0} where
  -- The callers of `fdb_init` assume that there is memory.
  unfoldable pub fdb_init : Fdb Reading
  fdb_init = record {
    stmts = unprepared ∷ unprepared ∷ unprepared ∷ [];
    prepares = 0;
    inserted = [];
  }

  reopen : ℤ × System → Bool → Option (Fdb Reading) × System
  unfolding fdb_init
  reopen (negsuc n, s) second = (none, s)
  reopen (pos n, s) second =
      let again : System = open_connection s in
      if second then (some fdb_init, again) else (none, close_connection again)

  -- The answers are those of the first and of the second `sqlite3_open_v2`.
  pub fdb_open_sensor_db : (first second : Bool) → Copying → System → Option (Fdb Reading) × System
  unfolding fdb_create_sensor_db fdb_init reopen
  fdb_open_sensor_db first second c s =
      let opened : System = open_connection s in
      if first
      then (some fdb_init, opened)
      else reopen (fdb_create_sensor_db c (close_connection opened)) second

  -- `sqlite3_reset` and `sqlite3_clear_bindings`.
  reset : Slot Reading → Slot Reading
  reset unprepared = unprepared
  reset (prepared b idle) = prepared b true

  clear_bindings : Slot Reading → Slot Reading
  clear_bindings unprepared = unprepared
  clear_bindings (prepared b idle) = prepared none idle

  -- The three calls of `sqlite3_bind_...`, which fail on a statement that was stepped and not reset and
  -- leave its bindings; their results are not looked at.
  bind : Reading → Slot Reading → Slot Reading
  bind r unprepared = unprepared
  bind r (prepared b true) = prepared (some r) true
  bind r (prepared b false) = prepared b false

  -- `sqlite3_step`: it inserts what is bound, and a row of NULLs, `none`, when nothing is.
  row_of : Slot Reading → List (Option Reading)
  row_of unprepared = []
  row_of (prepared b idle) = b ∷ []

  after_step : Slot Reading → Slot Reading
  after_step unprepared = unprepared
  after_step (prepared b idle) = prepared b false

  -- Prepare the statement, or reset it and clear its bindings.
  cache_slot : (sql_ok : Bool) → (index : ℕ) → Slot Reading → Fdb Reading → ℤ × Fdb Reading
  unfolding reset clear_bindings
  cache_slot sql_ok index unprepared f =
      let asked : Fdb Reading = record f { prepares = f.prepares + 1 } in
      if sql_ok
      then (pos 0, record asked { stmts = set f.stmts index (prepared none true) })
      else (negsuc 0, asked)
  cache_slot sql_ok index (prepared b idle) f =
      (pos 0, record f { stmts = set f.stmts index (clear_bindings (reset (prepared b idle))) })

  -- The index is a member of the enumeration `fdb_stmt`.
  pub fdb_stmt_cache : (sql_ok : Bool) → (index : ℕ) → Fdb Reading → ℤ × Fdb Reading
  unfolding cache_slot
  fdb_stmt_cache sql_ok index f =
      if leb fdb_stmt_size index
      then (negsuc 0, f)
      else cache_slot sql_ok index (get_or f.stmts index unprepared) f

  bind_and_step : (stepped : Bool) → Reading → ℤ × Fdb Reading → ℤ × Fdb Reading
  unfolding bind row_of after_step
  bind_and_step stepped r (negsuc n, f) = (negsuc 0, f)
  bind_and_step stepped r (pos n, f) =
      let bound : Slot Reading = bind r (get_or f.stmts fdb_stmt_data_insert unprepared) in
      let g : Fdb Reading = record f {
        stmts = set f.stmts fdb_stmt_data_insert (after_step bound);
      } in
      if stepped then (pos 0, record g { inserted = f.inserted ++ row_of bound }) else (negsuc 0, g)

  -- The answers are those of `sqlite3_prepare_v2` and of `sqlite3_step`, which, when it is done,
  -- has inserted what is bound.
  pub fdb_data_insert : (sql_ok stepped : Bool) → Reading → Fdb Reading → ℤ × Fdb Reading
  unfolding fdb_stmt_cache bind_and_step
  fdb_data_insert sql_ok stepped r f =
      bind_and_step stepped r (fdb_stmt_cache sql_ok fdb_stmt_data_insert f)

  abbrev any_prepared : List (Slot Reading) → Bool
  any_prepared [] = false
  any_prepared (unprepared ∷ slots) = any_prepared slots
  any_prepared (prepared b idle ∷ slots) = true

  -- `closed` is the answer of `sqlite3_close_v2`, which keeps the connection while it has statements
  -- that are not finalized. Then the structure is freed.
  pub fdb_destroy : (closed : Bool) → Fdb Reading → System → System
  fdb_destroy closed f s =
      if closed then (if any_prepared f.stmts then s else close_connection s) else s
