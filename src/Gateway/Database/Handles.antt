-- ===== src/Gateway/Database/Handles.antt =====
-- fdb.c: the handles and the file `sensor.db` on the paths of the functions that open it.
use mathlib.Core.List.{append-nil, append_assoc}
use linux_programing.Common.{
  ap, sym, ◌||◌, ℕ, ◌+◌, ◌-◌, ◌≡◌, refl, Bool, true, Option, none, some, List, [], ◌∷◌, ◌++◌, arith,
  if◌then◌else◌, ◌&&◌,
}
use linux_programing.Common.Int.{ℤ, pos, negsuc}
use linux_programing.Gateway.Database.{
  System, open_connection, close_connection, Statement, step_ok, run_script, Creation,
  fdb_create_file, Block, Copying, copy_blocks, finish_copy, copy_template, create_template,
  fdb_create_sensor_db, reopen, fdb_open_sensor_db, fdb_init,
}

-- The open handles, and `sensor.db`.
abbrev pub handles : System → ℕ × ℕ × ℕ
handles s = (s.connections, s.statements, s.files)

abbrev pub stays : System → ℕ × ℕ × ℕ × Option (List ℕ)
stays s = (s.connections, s.statements, s.files, s.sensor_db)

run_script-stays : (script : List Statement) (s : System) → stays (run_script script s).1 ≡ stays s
unfolding run_script
run_script-stays [] s = refl
run_script-stays (st ∷ script) s =
    let later =
      run_script-stays script
        (record s { statements = s.statements + 1 - 1; executed = s.executed + 1 }) in
    ground (arith, later)

-- Every statement of the script can be prepared and stepped.
abbrev pub all_run : List Statement → Bool
all_run [] = true
all_run (st ∷ script) = st.prepared && (step_ok st.result && all_run script)

run_script-all_run :
    (script : List Statement) (s : System) → (run_script script s).0 ≡ all_run script
unfolding run_script
run_script-all_run [] s = refl
run_script-all_run (st ∷ script) s =
    let later =
      run_script-all_run script
        (record s { statements = s.statements + 1 - 1; executed = s.executed + 1 }) in
    ground (arith, later)

abbrev pub created : Creation → Bool
created c = c.opened && (all_run c.script && c.chmod)

fdb_create_file_lem :
    (c : Creation) (s : System) → (fdb_create_file c s).0 ≡ (if created c then pos 0 else negsuc 0)
unfolding fdb_create_file
fdb_create_file_lem c s = ground (arith, run_script-all_run c.script (open_connection s))

-- On every path `fdb_create_file` closes the connection and finalizes the statements it made.
pub fdb_create_file-stays : (c : Creation) (s : System) → stays (fdb_create_file c s).1 ≡ stays s
unfolding fdb_create_file
fdb_create_file-stays c s = ground (arith, run_script-stays c.script (open_connection s))

-- All blocks are written.
abbrev pub all_written : List Block → Bool
all_written [] = true
all_written (b ∷ blocks) = b.written && all_written blocks

abbrev pub whole : List Block → List ℕ
whole [] = []
whole (b ∷ blocks) = b.bytes ++ whole blocks

copy_blocks_lem :
    (blocks : List Block) (copied : List ℕ)
    → copy_blocks blocks copied
      ≡ (if all_written blocks then (pos 0, some (copied ++ whole blocks)) else (negsuc 0, none))
unfolding copy_blocks
copy_blocks_lem [] copied = ap (λ l. (pos 0, some l)) (sym (append-nil copied))
copy_blocks_lem (b ∷ blocks) copied =
    ground (
      arith,
      copy_blocks_lem blocks (copied ++ b.bytes),
      append_assoc copied b.bytes (whole blocks),
    )

-- What the answers leave in `sensor.db` once it is opened for writing.
abbrev pub left_over : Copying → Option (List ℕ)
left_over c =
    if all_written c.blocks && (if c.closed then c.chmod else true)
    then some (whole c.blocks)
    else none

-- What a call returns, and the handles and the file behind it.
abbrev pub outcome : ℤ × System → ℤ × (ℕ × ℕ × ℕ × Option (List ℕ))
outcome r = (r.0, stays r.1)

abbrev pub copied : Copying → System → ℤ × (ℕ × ℕ × ℕ × Option (List ℕ))
copied c s =
    if c.dest
    then (
      (if all_written c.blocks && (c.closed && c.chmod) then pos 0 else negsuc 0),
      (s.connections, s.statements, s.files, left_over c),
    )
    else (negsuc 0, stays s)

copy_template_lem : (c : Copying) (s : System) → outcome (copy_template c s) ≡ copied c s
unfolding copy_template finish_copy
copy_template_lem c s = ground (arith, copy_blocks_lem c.blocks [])

-- The template is there, or can be created and opened.
abbrev pub has_template : Copying → Bool
has_template c = c.template || (created c.creation && c.template_again)

create_template_lem :
    (c : Copying) (r : ℤ × System)
    → outcome (create_template c r) ≡ elim r.0 [
      | pos n ↦ if c.template_again then copied c r.1 else (negsuc 0, stays r.1)
      | negsuc n ↦ (negsuc 0, stays r.1)
    ]
unfolding create_template
create_template_lem c (pos n, s) = ground (arith, copy_template_lem c s)
create_template_lem c (negsuc n, s) = refl

-- `fdb_create_sensor_db` returns 0 exactly when there is a template, or it can be created and
-- opened, `sensor.db` can be opened, every block is written, and the file can be closed and its
-- mode set; `sensor.db` is then the whole template. Else it returns -1, and `sensor.db` is as it
-- was when it could not be opened, complete when only the closing failed, and gone otherwise. On
-- every path there are as many connections, statements and files open as before.
pub fdb_create_sensor_db_lem :
    (c : Copying) (s : System)
    → outcome (fdb_create_sensor_db c s)
      ≡ (if has_template c then copied c s else (negsuc 0, stays s))
unfolding fdb_create_sensor_db
fdb_create_sensor_db_lem c s = ground (
  arith,
  copy_template_lem c s,
  create_template_lem c (fdb_create_file c.creation s),
  fdb_create_file_lem c.creation s,
  fdb_create_file-stays c.creation s,
)

-- A sensor database can be made.
abbrev pub made : Copying → Bool
made c = has_template c && (c.dest && (all_written c.blocks && (c.closed && c.chmod)))

-- `fdb_open_sensor_db` returns a database exactly when `sensor.db` opens at once, or can be made and
-- opens then. One connection is open then and none otherwise, and no statement or file is left open.
pub fdb_open_sensor_db_lem :
    {Reading : Type 0} (first second : Bool) (c : Copying) (s : System)
    → ((fdb_open_sensor_db {Reading = Reading} first second c s).0
        ≡ (if first || (made c && second) then some fdb_init else none))
      × (handles (fdb_open_sensor_db {Reading = Reading} first second c s).1
          ≡ (s.connections + (if first || (made c && second) then 1 else 0), s.statements, s.files))
unfolding fdb_open_sensor_db reopen
fdb_open_sensor_db_lem first second c s =
    ground (arith, fdb_create_sensor_db_lem c (close_connection (open_connection s)))
