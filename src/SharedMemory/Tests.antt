-- ===== src/SharedMemory/Tests.antt =====
-- 08-shared-memory/systemD-shared-memory at concrete runs.
use linux_programing.Common.{ℕ, ◌≡◌, refl, true, false, none, some, List, [], ◌∷◌, arith}
use linux_programing.SharedMemory.{
  map_shared, map_private, Answers, printed, crashed, run_writer, run_reader, Run, writer, reader,
  runs,
}
use linux_programing.SharedMemory.Text.{granted, written-printed}

abbrev dai : List ℕ
dai = 68 ∷ 65 ∷ 73 ∷ []

-- The kernel refuses the mapping.
abbrev unmapped : Answers
unmapped = record { opened = true; truncated = true; mapped = false }

abbrev runs_between : List Run
runs_between = reader granted ∷ writer unmapped ∷ writer granted ∷ []

written-printed_example :
    (run_reader granted (
      runs map_shared dai runs_between (run_writer map_shared dai granted (some (1 ∷ 2 ∷ []))).1)).0
    ≡ printed dai
written-printed_example =
    written-printed dai runs_between (some (1 ∷ 2 ∷ []))
      (ground arith, (ground arith, (ground arith, tt))) (omega arith)

-- What the other writer copies stays in its private mapping.
private_write : (run_reader granted (run_writer map_private dai granted none).1).0 ≡ printed []
unfolding run_reader run_writer
private_write = refl

-- The writer does not test for MAP_FAILED.
unmapped_write : (run_writer map_shared dai unmapped none).0 ≡ crashed
unfolding run_writer
unmapped_write = refl
