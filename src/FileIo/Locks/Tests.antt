-- ===== src/FileIo/Locks/Tests.antt =====
-- The two processes on one file at a concrete run.
use linux_programing.Common.{◌≡◌, ◌⊎◌, refl, true, none, some, [], ◌∷◌, ◌++◌, take, drop}
use linux_programing.FileIo.Locks.{
  a_sleep, b_write, b_ended, State, text_a, text_b, bytes_1_to_5, second_lock, contents, a_step,
  b_step, run_a, run_b, Reach, start, next,
}
use linux_programing.FileIo.Locks.Contents.{wrote-file}

-- There is no file; A locks, and B is refused its first lock and given its second.
abbrev about_to_write : State
about_to_write = record {
  file = some text_a;
  a = a_sleep;
  b = b_write;
  locks_a = bytes_1_to_5 ∷ [];
  locks_b = second_lock ∷ [];
  wrote = true;
}

run : Reach none about_to_write
unfolding a_step b_step
run =
    let opened = next (next start (run_a true refl)) (run_a true refl) in
    let locked = next (next opened (run_a true refl)) (run_b true refl) in
    next (next locked (run_b true refl)) (run_b true refl)

wrote-file_example :
    (about_to_write.file ≡ some (text_a ++ drop 15 (contents none)))
    ⊎ ((about_to_write.file ≡ some (take 6 text_a ++ (text_b ++ drop 15 (contents none))))
        × (about_to_write.b ≡ b_ended))
wrote-file_example = wrote-file run refl
