-- ===== src/RwDriver/Menu.antt =====
-- 11-kernel-module-basic/04-fops-rw/test_app.c: the menu over the character device of 1024 bytes. The
-- offset is the one of the open file; copies to and from the program's buffers do not fault.
use linux_programing.Common.{
  ℕ, ◌<◌, ◌≡◌, refl, Option, none, some, List, [], ◌∷◌, ◌++◌, true, length, ltb, drop,
  if◌then◌else◌, inl, inr, Bool-cases,
}
use linux_programing.RwDriver.{
  Module, Reply, reply, efault, overrun, to_read, may_access, m_read, m_write, Grants,
  hello_world_init, get_memory, kmalloc_size,
}
use linux_programing.RwDriver.Overrun.{unloaded, all_granted, m_write-overrun}

-- The device, the offset of `fd`, and the two buffers of 1024 bytes, `write_buf` without its NUL.
pub record App : Type 0 where
  pub device : Module
  pub offset : ℕ
  pub write_buf : List ℕ
  pub read_buf : List ℕ

-- What is typed at the menu, with the answer of the second `scanf`, `none` at the end of the input.
pub data Choice : Type 0 where
  write_option : (text : Option (List ℕ)) → Choice
  read_option exit_option invalid_option : Choice

-- The menu is shown again, the program has ended, or memory outside a buffer was accessed.
pub data Outcome : Type 0 where
  running : App → Outcome
  exited : App → Outcome
  crashed : Outcome

-- `scanf("  %[^\t\n]s", write_buf)`
scan_text : Option (List ℕ) → App → Option App
scan_text none a = some a
scan_text (some text) a =
    if ltb (length text) 1024 then some (record a { write_buf = text }) else none

after_write : Reply → App → Outcome
after_write (reply n bytes offset m) a = running (record a { device = m; offset = offset })
after_write (efault m) a = running (record a { device = m })
after_write overrun a = crashed

-- What `printf` then reads of `read_buf` is not looked at.
after_read : Reply → App → Outcome
after_read (reply n bytes offset m) a =
    running (record a { offset = offset; read_buf = bytes ++ drop (length bytes) a.read_buf })
after_read (efault m) a = running a
after_read overrun a = crashed

write_text : (page : ℕ) → Option App → Outcome
unfolding after_write
write_text page none = crashed
write_text page (some a) = after_write (m_write page 0 (a.write_buf ++ 0 ∷ []) a.offset a.device) a

-- One turn of the menu.
pub choose : (page : ℕ) → Choice → App → Outcome
unfolding scan_text write_text after_read
choose page (write_option typed) a = write_text page (scan_text typed a)
choose page read_option a = after_read (m_read true 1024 a.offset a.device) a
choose page exit_option a = exited a
choose page invalid_option a = running a

with_app : Outcome → (App → Outcome) → Outcome
with_app (running a) rest = rest a
with_app (exited a) rest = exited a
with_app crashed rest = crashed

pub session : (page : ℕ) → List Choice → App → Outcome
unfolding with_app
session page [] a = running a
session page (c ∷ cs) a = with_app (choose page c a) (λ b. session page cs b)

-- `main` after the module was loaded.
abbrev pub started : Module → (zeros : List ℕ) → App
started m zeros = record { device = m; offset = 0; write_buf = []; read_buf = zeros }

-- Reads and other numbers.
abbrev pub Idle : Choice → Type 0
Idle read_option = Unit
Idle invalid_option = Unit
Idle c = ⊥

abbrev pub AllIdle : List Choice → Type 0
AllIdle [] = Unit
AllIdle (c ∷ cs) = Idle c × AllIdle cs

module _ (page : ℕ) (memory : ℕ → ℕ) (g : Grants) (small : kmalloc_size < page) where
  abbrev loaded : Module
  loaded = (hello_world_init (all_granted g memory) unloaded).1

  choose-Idle :
      (c : Choice) (zeros : List ℕ)
      → Idle c
      → choose page c (started loaded zeros) ≡ running (started loaded zeros)
  unfolding choose after_read m_read to_read may_access hello_world_init get_memory
  choose-Idle (write_option typed) zeros idle = absurd idle
  choose-Idle read_option zeros idle = refl
  choose-Idle exit_option zeros idle = absurd idle
  choose-Idle invalid_option zeros idle = refl

  choose-write :
      (typed : Option (List ℕ)) (zeros : List ℕ)
      → choose page (write_option typed) (started loaded zeros) ≡ crashed
  unfolding choose scan_text write_text after_write
  choose-write none zeros = rw (m_write-overrun page 0 0 memory (0 ∷ []) g small) refl
  choose-write (some text) zeros = elim (Bool-cases (ltb (length text) 1024)) [
    | inl room ↦ rw (room, m_write-overrun page 0 0 memory (text ++ 0 ∷ []) g small) refl
    | inr full ↦ rw full refl
  ]

  -- Where a page has more than the 1024 bytes that the constructor allocates, a session on a module that was
  -- loaded that comes to write, after any number of reads and of other numbers,
  -- accesses memory outside a buffer, whatever the text.
  pub session-crashed :
      (cs ds : List Choice) (typed : Option (List ℕ)) (zeros : List ℕ)
      → AllIdle cs
      → session page
          (cs ++ write_option typed ∷ ds)
          (started (hello_world_init (all_granted g memory) unloaded).1 zeros)
        ≡ crashed
  unfolding session with_app
  session-crashed [] ds typed zeros idle = rw (choose-write typed zeros) refl
  session-crashed (c ∷ cs) ds typed zeros idle =
      rw (choose-Idle c zeros idle.0) (session-crashed cs ds typed zeros idle.1)
