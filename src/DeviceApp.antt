-- ===== src/DeviceApp.antt =====
-- 11-kernel-module-basic/05-fops-ioctl/test_app.c: the menu over the character device. The offset is
-- the one of the open file, which the kernel passes to the driver and keeps; the copies between the
-- program's own buffers and the kernel do not fault.
pub mod Session
pub mod Printed
pub mod Unread
pub mod Ioctl
mod Tests
use linux_programing.Common.{
  ℕ, ◌+◌, Bool, true, false, Option, none, some, List, [], ◌∷◌, ◌++◌, length, drop, ltb, ◌==◌, ◌||◌,
  if◌then◌else◌,
}
use linux_programing.Common.Int.{ℤ, pos}
use linux_programing.Driver.{
  Device, Transfer, transferred, efault, overrun, m_read, m_write, wr_value, rd_value, User,
  m_ioctl,
}

-- The text in `write_buf` is kept without its NUL; `read_buf` is 1024 bytes. `over_read` is whether `printf`
-- has read behind `read_buf`.
pub record App : Type 0 where
  pub device : Device
  pub offset : ℕ
  pub write_buf : List ℕ
  pub read_buf : List ℕ
  pub number : ℤ
  pub foo : ℤ
  pub over_read : Bool

-- What is typed at the menu, with the answer of the second `scanf`, `none` at the end of the input.
pub data Choice : Type 0 where
  write_option : (text : Option (List ℕ)) → Choice
  read_option : Choice
  ioctl_write_option : (number : Option ℤ) → Choice
  ioctl_read_option : Choice
  exit_option : Choice
  invalid_option : Choice

-- The menu is shown again, the program has ended, or memory outside a buffer was accessed.
pub data Outcome : Type 0 where
  running : App → Outcome
  exited : App → Outcome
  crashed : Outcome

-- `scanf("  %[^\t\n]s", write_buf)`
scan_text : Option (List ℕ) → App → Outcome
scan_text none a = running a
scan_text (some text) a =
    if ltb (length text) 1024 then running (record a { write_buf = text }) else crashed

pub after_write : Transfer → App → Outcome
after_write (transferred count bytes offset d) a =
    running (record a { device = d; offset = offset })
after_write (efault d) a = running (record a { device = d })
after_write overrun a = crashed

pub has_nul : List ℕ → Bool
has_nul [] = false
has_nul (c ∷ bytes) = (c == 0) || has_nul bytes

-- `printf("Data: %s\n\n\n", read_buf)`
show_data : App → App
unfolding has_nul
show_data a = record a { over_read = if has_nul a.read_buf then a.over_read else true }

after_read : Transfer → App → Outcome
unfolding show_data
after_read (transferred count bytes offset d) a =
    running
      (show_data (record a { offset = offset; read_buf = bytes ++ drop (length bytes) a.read_buf }))
after_read (efault d) a = running (show_data a)
after_read overrun a = crashed

pub with_app : Outcome → (App → Outcome) → Outcome
with_app (running a) rest = rest a
with_app (exited a) rest = exited a
with_app crashed rest = crashed

scan_number : Option ℤ → ℤ → ℤ
scan_number none number = number
scan_number (some n) number = n

-- `ioctl(fd, WR_VALUE, &number)`
ioctl_write : Option ℤ → App → App
unfolding scan_number
ioctl_write typed a =
    let number = scan_number typed a.number in
    record a {
      number = number;
      device = (m_ioctl wr_value a.device (record { word_at_arg = number; copied = true })).0;
    }

-- `ioctl(fd, RD_VALUE, &foo)`
ioctl_read : App → App
ioctl_read a = record a {
  foo = (m_ioctl rd_value a.device (record { word_at_arg = a.foo; copied = true })).1.word_at_arg;
}

-- One turn of the menu.
pub choose : (page : ℕ) → Choice → App → Outcome
unfolding scan_text after_write after_read with_app ioctl_write ioctl_read
choose page (write_option typed) a =
    with_app (scan_text typed a)
      λ b. after_write (m_write page b.device 0 (b.write_buf ++ 0 ∷ []) b.offset) b
choose page read_option a = after_read (m_read a.device true 1024 a.offset) a
choose page (ioctl_write_option typed) a = running (ioctl_write typed a)
choose page ioctl_read_option a = running (ioctl_read a)
choose page exit_option a = exited a
choose page invalid_option a = running a

-- The loop over what is typed.
pub session : (page : ℕ) → List Choice → App → Outcome
session page [] a = running a
session page (c ∷ cs) a = with_app (choose page c a) (λ b. session page cs b)

-- `main` on a device that is open; the buffers and numbers are globals.
abbrev pub started : Device → (zeros : List ℕ) → App
started d zeros = record {
  device = d;
  offset = 0;
  write_buf = [];
  read_buf = zeros;
  number = pos 0;
  foo = pos 0;
  over_read = false;
}
