-- ===== src/DeviceApp/Tests.antt =====
-- 05-fops-ioctl/test_app.c at concrete sessions: a page of four bytes.
use linux_programing.Common.{ℕ, replicate, ◌≡◌, refl, some, List, [], ◌∷◌, ◌++◌, arith}
use linux_programing.Common.Int.{pos}
use linux_programing.DeviceApp.{
  App, Choice, write_option, read_option, ioctl_write_option, ioctl_read_option, session, started,
  has_nul,
}
use linux_programing.DeviceApp.Session.{IsOpen, Ended}
use linux_programing.DeviceApp.Printed.{IsShown, session-IsShown}
use linux_programing.DeviceApp.Ioctl.{Runs, session-ioctl}

abbrev app : App
app = started (record { size = 2; memory = 1 ∷ 2 ∷ 0 ∷ 0 ∷ []; value = pos 0 }) (0 ∷ 0 ∷ 0 ∷ [])

app-IsOpen : IsOpen 4 app
app-IsOpen = record {
  valid = record { allocated = refl; within = omega arith; small = omega arith };
  text = omega arith;
  behind = omega arith;
}

abbrev text : List ℕ
text = 65 ∷ 66 ∷ []

abbrev choices : List Choice
choices = read_option ∷ write_option (some text) ∷ read_option ∷ []

-- With a `read_buf` of its size.
abbrev zeroed : App
zeroed = record app { read_buf = replicate 1024 0 }

zeroed-IsShown : IsShown 4 zeroed
unfolding has_nul
zeroed-IsShown = record {
  is_open = record {
    valid = record { allocated = refl; within = omega arith; small = omega arith };
    text = omega arith;
    behind = omega arith;
  };
  few = omega arith;
  last = refl;
  inside = refl;
}

session-IsShown_example : Ended (IsShown 4) (session 4 choices zeroed)
session-IsShown_example =
    session-IsShown 4 choices zeroed (tt, (omega arith, (tt, tt))) zeroed-IsShown

session-ioctl_example :
    Runs
      (λ b. b.foo ≡ pos 7)
      (session 4 (ioctl_write_option (some (pos 7)) ∷ (choices ++ ioctl_read_option ∷ [])) app)
session-ioctl_example =
    session-ioctl 4 (pos 7) choices app (tt, (omega arith, (tt, tt))) (tt, (tt, (tt, tt)))
      app-IsOpen
