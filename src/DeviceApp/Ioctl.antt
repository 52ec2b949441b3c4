-- ===== src/DeviceApp/Ioctl.antt =====
-- 05-fops-ioctl/test_app.c: the number that passes through `ioctl`.
use linux_programing.Common.{ℕ, ◌≡◌, refl, ◌∙◌, some, List, [], ◌∷◌, ◌++◌, arith}
use linux_programing.Common.Int.{ℤ}
use linux_programing.Driver.{m_ioctl}
use linux_programing.Driver.ReadWrite.{m_read-within}
use linux_programing.DeviceApp.{
  App, Choice, write_option, read_option, ioctl_write_option, ioctl_read_option, exit_option,
  invalid_option, Outcome, running, exited, crashed, with_app, choose, session, after_read,
  ioctl_write, ioctl_read, scan_number,
}
use linux_programing.DeviceApp.Session.{
  Fits, AllFit, IsOpen, Ended, Ended-map, Holds, choose-IsOpen, write-AtEnd, write_option-Ended,
}

-- No choice writes a number.
abbrev pub Calm : Choice → Type 0
Calm (ioctl_write_option typed) = ⊥
Calm c = Unit

abbrev pub AllCalm : List Choice → Type 0
AllCalm [] = Unit
AllCalm (c ∷ cs) = Calm c × AllCalm cs

-- A session that is still running satisfies `P`, and no session crashes.
abbrev pub Runs : (P : App → Type 0) → Outcome → Type 0
Runs P (running a) = P a
Runs P (exited a) = Unit
Runs P crashed = ⊥

Runs-with :
    (P Q : App → Type 0) (o : Outcome) (rest : App → Outcome)
    → Ended P o
    → ((b : App) → P b → Runs Q (rest b))
    → Runs Q (with_app o rest)
unfolding with_app
Runs-with P Q (running a) rest p q = q a p
Runs-with P Q (exited a) rest p q = tt
Runs-with P Q crashed rest p q = p

module _ (page : ℕ) where
  choose-Holds :
      (n : ℤ) (c : Choice) (a : App)
      → Fits c
      → Calm c
      → Holds page n a
      → Ended (Holds page n) (choose page c a)
  unfolding choose with_app ioctl_read m_ioctl after_read
  choose-Holds n (write_option typed) a fit calm v =
      write_option-Ended page (Holds page n) typed a fit v.is_open λ b w same.
        Ended-map _ (Holds page n) _
          (λ d x. record { is_open = x.1.is_open; kept = x.1.kept ∙ (same.1 ∙ v.kept) })
          (write-AtEnd page b w)
  choose-Holds n read_option a fit calm v =
      let w = v.is_open in
      rw (m_read-within page a.device 1024 a.offset w.valid (omega arith) w.behind) (record {
        is_open = record { valid = w.valid; text = w.text; behind = omega (arith, w.behind) };
        kept = v.kept;
      })
  choose-Holds n (ioctl_write_option typed) a fit calm v = absurd calm
  choose-Holds n ioctl_read_option a fit calm v = record {
    is_open = choose-IsOpen page ioctl_read_option a fit v.is_open;
    kept = v.kept;
  }
  choose-Holds n exit_option a fit calm v = v
  choose-Holds n invalid_option a fit calm v = v

  session-Holds :
      (n : ℤ) (cs : List Choice) (a : App)
      → AllFit cs
      → AllCalm cs
      → Holds page n a
      → Runs (λ b. b.foo ≡ n) (session page (cs ++ ioctl_read_option ∷ []) a)
  unfolding session choose with_app ioctl_read m_ioctl
  session-Holds n [] a fit calm v = v.kept
  session-Holds n (c ∷ cs) a fit calm v =
      Runs-with (Holds page n) (λ b. b.foo ≡ n) (choose page c a) _
        (choose-Holds n c a fit.0 calm.0 v) (λ b w. session-Holds n cs b fit.1 calm.1 w)

  -- On an open valid device, the number that `ioctl` writes is the one that `ioctl` reads after any
  -- other choices, reads and writes of text included, with texts that fit their buffer, unless one of
  -- the choices ends the program.
  pub session-ioctl :
      (n : ℤ) (cs : List Choice) (a : App)
      → AllFit cs
      → AllCalm cs
      → IsOpen page a
      → Runs
          (λ b. b.foo ≡ n)
          (session page (ioctl_write_option (some n) ∷ (cs ++ ioctl_read_option ∷ [])) a)
  unfolding session choose with_app ioctl_write scan_number m_ioctl
  session-ioctl n cs a fit calm v =
      session-Holds n cs _ fit calm
        (record { is_open = choose-IsOpen page (ioctl_write_option (some n)) a tt v; kept = refl })
