-- ===== src/DeviceApp/Unread.antt =====
-- 05-fops-ioctl/test_app.c: a session behind the first write.
use linux_programing.Common.{◌∙◌, ℕ, ◌-◌, ◌≡◌, true, Option, List, [], ◌∷◌, arith}
use Prim.Native.Nat.{min}
use linux_programing.Driver.{m_read, m_ioctl}
use linux_programing.Driver.ReadWrite.{m_read-within}
use linux_programing.DeviceApp.{
  App, Choice, write_option, read_option, ioctl_write_option, ioctl_read_option, exit_option,
  invalid_option, with_app, choose, session, after_read, ioctl_write, ioctl_read,
}
use linux_programing.DeviceApp.Session.{
  Fits, AllFit, IsOpen, Ended, Ended-with, Ended-map, AtEnd, choose-IsOpen, write-AtEnd,
  write_option-Ended,
}

module _ (page : ℕ) where
  read-AtEnd :
      (buf : List ℕ) (a : App)
      → AtEnd page buf a
      → Ended (AtEnd page buf) (after_read (m_read a.device true 1024 a.offset) a)
  unfolding after_read
  read-AtEnd buf a v =
      let none_left : min 1024 (a.device.size - a.offset) ≡ 0 = omega (arith, v.end) in
      rw
        (
          m_read-within page a.device 1024 a.offset v.is_open.valid (omega arith)
              (v.is_open.behind),
          none_left,
        )
        (record {
          is_open = record {
            valid = v.is_open.valid;
            text = v.is_open.text;
            behind = omega (arith, v.end);
          };
          end = omega (arith, v.end);
          unread = v.unread;
        })

  choose-AtEnd :
      (buf : List ℕ) (c : Choice) (a : App)
      → Fits c
      → AtEnd page buf a
      → Ended (AtEnd page buf) (choose page c a)
  unfolding choose with_app ioctl_write ioctl_read m_ioctl
  choose-AtEnd buf (write_option typed) a fit v =
      write_option-Ended page (AtEnd page buf) typed a fit v.is_open λ b w same.
        Ended-map _ (AtEnd page buf) _
          (λ d x. record {
            is_open = x.0.is_open;
            end = x.0.end;
            unread = x.0.unread ∙ (same.0 ∙ v.unread);
          })
          (write-AtEnd page b w)
  choose-AtEnd buf read_option a fit v = read-AtEnd buf a v
  choose-AtEnd buf (ioctl_write_option typed) a fit v = record {
    is_open = choose-IsOpen page (ioctl_write_option typed) a fit v.is_open;
    end = v.end;
    unread = v.unread;
  }
  choose-AtEnd buf ioctl_read_option a fit v = record {
    is_open = choose-IsOpen page ioctl_read_option a fit v.is_open;
    end = v.end;
    unread = v.unread;
  }
  choose-AtEnd buf exit_option a fit v = v
  choose-AtEnd buf invalid_option a fit v = v

  session-AtEnd :
      (buf : List ℕ) (cs : List Choice) (a : App)
      → AllFit cs
      → AtEnd page buf a
      → Ended (AtEnd page buf) (session page cs a)
  unfolding session
  session-AtEnd buf [] a fit v = v
  session-AtEnd buf (c ∷ cs) a fit v =
      Ended-with (AtEnd page buf) (choose page c a) (λ b. session page cs b)
        (choose-AtEnd buf c a fit.0 v) (λ b w. session-AtEnd buf cs b fit.1 w)

  -- Once the program has written to an open valid device, `read_buf` stays as it is whatever is
  -- chosen, the option that reads included, with texts that fit their buffer: the offset stays at
  -- the end of the data.
  pub session-unread :
      (typed : Option (List ℕ)) (cs : List Choice) (a : App)
      → AllFit (write_option typed ∷ cs)
      → IsOpen page a
      → Ended (AtEnd page a.read_buf) (session page (write_option typed ∷ cs) a)
  unfolding session
  session-unread typed cs a fit v =
      Ended-with (AtEnd page a.read_buf) (choose page (write_option typed) a)
        (λ b. session page cs b)
        (write_option-Ended page (AtEnd page a.read_buf) typed a fit.0 v λ b w same.
          Ended-map _ (AtEnd page a.read_buf) _
            (λ d x. record { is_open = x.0.is_open; end = x.0.end; unread = x.0.unread ∙ same.0 })
            (write-AtEnd page b w))
        (λ b w. session-AtEnd a.read_buf cs b fit.1 w)
