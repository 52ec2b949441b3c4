-- ===== src/DeviceApp/Session.antt =====
-- 05-fops-ioctl/test_app.c: what a session at the menu does, on the driver of 05-fops-ioctl/hello.c.
use linux_programing.Common.{
  ℕ, ◌≤◌, ◌<◌, ◌≡◌, refl, true, Option, none, some, List, [], ◌∷◌, ◌++◌, length, ltb, arith,
  length-append,
}
use linux_programing.Common.Int.{ℤ}
use linux_programing.Driver.{m_read, m_write, m_ioctl}
use linux_programing.Driver.ReadWrite.{IsValid, m_read-within, m_write-IsValid}
use linux_programing.DeviceApp.{
  App, Choice, write_option, read_option, ioctl_write_option, ioctl_read_option, exit_option,
  invalid_option, Outcome, running, exited, crashed, with_app, choose, session, scan_text,
  after_write, after_read, ioctl_write, ioctl_read,
}

-- The text fits `write_buf`.
abbrev pub Fits : Choice → Type 0
Fits (write_option (some text)) = length text < 1024
Fits _ = Unit

abbrev pub AllFit : List Choice → Type 0
AllFit [] = Unit
AllFit (c ∷ cs) = Fits c × AllFit cs

-- The device is valid, the text fits its buffer, and the offset is not behind the data.
pub record IsOpen (page : ℕ) (a : App) : Type 0 where
  pub valid : IsValid page a.device
  pub text : length a.write_buf < 1024
  pub behind : a.offset ≤ a.device.size

-- What one choice makes of an application.
abbrev pub Ended : (P : App → Type 0) → Outcome → Type 0
Ended P (running a) = P a
Ended P (exited a) = P a
Ended P crashed = ⊥

pub Ended-with :
    (P : App → Type 0) (o : Outcome) (rest : App → Outcome)
    → Ended P o
    → ((b : App) → P b → Ended P (rest b))
    → Ended P (with_app o rest)
unfolding with_app
Ended-with P (running a) rest p q = q a p
Ended-with P (exited a) rest p q = p
Ended-with P crashed rest p q = p

pub Ended-map : (P Q : App → Type 0) (o : Outcome) → ((a : App) → P a → Q a) → Ended P o → Ended Q o
Ended-map P Q (running a) f p = f a p
Ended-map P Q (exited a) f p = f a p
Ended-map P Q crashed f p = p

-- The offset is at the end of the data, and `read_buf` holds `buf`.
pub record AtEnd (page : ℕ) (buf : List ℕ) (a : App) : Type 0 where
  pub is_open : IsOpen page a
  pub end : a.offset ≡ a.device.size
  pub unread : a.read_buf ≡ buf

-- The driver's number is `n`.
pub record Holds (page : ℕ) (n : ℤ) (a : App) : Type 0 where
  pub is_open : IsOpen page a
  pub kept : a.device.value ≡ n

module _ (page : ℕ) where
  -- The write of what is in `write_buf`.
  pub write-AtEnd :
      (a : App)
      → IsOpen page a
      → Ended
          (λ b. AtEnd page a.read_buf b × Holds page a.device.value b)
          (after_write (m_write page a.device 0 (a.write_buf ++ 0 ∷ []) a.offset) a)
  unfolding after_write
  write-AtEnd a v =
      let (count, bytes, offset, d, e, valid, end, kept) =
        m_write-IsValid page a.device (a.write_buf ++ 0 ∷ []) a.offset v.valid
          (omega (arith, v.text, length-append a.write_buf (0 ∷ [])))
          (omega (arith, v.behind, v.valid.within)) in
      let opened : IsOpen page (record a { device = d; offset = offset }) = record {
        valid = valid;
        text = v.text;
        behind = omega (arith, end);
      } in
      rw e (
        record { is_open = opened; end = end; unread = refl },
        record { is_open = opened; kept = kept },
      )

  write-IsOpen :
      (a : App)
      → IsOpen page a
      → Ended
          (IsOpen page)
          (after_write (m_write page a.device 0 (a.write_buf ++ 0 ∷ []) a.offset) a)
  write-IsOpen a v = Ended-map _ (IsOpen page) _ (λ b w. w.0.is_open) (write-AtEnd a v)

  read-IsOpen :
      (a : App)
      → IsOpen page a
      → Ended (IsOpen page) (after_read (m_read a.device true 1024 a.offset) a)
  unfolding after_read
  read-IsOpen a v =
      rw (m_read-within page a.device 1024 a.offset v.valid (omega arith) v.behind)
        (record { valid = v.valid; text = v.text; behind = omega (arith, v.behind) })

  pub choose-IsOpen :
      (c : Choice) (a : App) → Fits c → IsOpen page a → Ended (IsOpen page) (choose page c a)
  unfolding choose scan_text with_app ioctl_write ioctl_read m_ioctl
  choose-IsOpen (write_option none) a fit v = write-IsOpen a v
  choose-IsOpen (write_option (some text)) a fit v =
      let room : ltb (length text) 1024 ≡ true = ground (arith, fit) in
      rw room (
        write-IsOpen (record a { write_buf = text })
          (record { valid = v.valid; text = fit; behind = v.behind }))
  choose-IsOpen read_option a fit v = read-IsOpen a v
  choose-IsOpen (ioctl_write_option typed) a fit v = record {
    valid = record {
      allocated = v.valid.allocated;
      within = v.valid.within;
      small = v.valid.small;
    };
    text = v.text;
    behind = v.behind;
  }
  choose-IsOpen ioctl_read_option a fit v = record {
    valid = v.valid;
    text = v.text;
    behind = v.behind;
  }
  choose-IsOpen exit_option a fit v = v
  choose-IsOpen invalid_option a fit v = v

  -- Whatever is chosen, with texts that fit their buffer, `scanf`, `read` and `write` of a session on an open
  -- valid device access nothing outside the buffers and the page, and it leaves the device valid and the
  -- offset not behind the data.
  pub session-IsOpen :
      (cs : List Choice) (a : App)
      → AllFit cs
      → IsOpen page a
      → Ended (IsOpen page) (session page cs a)
  unfolding session
  session-IsOpen [] a fit v = v
  session-IsOpen (c ∷ cs) a fit v =
      Ended-with (IsOpen page) (choose page c a) (λ b. session page cs b)
        (choose-IsOpen c a fit.0 v) (λ b w. session-IsOpen cs b fit.1 w)

  -- After what was typed has been put in `write_buf`.
  pub write_option-Ended :
      (P : App → Type 0) (typed : Option (List ℕ)) (a : App)
      → Fits (write_option typed)
      → IsOpen page a
      → ((b : App)
          → IsOpen page b
          → (b.read_buf ≡ a.read_buf) × (b.device.value ≡ a.device.value)
          → Ended P (after_write (m_write page b.device 0 (b.write_buf ++ 0 ∷ []) b.offset) b))
      → Ended P (choose page (write_option typed) a)
  unfolding choose scan_text with_app
  write_option-Ended P none a fit v f = f a v (refl, refl)
  write_option-Ended P (some text) a fit v f =
      let room : ltb (length text) 1024 ≡ true = ground (arith, fit) in
      rw room (
        f (record a { write_buf = text })
          (record { valid = v.valid; text = fit; behind = v.behind }) (refl, refl))
