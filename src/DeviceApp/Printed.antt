-- ===== src/DeviceApp/Printed.antt =====
-- 05-fops-ioctl/test_app.c: what `printf` reads of `read_buf`.
use Prim.Native.Nat.{min}
use linux_programing.Common.{
  ℕ, zero, suc, ◌+◌, ◌-◌, ◌≤◌, ◌<◌, ◌≡◌, refl, sym, ap, ◌∙◌, true, false, none, some, List, [], ◌∷◌,
  ◌++◌, length, length-take, take, drop, ltb, arith, length-append,
}
use linux_programing.Driver.{m_read, m_write, m_ioctl}
use linux_programing.Driver.ReadWrite.{m_read-within, m_write-IsValid}
use linux_programing.DeviceApp.{
  App, Choice, write_option, read_option, ioctl_write_option, ioctl_read_option, exit_option,
  invalid_option, with_app, choose, session, scan_text, after_write, after_read, ioctl_write,
  ioctl_read, has_nul, show_data,
}
use linux_programing.DeviceApp.Session.{Fits, AllFit, IsOpen, Ended, Ended-with}

-- The application is open, less than 1024 bytes of data are left behind the offset, the last byte of
-- `read_buf` is NUL, and `printf` has read nothing behind it.
pub record IsShown (page : ℕ) (a : App) : Type 0 where
  pub is_open : IsOpen page a
  pub few : a.device.size < a.offset + 1024
  pub last : has_nul (drop 1023 a.read_buf) ≡ true
  pub inside : a.over_read ≡ false

drop-nil : (k : ℕ) → drop {A = ℕ} k [] ≡ []
drop-nil zero = refl
drop-nil (suc k) = refl

drop-overlay :
    (bytes buf : List ℕ) (k : ℕ)
    → length bytes ≤ k
    → drop k (bytes ++ drop (length bytes) buf) ≡ drop k buf
drop-overlay [] buf k h = refl
drop-overlay (x ∷ bytes) buf zero h = absurd (omega arith)
drop-overlay (x ∷ bytes) [] (suc k) h =
    ap (λ t. drop k (bytes ++ t)) (sym (drop-nil (length bytes)))
    ∙ (drop-overlay bytes [] k (omega arith) ∙ drop-nil k)
drop-overlay (x ∷ bytes) (y ∷ buf) (suc k) h = drop-overlay bytes buf k (omega arith)

has_nul-drop : (k : ℕ) (buf : List ℕ) → has_nul (drop k buf) ≡ true → has_nul buf ≡ true
unfolding has_nul
has_nul-drop zero buf h = h
has_nul-drop (suc k) [] h = h
has_nul-drop (suc k) (c ∷ buf) h = ground (arith, has_nul-drop k buf h)

fits_buffer : (text : List ℕ) → length text < 1024 → ltb (length text) 1024 ≡ true
fits_buffer text fit = ground (arith, fit)

module _ (page : ℕ) where
  write-IsShown :
      (a : App)
      → IsShown page a
      → Ended
          (IsShown page)
          (after_write (m_write page a.device 0 (a.write_buf ++ 0 ∷ []) a.offset) a)
  unfolding after_write
  write-IsShown a v =
      let w = v.is_open in
      let (count, bytes, offset, d, e, valid, end, kept) =
        m_write-IsValid page a.device (a.write_buf ++ 0 ∷ []) a.offset w.valid
          (omega (arith, w.text, length-append a.write_buf (0 ∷ [])))
          (omega (arith, w.behind, w.valid.within)) in
      rw e (record {
        is_open = record { valid = valid; text = w.text; behind = omega (arith, end) };
        few = omega (arith, end);
        last = v.last;
        inside = v.inside;
      })

  read-IsShown :
      (a : App)
      → IsShown page a
      → Ended (IsShown page) (after_read (m_read a.device true 1024 a.offset) a)
  unfolding after_read show_data
  read-IsShown a v =
      let w = v.is_open in
      let n : ℕ = min 1024 (a.device.size - a.offset) in
      let bytes : List ℕ = take n (drop a.offset a.device.memory) in
      let short : length bytes ≤ 1023 =
        omega (arith, length-take n (drop a.offset a.device.memory), v.few) in
      let last : has_nul (drop 1023 (bytes ++ drop (length bytes) a.read_buf)) ≡ true =
        ap has_nul (drop-overlay bytes a.read_buf 1023 short) ∙ v.last in
      rw (m_read-within page a.device 1024 a.offset w.valid (omega arith) w.behind) (record {
        is_open = record { valid = w.valid; text = w.text; behind = omega (arith, w.behind) };
        few = omega (arith, v.few);
        last = last;
        inside = rw (has_nul-drop 1023 _ last) v.inside;
      })

  choose-IsShown :
      (c : Choice) (a : App) → Fits c → IsShown page a → Ended (IsShown page) (choose page c a)
  unfolding choose scan_text with_app ioctl_write ioctl_read m_ioctl
  choose-IsShown (write_option none) a fit v = write-IsShown a v
  choose-IsShown (write_option (some text)) a fit v =
      let w = v.is_open in
      rw (fits_buffer text fit) (
        write-IsShown (record a { write_buf = text })
          (record {
            is_open = record { valid = w.valid; text = fit; behind = w.behind };
            few = v.few;
            last = v.last;
            inside = v.inside;
          }))
  choose-IsShown read_option a fit v = read-IsShown a v
  choose-IsShown (ioctl_write_option typed) a fit v =
      let w = v.is_open in
      record {
        is_open = record {
          valid = record {
            allocated = w.valid.allocated;
            within = w.valid.within;
            small = w.valid.small;
          };
          text = w.text;
          behind = w.behind;
        };
        few = v.few;
        last = v.last;
        inside = v.inside;
      }
  choose-IsShown ioctl_read_option a fit v =
      let w = v.is_open in
      record {
        is_open = record { valid = w.valid; text = w.text; behind = w.behind };
        few = v.few;
        last = v.last;
        inside = v.inside;
      }
  choose-IsShown exit_option a fit v = v
  choose-IsShown invalid_option a fit v = v

  -- Whatever is chosen, with texts that fit their buffer, on an open valid device with less than 1024 bytes
  -- of data behind the offset, and with a `read_buf` that ends in NUL: a session accesses nothing outside
  -- the buffers and the page, `printf` included, and leaves the device valid, the offset not behind the
  -- data and less than 1024 bytes before their end, and the NUL at the end of `read_buf`.
  pub session-IsShown :
      (cs : List Choice) (a : App)
      → AllFit cs
      → IsShown page a
      → Ended (IsShown page) (session page cs a)
  unfolding session
  session-IsShown [] a fit v = v
  session-IsShown (c ∷ cs) a fit v =
      Ended-with (IsShown page) (choose page c a) (λ b. session page cs b)
        (choose-IsShown c a fit.0 v) (λ b w. session-IsShown cs b fit.1 w)
