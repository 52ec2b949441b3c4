-- ===== src/Driver/ReadWrite.antt =====
-- 05-fops-ioctl/hello.c: reading and writing the page of the device.
pub mod RoundTrip
use mathlib.Core.List.{append-nil}
use linux_programing.Common.{
  ◌%◌, ◌^◌, ap, ◌∙◌, ℕ, zero, suc, ◌+◌, ◌-◌, ◌≤◌, ◌<◌, ◌≡◌, refl, true, false, List, [], ◌∷◌, ◌++◌,
  ltb, leb, arith, length, length-append, take, drop, replicate, length-take, length-drop,
  length-replicate, if◌then◌else◌, take-append,
}
use Prim.Native.Nat.{min}
use linux_programing.Driver.{
  Device, transferred, fits, overrun, word, read_length, write_length, m_read, m_write, splice,
}

-- The memory is one page, and the data lie in it.
pub record IsValid (page : ℕ) (d : Device) : Type 0 where
  pub allocated : length d.memory ≡ page
  pub within : d.size ≤ page
  pub small : page < 2 ^ 31

read_length-within :
    (d : Device) (size offset : ℕ)
    → d.size < 2 ^ 31
    → offset ≤ d.size
    → read_length d size offset ≡ min size (d.size - offset)
unfolding read_length
read_length-within d size offset small h = ground arith

-- On a valid device, a read at an offset within the data, copied without a fault, returns what is
-- left of the data, at most `size` bytes, moves the offset behind them, and leaves the device as
-- it was.
pub m_read-within :
    (page : ℕ) (d : Device) (size offset : ℕ)
    → IsValid page d
    → size < word
    → offset ≤ d.size
    → m_read d true size offset
      ≡ transferred
          (min size (d.size - offset))
          (take (min size (d.size - offset)) (drop offset d.memory))
          (offset + min size (d.size - offset))
          d
unfolding m_read
m_read-within page d size offset v small h =
    let n = read_length-within d size offset (omega arith) h in
    let inside : leb (offset + min size (d.size - offset)) (length d.memory) ≡ true =
      ground arith in
    rw (n, inside) (ground arith)

-- On a valid device, a read at an offset behind the data is not at the end of the file: it returns
-- `size` bytes from behind the data, or leaves the memory. The offset is below 2^32 and `size`
-- below 2^63.
pub m_read-past_size :
    (page : ℕ) (d : Device) (size offset : ℕ)
    → IsValid page d
    → d.size < offset
    → offset < 2 ^ 32
    → size < 2 ^ 63
    → m_read d true size offset ≡ (
        if fits d.memory offset size
        then transferred size (take size (drop offset d.memory)) (offset + size) d
        else overrun)
unfolding m_read read_length
m_read-past_size page d size offset v past small size_small =
    let wraps : ltb ((d.size + 2 ^ 64 - offset) % 2 ^ 64) size ≡ false = ground arith in rw wraps

module _ (page : ℕ) where
  write_length-within :
      (size offset : ℕ)
      → page < 2 ^ 31
      → size < 2 ^ 63
      → offset ≤ page
      → write_length page size offset ≡ min size (page - offset)
  unfolding write_length
  write_length-within size offset small size_small h = ground arith

drop-all : (xs : List ℕ) (n : ℕ) → length xs ≡ n → drop n xs ≡ []
drop-all [] zero e = refl
drop-all [] (suc n) e = refl
drop-all (x ∷ xs) zero e = absurd (omega arith)
drop-all (x ∷ xs) (suc n) e = drop-all xs n (omega arith)

-- On a valid device, a write of less than 2^63 bytes at an offset within the page, all of them
-- copied, takes as many bytes as fit behind the offset, moves the offset and the size behind them,
-- and zeroes all else in the page.
pub m_write-within :
    (page : ℕ) (d : Device) (user : List ℕ) (offset : ℕ)
    → IsValid page d
    → length user < 2 ^ 63
    → offset ≤ page
    → m_write page d 0 user offset
      ≡ transferred
          (min (length user) (page - offset))
          (take (min (length user) (page - offset)) user)
          (offset + min (length user) (page - offset))
          (record d {
            size = offset + min (length user) (page - offset);
            memory =
                splice page
                  (replicate page 0)
                  offset
                  (take (min (length user) (page - offset)) user);
          })
unfolding m_write
m_write-within page d user offset v small h =
    let n : ℕ = min (length user) (page - offset) in
    let all_zero : replicate page 0 ++ drop page d.memory ≡ replicate page 0 =
      rw (drop-all d.memory page v.allocated, append-nil) in
    let nothing_missed : n - 0 ≡ n = omega arith in
    let enough : ltb (length d.memory) page ≡ false = ground arith in
    let inside : leb (offset + n) (length d.memory) ≡ true = ground arith in
    let counted = write_length-within page (length user) offset v.small small h in
    rw (enough, counted, inside, nothing_missed, all_zero) (ground arith)

length-splice :
    (page : ℕ) (memory : List ℕ) (offset : ℕ) (bytes : List ℕ)
    → offset + length bytes ≤ length memory
    → length (splice page memory offset bytes) ≡ length memory
unfolding splice
length-splice page memory offset bytes h = omega (
  arith,
  length-append (take offset memory) (bytes ++ drop (offset + length bytes) memory),
  length-append bytes (drop (offset + length bytes) memory),
  length-take offset memory,
  length-drop (offset + length bytes) memory,
)

-- On a valid device, a write of less than 2^63 bytes at an offset within the page, all of them
-- copied, leaves a valid device with the same number and an offset at the end of its data.
pub m_write-IsValid :
    (page : ℕ) (d : Device) (user : List ℕ) (offset : ℕ)
    → IsValid page d
    → length user < 2 ^ 63
    → offset ≤ page
    → (count : ℕ) × (bytes : List ℕ) × (offset' : ℕ) × (d' : Device) × (m_write page d 0 user offset
        ≡ transferred count bytes offset' d')
      × IsValid page d'
      × (offset' ≡ d'.size)
      × (d'.value ≡ d.value)
m_write-IsValid page d user offset v small h = (
  _,
  _,
  _,
  _,
  m_write-within page d user offset v small h,
  record {
    allocated =
        length-splice page (replicate page 0) offset (take (min (length user) (page - offset)) user)
          (omega (
            arith,
            length-replicate {A = ℕ} page 0,
            length-take (min (length user) (page - offset)) user,
          ))
        ∙ length-replicate page 0;
    within = omega arith;
    small = v.small;
  },
  refl,
  refl,
)
