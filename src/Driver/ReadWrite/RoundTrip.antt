-- ===== src/Driver/ReadWrite/RoundTrip.antt =====
-- 05-fops-ioctl/hello.c: a read behind a write at the start of the page.
use linux_programing.Common.{
  ◌^◌, ap, ◌∙◌, ℕ, zero, suc, ◌+◌, ◌-◌, ◌≤◌, ◌<◌, ◌≡◌, refl, true, List, [], ◌∷◌, ◌++◌, arith,
  length, take, drop, replicate, length-take, length-replicate, take-append,
}
use Prim.Native.Nat.{min}
use linux_programing.Driver.{Device, transferred, word, m_read, m_write, splice}
use linux_programing.Driver.ReadWrite.{IsValid, length-splice, m_read-within, m_write-within}

take-min : (xs : List ℕ) (n : ℕ) → take (min (length xs) n) xs ≡ take n xs
take-min [] zero = refl
take-min [] (suc n) = let e : min 0 (suc n) ≡ 0 = omega arith in rw e
take-min (x ∷ xs) zero = let e : min (suc (length xs)) 0 ≡ 0 = omega arith in rw e
take-min (x ∷ xs) (suc n) =
    let e : min (suc (length xs)) (suc n) ≡ suc (min (length xs) n) = omega arith in
    rw e (ap (λ t. x ∷ t) (take-min xs n))

-- The device after a write at its start.
abbrev pub written : ℕ → Device → List ℕ → Device
written page d user = record d {
  size = min (length user) page;
  memory = splice page (replicate page 0) 0 (take page user);
}

module _ (page : ℕ) (d : Device) (user : List ℕ) (v : IsValid page d)
    (small : length user < 2 ^ 63) where
  m_write-start :
      m_write page d 0 user 0
      ≡ transferred
          (min (length user) page)
          (take page user)
          (min (length user) page)
          (written page d user)
  m_write-start =
      let all_page : page - 0 ≡ page = omega arith in
      let from_start : 0 + min (length user) page ≡ min (length user) page = omega arith in
      rw (
        m_write-within page d user 0 v small (omega arith),
        all_page,
        from_start,
        take-min user page,
      )

  written-IsValid : IsValid page (written page d user)
  written-IsValid = record {
    allocated =
        length-splice page (replicate page 0) 0 (take page user)
          (omega (arith, length-replicate page (let z : ℕ = 0 in z), length-take page user))
        ∙ length-replicate page 0;
    within = omega arith;
    small = v.small;
  }

  -- On a valid device, what is written at its start is read back from its start, up to one page,
  -- when less than 2^63 bytes are written and at least a page is asked for.
  pub m_read-m_write :
      (size : ℕ)
      → page ≤ size
      → size < word
      → (d' : Device) × (m_write page d 0 user 0
          ≡ transferred (min (length user) page) (take page user) (min (length user) page) d')
        × (m_read d' true size 0
            ≡ transferred (min (length user) page) (take page user) (min (length user) page) d')
  unfolding splice
  m_read-m_write size fit size_small =
      let n : ℕ = min (length user) page in
      let all_data : min size (n - 0) ≡ n = omega arith in
      let from_start : 0 + n ≡ n = omega arith in
      let rest : List ℕ = drop (0 + length (take page user)) (replicate page 0) in
      let data_back : take n (take page user ++ rest) ≡ take page user =
        take-append (take page user) rest n (omega (arith, length-take page user)) in
      (
        written page d user,
        m_write-start,
        rw (
          m_read-within page (written page d user) size 0 written-IsValid size_small (omega arith),
          all_data,
          from_start,
          data_back,
        ),
      )
