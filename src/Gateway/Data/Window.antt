-- ===== src/Gateway/Data/Window.antt =====
-- main-server.c, data_mgr: the rows of the last temperatures.
use linux_programing.Common.{
  ℕ, ◌+◌, ◌%◌, ◌≤◌, ◌<◌, ◌≡◌, ℕ_discrete, ◌∙◌, refl, true, some, arith, ltb, leb, if◌then◌else◌,
  length, get_elem?, set, length-set, get_elem?-set_self, get_elem?-set_ne,
}
use linux_programing.Gateway.Data.{Doubles, Row, silent, avg, initial, classify, record_temp}

module _ {D : Type 0} (d : Doubles D) where
  -- After `n` temperatures, of which `temp i` is the one number `i` (from 0): the next index, the
  -- flag, and where each of the last five stands.
  pub record Holds (n : ℕ) (temp : ℕ → D) (r : Row D) : Type 0 where
    pub next : r.next ≡ n % 5 + 1
    pub size : length r.slots ≡ 5
    pub check : r.check ≡ leb 5 n
    pub recent : (i : ℕ) → i < n → n ≤ i + 5 → get_elem? r.slots (i % 5) ≡ some (temp i)

  pub initial-Holds : (temp : ℕ → D) → Holds 0 temp (initial d)
  unfolding initial
  initial-Holds temp = record {
    next = omega arith;
    size = refl;
    check = refl;
    recent = λ i h k. absurd (omega arith);
  }

  classify_negative : d.is_le_zero d.minus_one ≡ true → classify d d.minus_one ≡ silent
  unfolding classify
  classify_negative negative = rw negative

  -- On a row that holds the last five of `n` temperatures, the next one is stored inside the row,
  -- which then holds the last five of `n + 1`. Nothing is reported before the fifth; from then on
  -- the report is the classification of the average of the row. It takes that -1 is not positive.
  pub record_temp-Holds :
      (n : ℕ) (temp : ℕ → D) (r : Row D)
      → Holds n temp r
      → (d.is_le_zero d.minus_one ≡ true)
      → (r' : Row D) × (record_temp d r (temp n)
          ≡ some (r', (if ltb (n + 1) 5 then silent else classify d (avg d r'.slots))))
        × Holds (n + 1) temp r'
  unfolding record_temp
  record_temp-Holds n temp r h negative = (
    record { next = (n + 1) % 5 + 1; slots = set r.slots (n % 5) (temp n); check = leb 5 (n + 1) },
    ground (arith, classify_negative negative),
    record {
      next = refl;
      size = omega (arith, length-set r.slots (n % 5) (temp n), h.size);
      check = refl;
      recent = λ i lt near. elim (ℕ_discrete i n) [
        | yes same ↦ rw same (get_elem?-set_self r.slots (n % 5) (temp n) (omega (arith, h.size)))
        | no other ↦
            get_elem?-set_ne r.slots {i = n % 5} {j = i % 5} (temp n) (omega arith)
            ∙ h.recent i (omega arith) (omega arith)
      ];
    },
  )
