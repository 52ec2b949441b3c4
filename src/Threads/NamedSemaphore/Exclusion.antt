-- ===== src/Threads/NamedSemaphore/Exclusion.antt =====
-- named-semaphore/main.c: how many processes hold the semaphore.
use linux_programing.Common.{
  ℕ, ◌+◌, ◌≤◌, ◌≡◌, refl, ap, ◌∙◌, Option, none, some, List, [], ◌∷◌, ◌++◌, arith,
}
use linux_programing.Threads.NamedSemaphore.{
  Place, p_start, p_opened, p_holding, p_posted, p_failed, p_returned, Answers, sem_open,
  sem_timedwait, sem_post, process_move, System, arrive, run, Reach, start, next,
}

abbrev pub holds : Place → ℕ
holds p_holding = 1
holds _ = 0

abbrev pub holders : List Place → ℕ
holders [] = 0
holders (p ∷ ps) = holds p + holders ps

holders-append :
    (front : List Place) (p : Place) (back : List Place)
    → holders (front ++ p ∷ back) ≡ holds p + (holders front + holders back)
holders-append [] p back = omega arith
holders-append (x ∷ front) p back = omega (arith, holders-append front p back)

-- The value that is left, and the processes that hold the semaphore.
abbrev Within : Option ℕ → ℕ → Type 0
Within none h = h ≡ 0
Within (some value) h = value + h ≤ 1

process_move-Within :
    (a : Answers) (p q : Place) (sem sem' : Option ℕ) (others : ℕ)
    → process_move a p sem ≡ some (q, sem')
    → Within sem (holds p + others)
    → Within sem' (holds q + others)
unfolding process_move sem_open sem_timedwait sem_post
process_move-Within a p_start q sem sem' others e w = ground (arith, e, w)
process_move-Within a p_opened q sem sem' others e w = ground (arith, e, w)
process_move-Within a p_holding q sem sem' others e w = ground (arith, e, w)
process_move-Within a p_posted q sem sem' others e w = ground (arith, e, w)
process_move-Within a p_failed q sem sem' others e w = ground (arith, e, w)
process_move-Within a p_returned q sem sem' others e w = ground (arith, e, w)

Reach-Within : {s : System} → Reach s → Within s.sem (holders s.processes)
Reach-Within start = refl
Reach-Within (next {s} r arrive) =
    let none_more : holders (s.processes ++ p_start ∷ []) ≡ holders s.processes =
      omega (arith, holders-append s.processes p_start []) in
    rw none_more (Reach-Within r)
Reach-Within (next {s} r (run {q} {sem} a p front back listed moved)) =
    let before : holders s.processes ≡ holds p + (holders front + holders back) =
      ap holders listed ∙ holders-append front p back in
    rw (holders-append front q back) (
      process_move-Within a p q s.sem sem (holders front + holders back) moved
        (rw before at (Reach-Within r)))

at_most : (sem : Option ℕ) (h : ℕ) → Within sem h → h ≤ 1
at_most none h w = omega (arith, w)
at_most (some value) h w = omega (arith, w)

-- However many processes run the program, and whichever calls fail or time out, at most one of them is
-- between `sem_timedwait` and `sem_post`.
pub holders-bounded : {s : System} → Reach s → holders s.processes ≤ 1
holders-bounded {s} r = at_most s.sem (holders s.processes) (Reach-Within r)
