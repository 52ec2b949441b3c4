-- ===== src/Threads/Counter/Joined.antt =====
-- 04-thread/mutil-thread/main.c: the counter, and the end of the program.
use linux_programing.Common.{ℕ, ◌+◌, ◌≡◌, refl, Bool, true, false, some, arith}
use linux_programing.Threads.Counter.{
  Worker, w_absent, w_start, w_locked, w_loaded, w_stored, w_ended, Main, m_create1, m_create2,
  m_join2, m_ended, Shared, worker_move, State, main_step, alive, run_main, work1, work2, Reach,
  start, next,
}

abbrev holds : Worker → ℕ
holds w_locked = 1
holds (w_loaded n) = 1
holds w_stored = 1
holds _ = 0

abbrev counted : Worker → ℕ
counted w_stored = 1
counted w_ended = 1
counted _ = 0

abbrev bit : Bool → ℕ
bit true = 1
bit false = 0

-- What a thread has loaded is the counter.
abbrev IsFresh : Worker → ℕ → Type 0
IsFresh (w_loaded n) c = n ≡ c
IsFresh _ c = Unit

-- The threads that `main` has created and joined.
abbrev Known : Main → Worker → Worker → Type 0
Known m_create1 v w = (v ≡ w_absent) × (w ≡ w_absent)
Known m_create2 v w = w ≡ w_absent
Known m_join2 v w = v ≡ w_ended
Known m_ended v w = (v ≡ w_ended) × (w ≡ w_ended)
Known _ v w = Unit

record IsCounter (s : State) : Type 0 where
  owner : bit s.shared.lock1 ≡ holds s.th1 + holds s.th2
  total : s.shared.counter ≡ 2 + counted s.th1 + counted s.th2
  fresh1 : IsFresh s.th1 s.shared.counter
  fresh2 : IsFresh s.th2 s.shared.counter
  known : Known s.main s.th1 s.th2

-- A move of one thread `v` beside the other, `w`.
record Moved (v w : Worker) (s : Shared) : Type 0 where
  owner : bit s.lock1 ≡ holds v + holds w
  total : s.counter ≡ 2 + counted v + counted w
  fresh1 : IsFresh v s.counter
  fresh2 : IsFresh w s.counter

worker-Moved :
    (v v' w : Worker) (s s' : Shared)
    → Moved v w s
    → worker_move v s ≡ some (v', s')
    → Moved v' w s'
unfolding worker_move
worker-Moved w_absent v' w s s' m e = ground (arith, m)
worker-Moved w_start v' w s s' m e = ground (arith, m)
worker-Moved w_locked v' w s s' m e = ground (arith, m)
worker-Moved (w_loaded n) v' w s s' m e = ground (arith, m)
worker-Moved w_stored v' w s s' m e = ground (arith, m)
worker-Moved w_ended v' w s s' m e = ground (arith, m)

worker-Known1 :
    (m : Main) (v v' w : Worker) (s s' : Shared)
    → alive m ≡ true
    → Known m v w
    → worker_move v s ≡ some (v', s')
    → Known m v' w
unfolding worker_move
worker-Known1 m v v' w s s' a k e = ground (arith, a, k, e)

worker-Known2 :
    (m : Main) (v w w' : Worker) (s s' : Shared)
    → alive m ≡ true
    → Known m v w
    → worker_move w s ≡ some (w', s')
    → Known m v w'
unfolding worker_move
worker-Known2 m v w w' s s' a k e = ground (arith, a, k, e)

main-IsCounter : (c : Bool) (s t : State) → main_step c s ≡ some t → IsCounter s → IsCounter t
unfolding main_step
main-IsCounter c s t e v = ground (arith, v)

Reach-IsCounter : {s : State} → Reach s → IsCounter s
Reach-IsCounter start = record {
  owner = refl;
  total = refl;
  fresh1 = tt;
  fresh2 = tt;
  known = (refl, refl);
}
Reach-IsCounter (next {s} {t} r (run_main c e)) = main-IsCounter c s t e (Reach-IsCounter r)
Reach-IsCounter (next {s} r (work1 {w} {sh} a e)) =
    let v = Reach-IsCounter r in
    let m =
      worker-Moved s.th1 w s.th2 s.shared sh
        (record { owner = v.owner; total = v.total; fresh1 = v.fresh1; fresh2 = v.fresh2 }) e in
    record {
      owner = m.owner;
      total = m.total;
      fresh1 = m.fresh1;
      fresh2 = m.fresh2;
      known = worker-Known1 s.main s.th1 w s.th2 s.shared sh a v.known e;
    }
Reach-IsCounter (next {s} r (work2 {w} {sh} a e)) =
    let v = Reach-IsCounter r in
    let m =
      worker-Moved s.th2 w s.th1 s.shared sh
        (record {
          owner = omega (arith, v.owner);
          total = omega (arith, v.total);
          fresh1 = v.fresh2;
          fresh2 = v.fresh1;
        })
        e in
    record {
      owner = omega (arith, m.owner);
      total = omega (arith, m.total);
      fresh1 = m.fresh2;
      fresh2 = m.fresh1;
      known = worker-Known2 s.main s.th1 s.th2 w s.shared sh a v.known e;
    }

-- In every interleaving no increment is lost: when `main` has joined both threads the counter, which
-- is 2 at the start, is 4.
pub joined_counter : {s : State} → Reach s → s.main ≡ m_ended → s.shared.counter ≡ 4
joined_counter {s} r e = let v = Reach-IsCounter r in ground (arith, v.total, v.known, e)
