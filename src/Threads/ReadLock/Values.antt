-- ===== src/Threads/ReadLock/Values.antt =====
-- BTVN/04-thread/rw_lock/main.c: the numbers that are printed.
use mathlib.Core.Path.{subst}
use linux_programing.Common.{
  ℕ, ◌≡◌, refl, Bool, true, false, some, List, [], ◌∷◌, ◌++◌, length, ◌⊎◌, inl, inr, arith,
}
use linux_programing.Threads.ReadLock.{
  Place, t_absent, t_start, t_locked, t_loaded, t_printed, t_checked, t_ended, Thread, Main, m_init,
  m_create1, m_create2, m_store, m_load, m_print, m_join1, m_join2, m_destroy, m_ended, m_failed,
  m_undefined, Shared, thread_at, thread_step, State, all, joined, main_at, main_step, run_main,
  read1, read2, Reach, start, next,
}
use linux_programing.Threads.ReadLock.Ends.{ended_free}

-- The number is what the array starts with or what `main` stores.
abbrev IsValue : ℕ → Type 0
IsValue n = (n ≡ 1) ⊎ (n ≡ 10)

abbrev pub AllValues : List ℕ → Type 0
AllValues [] = Unit
AllValues (n ∷ ns) = IsValue n × AllValues ns

AllValues-append : (ns : List ℕ) (n : ℕ) → AllValues ns → IsValue n → AllValues (ns ++ n ∷ [])
AllValues-append [] n h v = (v, tt)
AllValues-append (m ∷ ns) n (w, h) v = (w, AllValues-append ns n h v)

abbrev Loaded : Place → Type 0
Loaded (t_loaded n) = IsValue n
Loaded _ = Unit

abbrev LoadedByMain : Main → ℕ → Type 0
LoadedByMain (m_print n) a = (n ≡ 10) × (a ≡ 10)
LoadedByMain m_load a = a ≡ 10
LoadedByMain _ a = Unit

abbrev pub HasTen : List ℕ → Type 0
HasTen [] = ⊥
HasTen (n ∷ ns) = (n ≡ 10) ⊎ HasTen ns

HasTen-append : (ns : List ℕ) (n : ℕ) → HasTen ns → HasTen (ns ++ n ∷ [])
HasTen-append [] n h = absurd h
HasTen-append (m ∷ ns) n (inl e) = inl e
HasTen-append (m ∷ ns) n (inr h) = inr (HasTen-append ns n h)

HasTen-last : (ns : List ℕ) (n : ℕ) → n ≡ 10 → HasTen (ns ++ n ∷ [])
HasTen-last [] n e = inl e
HasTen-last (m ∷ ns) n e = inr (HasTen-last ns n e)

-- What `main` has printed, once it waits for the threads.
abbrev Shown : Main → List ℕ → Type 0
Shown m_join1 ns = HasTen ns
Shown m_join2 ns = HasTen ns
Shown m_destroy ns = HasTen ns
Shown m_ended ns = HasTen ns
Shown _ ns = Unit

Shown-append : (m : Main) (ns : List ℕ) (n : ℕ) → Shown m ns → Shown m (ns ++ n ∷ [])
Shown-append m_join1 ns n h = HasTen-append ns n h
Shown-append m_join2 ns n h = HasTen-append ns n h
Shown-append m_destroy ns n h = HasTen-append ns n h
Shown-append m_ended ns n h = HasTen-append ns n h
Shown-append m_init ns n h = tt
Shown-append m_create1 ns n h = tt
Shown-append m_create2 ns n h = tt
Shown-append m_store ns n h = tt
Shown-append m_load ns n h = tt
Shown-append (m_print k) ns n h = tt
Shown-append m_failed ns n h = tt
Shown-append m_undefined ns n h = tt

record IsOutput (m : Main) (s : Shared) : Type 0 where
  stored : IsValue s.a
  values : AllValues s.printed
  by_main : LoadedByMain m s.a
  shown : Shown m s.printed

thread_at-IsOutput :
    (p : Place) (m : Main) (t t' : Thread) (s s' : Shared)
    → t.place ≡ p
    → thread_at p t s ≡ some (t', s')
    → Loaded p
    → IsOutput m s
    → IsOutput m s' × Loaded t'.place
unfolding thread_at
thread_at-IsOutput t_absent m t t' s s' q e l v = ground (arith, l, v)
thread_at-IsOutput t_start m t t' s s' q e l v = ground (arith, l, v)
thread_at-IsOutput t_locked m t t' s s' q e l v = ground (arith, l, v)
thread_at-IsOutput (t_loaded n) m t t' s s' q e l v =
    ground (arith, v, AllValues-append s.printed n v.values l, Shown-append m s.printed n v.shown)
thread_at-IsOutput t_printed m t t' s s' q e l v = ground (arith, l, v)
thread_at-IsOutput t_checked m t t' s s' q e l v = ground (arith, l, v)
thread_at-IsOutput t_ended m t t' s s' q e l v = ground (arith, l, v)

thread-IsOutput :
    (m : Main) (t t' : Thread) (s s' : Shared)
    → thread_step t s ≡ some (t', s')
    → Loaded t.place
    → IsOutput m s
    → IsOutput m s' × Loaded t'.place
unfolding thread_step
thread-IsOutput m t t' s s' e l v = thread_at-IsOutput t.place m t t' s s' refl e l v

record IsSound (s : State) : Type 0 where
  output : IsOutput s.main s.shared
  loaded1 : Loaded s.thread1.place
  loaded2 : Loaded s.thread2.place

main_at-IsSound :
    (m : Main) (granted : Bool) (s t : State)
    → s.main ≡ m
    → main_at m granted s ≡ some t
    → IsSound s
    → IsSound t
unfolding main_at joined
main_at-IsSound m_init true s t q e v = ground (arith, v)
main_at-IsSound m_init false s t q e v = ground (arith, v)
main_at-IsSound m_create1 true s t q e v = ground (arith, v)
main_at-IsSound m_create1 false s t q e v = ground (arith, v)
main_at-IsSound m_create2 true s t q e v = ground (arith, v)
main_at-IsSound m_create2 false s t q e v = ground (arith, v)
main_at-IsSound m_store granted s t q e v = ground (arith, v)
main_at-IsSound m_load granted s t q e v = ground (arith, v)
main_at-IsSound (m_print n) granted s t q e v =
    let ten = (subst (λ m. LoadedByMain m s.shared.a) q v.output.by_main).0 in
    ground (
      arith,
      v,
      AllValues-append s.shared.printed n v.output.values (inr ten),
      HasTen-last s.shared.printed n ten,
    )
main_at-IsSound m_join1 granted s t q e v = ground (arith, v)
main_at-IsSound m_join2 granted s t q e v = ground (arith, v)
main_at-IsSound m_destroy granted s t q e v = ground (arith, v)
main_at-IsSound m_ended granted s t q e v = ground (arith, v)
main_at-IsSound m_failed granted s t q e v = ground (arith, v)
main_at-IsSound m_undefined granted s t q e v = ground (arith, v)

main-IsSound : (granted : Bool) (s t : State) → main_step granted s ≡ some t → IsSound s → IsSound t
unfolding main_step
main-IsSound granted s t e v = main_at-IsSound s.main granted s t refl e v

Reach-IsSound : {s : State} → Reach s → IsSound s
Reach-IsSound start = record {
  output = record { stored = inl refl; values = tt; by_main = tt; shown = tt };
  loaded1 = tt;
  loaded2 = tt;
}
Reach-IsSound (next {s} {t} r (run_main granted e)) = main-IsSound granted s t e (Reach-IsSound r)
Reach-IsSound (next {s} r (read1 {t} {sh} a e)) =
    let v = Reach-IsSound r in
    let (output, loaded) = thread-IsOutput s.main s.thread1 t s.shared sh e v.loaded1 v.output in
    record { output = output; loaded1 = loaded; loaded2 = v.loaded2 }
Reach-IsSound (next {s} r (read2 {t} {sh} a e)) =
    let v = Reach-IsSound r in
    let (output, loaded) = thread-IsOutput s.main s.thread2 t s.shared sh e v.loaded2 v.output in
    record { output = output; loaded1 = v.loaded1; loaded2 = loaded }

-- In every interleaving, when `main` has returned 0, both threads have stored their checks, none holds
-- the lock, and exactly three numbers are printed: each is 1 or 10, and a 10 is among them.
pub ended-printed :
    {s : State}
    → Reach s
    → s.main ≡ m_ended
    → (all s.thread1.check s.thread2.check ≡ true)
      × (s.shared.readers ≡ 0)
      × (length s.shared.printed ≡ 3)
      × AllValues s.shared.printed
      × HasTen s.shared.printed
unfolding all
ended-printed {s} r e =
    let o = (Reach-IsSound r).output in
    let (full, free, three) = ended_free r e in
    (full, free, three, o.values, subst (λ m. Shown m s.shared.printed) e o.shown)
