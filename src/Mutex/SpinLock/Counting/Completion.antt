-- ===== src/Mutex/SpinLock/Counting/Completion.antt =====
-- The threads of `spinlock_test` of mutex/src/lib.rs come to their ends.
use rpi5_baremetal.Base.{
  ℕ, zero, suc, ◌+◌, ◌*◌, ◌^◌, ◌≤◌, ◌<◌, ◌≡◌, ◌⊎◌, inl, inr, refl, ap, Bool-cases, false, arith,
}
use rpi5_baremetal.Mutex.Threads.{tally, tally-go_to, le-tally, tally-pos}
use rpi5_baremetal.Mutex.Schedules.{Steps, none_left, then_one, runs_down, Steps-keep}
use rpi5_baremetal.Mutex.SpinLock.{SpinLock, lock_round}
use rpi5_baremetal.Mutex.SpinLock.Exclusion.{flag}
use rpi5_baremetal.Mutex.SpinLock.Counting.{
  Point, next, lock_first, drop_first, lock_second, load, store, drop_second, advance, System, Step,
  go_on, Reach, later,
}
use rpi5_baremetal.Mutex.SpinLock.Counting.Total.{inside, Reach-Inv, total}

-- How far a thread is from the end of its loop.
abbrev left : Point → ℕ
left (next n) = 8 * n
left (lock_first n) = 8 * n + 7
left (drop_first n) = 8 * n + 6
left (lock_second n) = 8 * n + 5
left (load n) = 8 * n + 4
left (store n v) = 8 * n + 3
left (drop_second n) = 8 * n + 1

left_zero : (p : Point) → left p ≡ 0 → p ≡ next 0
left_zero (next zero) h = refl
left_zero (next (suc n)) h = absurd (omega arith)
left_zero _ h = absurd (omega arith)

inside-le-left : (p : Point) → inside p ≤ left p
inside-le-left (next n) = omega arith
inside-le-left (lock_first n) = omega arith
inside-le-left (drop_first n) = omega arith
inside-le-left (lock_second n) = omega arith
inside-le-left (load n) = omega arith
inside-le-left (store n v) = omega arith
inside-le-left (drop_second n) = omega arith

-- With a guard, or while the lock is free, a thread comes closer to the end.
advance-closer :
    (l : SpinLock ℕ) (p : Point)
    → 0 < left p
    → (l.locked ≡ false) ⊎ (inside p ≡ 1)
    → left (advance false l p).1 < left p
unfolding advance lock_round
advance-closer l (next zero) more free = absurd (omega arith)
advance-closer l (next (suc n)) more free = omega arith
advance-closer l (lock_first n) more (inl free) = ground arith
advance-closer l (lock_first n) more (inr in_p) = absurd (omega arith)
advance-closer l (drop_first n) more free = omega arith
advance-closer l (lock_second n) more (inl free) = ground arith
advance-closer l (lock_second n) more (inr in_p) = absurd (omega arith)
advance-closer l (load n) more free = omega arith
advance-closer l (store n v) more free = omega arith
advance-closer l (drop_second n) more free = omega arith

inside_one : (p : Point) → 0 < inside p → inside p ≡ 1
inside_one (next n) h = absurd (omega arith)
inside_one (lock_first n) h = absurd (omega arith)
inside_one (lock_second n) h = absurd (omega arith)
inside_one (drop_first n) h = refl
inside_one (load n) h = refl
inside_one (store n v) h = refl
inside_one (drop_second n) h = refl

goes_on :
    {n : ℕ} (s : System) (i : ℕ)
    → i < n
    → 0 < left (s.points i)
    → (s.lock.locked ≡ false) ⊎ (inside (s.points i) ≡ 1)
    → (t : System) × Steps (Step n) s t × (tally left n t.points < tally left n s.points)
goes_on {n} s i lt more free = (
  _,
  then_one none_left (go_on i false lt),
  omega (
    arith,
    tally-go_to left n s.points i (advance false s.lock (s.points i)).1 lt,
    advance-closer s.lock (s.points i) more free,
  ),
)

module _ {n rounds : ℕ} (few : n * rounds < 2 ^ 64) where
  closer :
      (s : System)
      → Reach n rounds s
      → 0 < tally left n s.points
      → (t : System) × Steps (Step n) s t × (tally left n t.points < tally left n s.points)
  closer s r more = elim (Bool-cases s.lock.locked) [
    | inl set ↦
        let (i, lt, in_i) =
          tally-pos inside n s.points (omega (arith, (Reach-Inv few r).counted, ap flag set)) in
        goes_on s i lt (omega (arith, inside-le-left (s.points i)))
          (inr (inside_one (s.points i) in_i))
    | inr clear ↦
        let (i, lt, some_left) = tally-pos left n s.points more in
        goes_on s i lt some_left (inl clear)
  ]

  -- If the number of threads times that of their rounds fits the word of the data, no addition
  -- is lost: in every state that the threads reach in which all of them are done, the data is
  -- that product; and from every state that they reach, some steps lead to such a state.
  pub counts_all :
      {s : System}
      → Reach n rounds s
      → (((i : ℕ) → i < n → s.points i ≡ next 0) → s.lock.value ≡ n * rounds)
        × ((t : System) × Steps (Step n) s t
            × ((i : ℕ) → i < n → t.points i ≡ next 0)
            × (t.lock.value ≡ n * rounds))
  counts_all {s} r = (
    total few r,
    let (t, steps, done) =
          runs_down (Reach n rounds) (λ _ _ h st. later h st) (λ s. tally left n s.points) closer s
            r in
        let ends : (i : ℕ) → i < n → t.points i ≡ next 0 =
          λ i lt. left_zero (t.points i) (omega (arith, done, le-tally left n t.points i lt)) in
        (
          t,
          steps,
          ends,
          total few (Steps-keep (Reach n rounds) (λ _ _ h st. later h st) steps r) ends,
        ),
  )
