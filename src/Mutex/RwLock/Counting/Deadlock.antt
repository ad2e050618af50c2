-- ===== src/Mutex/RwLock/Counting/Deadlock.antt =====
-- The deadlock of `rw_lock_data` of mutex/src/lib.rs: a reader with one guard of two, and a writer that
-- waits for it.
use rpi5_baremetal.Base.{ℕ, ◌*◌, ◌^◌, ◌≤◌, ◌<◌, ◌≡◌, inl, inr, refl, Bool, Option, arith}
use rpi5_baremetal.Mutex.Threads.{go_to-all, tally, le-tally}
use rpi5_baremetal.Mutex.Schedules.{Steps, Steps-keep}
use rpi5_baremetal.Mutex.RwLock.{RwLock, read_round, drain_round}
use rpi5_baremetal.Mutex.RwLock.Invariant.{Counts}
use rpi5_baremetal.Mutex.RwLock.Counting.{
  Point, second_load, second_exchange, drain, advance, System, Step, go_on, Reach, later,
}
use rpi5_baremetal.Mutex.RwLock.Counting.Invariant.{reads, owns, Reach-Inv}
use rpi5_baremetal.Mutex.RwLock.Counting.Total.{IsDone}

-- The reader has its first guard, and asks for the second.
abbrev pub half : Point → ℕ
half second_load = 1
half (second_exchange n) = 1
half _ = 0

-- The writer has the flag, and waits for the readers.
abbrev pub waits : Point → ℕ
waits (drain k) = 1
waits _ = 0

abbrev pub IsDeadlocked : ℕ → System → Type 0
IsDeadlocked n s =
    (i : ℕ) × (j : ℕ) × (i < n) × (j < n) × (half (s.points i) ≡ 1) × (waits (s.points j) ≡ 1)

advance-half :
    (spurious : Bool) (l : RwLock ℕ) (p : Point) {r o w : ℕ}
    → Counts l.read_count_write_lock_flag r o w
    → 0 < o
    → half p ≡ 1
    → half (advance spurious l p).1 ≡ 1
unfolding advance read_round
advance-half spurious l second_load c own h = refl
advance-half spurious l (second_exchange n) c own h = ground arith
advance-half spurious l _ c own h = absurd (omega arith)

advance-waits :
    (spurious : Bool) (l : RwLock ℕ) (p : Point) {r o w : ℕ}
    → Counts l.read_count_write_lock_flag r o w
    → 0 < r
    → waits p ≡ 1
    → waits (advance spurious l p).1 ≡ 1
unfolding advance drain_round
advance-waits spurious l (drain k) c read h = ground arith
advance-waits spurious l _ c read h = absurd (omega arith)

half-le : (p : Point) → half p ≤ reads p
half-le p = ground arith

waits-le : (p : Point) → waits p ≤ owns p
waits-le p = ground arith

module _ {n : ℕ} {kinds : ℕ → Option ℕ} (few : 2 * n < 2 ^ 63) where
  Step-IsDeadlocked :
      {s t : System} → Reach n kinds s → Step n s t → IsDeadlocked n s → IsDeadlocked n t
  Step-IsDeadlocked {s} r (go_on k spurious lt) (i, j, lt_i, lt_j, half_i, waits_j) =
      let inv = Reach-Inv few r in
      let own : 0 < tally owns n s.points =
        omega (arith, waits_j, waits-le (s.points j), le-tally owns n s.points j lt_j) in
      let read : 0 < tally reads n s.points =
        omega (arith, half_i, half-le (s.points i), le-tally reads n s.points i lt_i) in
      let stays_half =
        go_to-all (λ m q. half (s.points m) ≡ 1 → half q ≡ 1) s.points k _
          (λ h. advance-half spurious s.lock (s.points k) inv own h) (λ m ne h. h) in
      let stays_waiting =
        go_to-all (λ m q. waits (s.points m) ≡ 1 → waits q ≡ 1) s.points k _
          (λ h. advance-waits spurious s.lock (s.points k) inv read h) (λ m ne h. h) in
      (i, j, lt_i, lt_j, stays_half i half_i, stays_waiting j waits_j)

  -- However the threads go on, a deadlock stays.
  pub Steps-IsDeadlocked :
      {s t : System} → Steps (Step n) s t → Reach n kinds s → IsDeadlocked n s → IsDeadlocked n t
  Steps-IsDeadlocked steps r dead =
      (Steps-keep (λ u. Reach n kinds u × IsDeadlocked n u)
        (λ u v h st. (later h.0 st, Step-IsDeadlocked h.0 st h.1)) steps (r, dead)).1

done-half : (p : Point) → IsDone p → half p ≡ 0
done-half p (inl (passed, e)) = rw e refl
done-half p (inr e) = rw e refl

-- Where all threads are done, there is no deadlock.
pub done-free : {n : ℕ} (s : System) → ((i : ℕ) → i < n → IsDone (s.points i)) → ¬ IsDeadlocked n s
done-free {n} s done (i, j, lt_i, lt_j, half_i, waits_j) =
    omega (arith, half_i, done-half (s.points i) (done i lt_i))
