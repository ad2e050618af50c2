-- ===== src/Mutex/SpinLock/Counting.antt =====
-- `spinlock_test` of mutex/src/lib.rs: threads that add one to the data behind a `SpinLock`, each a
-- number of times. A round takes the lock twice: the first guard is dropped where its statement ends.
pub mod Total
pub mod Completion
use rpi5_baremetal.Base.{ℕ, zero, suc, ◌+◌, ◌%◌, ◌^◌, ◌<◌, Bool}
use rpi5_baremetal.Mutex.Threads.{go_to}
use rpi5_baremetal.Mutex.SpinLock.{
  SpinLock, Pc, outside, locking, guarded, new, on_guard, lock_round, drop, deref_mut,
}

-- Where a thread is, with the rounds of its loop that it has behind this one.
pub data Point : Type 0 where
  next : (rounds : ℕ) → Point
  lock_first : (rounds : ℕ) → Point
  drop_first : (rounds : ℕ) → Point
  lock_second : (rounds : ℕ) → Point
  load : (rounds : ℕ) → Point
  store : (rounds value : ℕ) → Point
  drop_second : (rounds : ℕ) → Point

-- The next step of a thread; an exchange may fail spuriously. `*data += 1` loads and stores.
unfoldable pub advance : (spurious : Bool) → SpinLock ℕ → Point → SpinLock ℕ × Point
unfolding lock_round drop deref_mut
advance spurious l (next zero) = (l, next zero)
advance spurious l (next (suc n)) = (l, lock_first n)
advance spurious l (lock_first n) =
    let (l', pc) = lock_round spurious l in (l', on_guard pc (drop_first n) (lock_first n))
advance spurious l (drop_first n) = (drop l, lock_second n)
advance spurious l (lock_second n) =
    let (l', pc) = lock_round spurious l in (l', on_guard pc (load n) (lock_second n))
advance spurious l (load n) = (l, store n l.value)
advance spurious l (store n v) = (deref_mut ((v + 1) % 2 ^ 64) l, drop_second n)
advance spurious l (drop_second n) = (drop l, next n)

pub record System : Type 0 where
  pub lock : SpinLock ℕ
  pub points : ℕ → Point

pub data Step (n : ℕ) (s : System) : System → Type 0 where
  go_on :
      (i : ℕ) (spurious : Bool)
      → i < n
      → Step n s (record {
        lock = (advance spurious s.lock (s.points i)).0;
        points = go_to s.points i (advance spurious s.lock (s.points i)).1;
      })

-- The states that `n` threads reach, each with a number of rounds.
pub data Reach (n rounds : ℕ) : System → Type 0 where
  start : Reach n rounds (record { lock = new 0; points = λ i. next rounds })
  later : {s t : System} → Reach n rounds s → Step n s t → Reach n rounds t
