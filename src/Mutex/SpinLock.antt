-- ===== src/Mutex/SpinLock.antt =====
-- `SpinLock` of mutex/src/lib.rs: the flag, the data, and what a thread does with them. The atomic
-- operations take effect one after the other.
pub mod Exclusion
pub mod Counting
pub mod Refinement
pub mod Completion
pub mod Orderings
use rpi5_baremetal.Base.{ℕ, ◌<◌, ◌≡◌, Bool, true, false, ◌&&◌, not, if◌then◌else◌}
use rpi5_baremetal.Mutex.Threads.{go_to}

pub record SpinLock (T : Type 0) : Type 0 where
  pub locked : Bool
  pub value : T

-- What a thread may do next: nothing with the lock, the loop of `lock`, or the use of a guard.
pub data Pc : Type 0 where
  outside : Pc
  locking : Pc
  guarded : Pc

-- Where a caller of `lock` goes behind a round of it: only a guard leaves the loop.
abbrev pub on_guard {ℓ} : {P : Type ℓ} → Pc → P → P → P
on_guard guarded got again = got
on_guard locking got again = again
on_guard outside got again = again

module _ {T : Type 0} where
  abbrev pub new : T → SpinLock T
  new v = record { locked = false; value = v }

  -- `compare_exchange_weak(false, true, …)`, which may also fail where the flag is clear
  -- (`spurious`): the lock behind it, and whether it succeeded.
  unfoldable pub compare_exchange_weak : Bool → SpinLock T → SpinLock T × Bool
  compare_exchange_weak spurious l =
      if not l.locked && not spurious then (record l { locked = true }, true) else (l, false)

  -- A round of the `while` of `lock`: only a success leaves the loop, with a guard.
  unfoldable pub lock_round : Bool → SpinLock T → SpinLock T × Pc
  unfolding compare_exchange_weak
  lock_round spurious l =
      let (l', success) = compare_exchange_weak spurious l in
      if success then (l', guarded) else (l', locking)

  -- `drop` of the guard.
  unfoldable pub drop : SpinLock T → SpinLock T
  drop l = record l { locked = false }

  -- A write through `deref_mut`.
  unfoldable pub deref_mut : T → SpinLock T → SpinLock T
  deref_mut v l = record l { value = v }

  -- One step of one thread. `deref` changes nothing.
  pub data Move (l : SpinLock T) : Pc → SpinLock T → Pc → Type 0 where
    call_lock : Move l outside l locking
    spin : (spurious : Bool) → Move l locking (lock_round spurious l).0 (lock_round spurious l).1
    write : (v : T) → Move l guarded (deref_mut v l) guarded
    release : Move l guarded (drop l) outside

pub record System (T : Type 0) : Type 0 where
  pub lock : SpinLock T
  pub pc : ℕ → Pc

pub data Step {T : Type 0} (n : ℕ) (s : System T) : System T → Type 0 where
  pick :
      (i : ℕ) {l : SpinLock T} {p : Pc}
      → i < n
      → Move s.lock (s.pc i) l p
      → Step n s (record { lock = l; pc = go_to s.pc i p })

-- The states that `n` threads reach from a new lock.
pub data Reach {T : Type 0} (n : ℕ) (v : T) : System T → Type 0 where
  start : Reach n v (record { lock = new v; pc = λ _. outside })
  later : {s t : System T} → Reach n v s → Step n s t → Reach n v t
