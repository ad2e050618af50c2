-- ===== src/Mutex/RwLock/Orderings.antt =====
-- `RWLock` of mutex/src/lib.rs with the orderings of its accesses to the word: what each thread knows
-- of the reads and the writes of the data that the others have made.
pub mod Kinds
pub mod Keeping
pub mod Seen
pub mod Guards
pub mod Drained
use rpi5_baremetal.Base.{ℕ, ◌<◌, ◌≡◌}
use rpi5_baremetal.Mutex.Threads.{go_to}
use rpi5_baremetal.Mutex.Clocks.{
  Clocks, Effect, relaxed, acquire, release, read_data, write_data, happen, at_start,
}
use rpi5_baremetal.Mutex.RwLock.{
  RwLock, Pc, outside, reading, draining, writing, Move, call_read, load_for_read, try_read,
  release_read, call_write, load_for_write, try_write, drain, write, release_write, System, new,
}
use rpi5_baremetal.Mutex.RwLock.Exclusion.{IsGuard}

-- An exchange has `Acquire` where it succeeds, and `Relaxed` where it fails.
abbrev pub on_success : Pc → Effect
on_success reading = acquire
on_success draining = acquire
on_success writing = acquire
on_success _ = relaxed

-- The ordering of each access to the word; the loads are all `Relaxed`.
unfoldable pub ordering : {T : Type 0} {l l' : RwLock T} {p p' : Pc} → Move l p l' p' → Effect
ordering call_read = relaxed
ordering load_for_read = relaxed
ordering {p' = p'} (try_read spurious) = on_success p'
ordering release_read = release
ordering call_write = relaxed
ordering load_for_write = relaxed
ordering {p' = p'} (try_write spurious) = on_success p'
ordering drain = relaxed
ordering (write v) = write_data
ordering release_write = release

pub record State (T : Type 0) : Type 0 where
  pub system : System T
  pub clocks : Clocks

pub data Step {T : Type 0} (n : ℕ) (s : State T) : State T → Type 0 where
  move :
      (i : ℕ) {l : RwLock T} {p : Pc}
      → i < n
      → (mv : Move s.system.lock (s.system.pc i) l p)
      → Step n s (record {
        system = record { lock = l; pc = go_to s.system.pc i p };
        clocks = happen (ordering mv) i s.clocks;
      })
  deref :
      (i : ℕ)
      → i < n
      → IsGuard (s.system.pc i)
      → Step n s (record { system = s.system; clocks = happen read_data i s.clocks })

-- The states that `n` threads reach from a new lock.
pub data Reach {T : Type 0} (n : ℕ) (v : T) : State T → Type 0 where
  start :
      Reach n v (record { system = record { lock = new v; pc = λ i. outside }; clocks = at_start })
  later : {s t : State T} → Reach n v s → Step n s t → Reach n v t
