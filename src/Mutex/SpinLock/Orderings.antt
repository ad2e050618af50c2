-- ===== src/Mutex/SpinLock/Orderings.antt =====
-- `SpinLock` of mutex/src/lib.rs with the orderings of its accesses to the flag: what each thread knows
-- of the reads and the writes of the data that the others have made.
pub mod Seen
use rpi5_baremetal.Base.{ℕ, ◌<◌, ◌≡◌}
use rpi5_baremetal.Mutex.Threads.{go_to}
use rpi5_baremetal.Mutex.Clocks.{
  Clocks, Effect, relaxed, acquire, release_store, read_data, write_data, happen, at_start,
}
use rpi5_baremetal.Mutex.SpinLock.{
  SpinLock, Pc, outside, guarded, Move, call_lock, spin, write, release, System, new,
}

-- The exchange has `Acquire` where it succeeds, and `Relaxed` where it fails.
abbrev pub on_success : Pc → Effect
on_success guarded = acquire
on_success _ = relaxed

-- The ordering of each access to the flag.
unfoldable pub ordering : {T : Type 0} {l l' : SpinLock T} {p p' : Pc} → Move l p l' p' → Effect
ordering call_lock = relaxed
ordering {p' = p'} (spin spurious) = on_success p'
ordering (write v) = write_data
ordering release = release_store

pub record State (T : Type 0) : Type 0 where
  pub system : System T
  pub clocks : Clocks

pub data Step {T : Type 0} (n : ℕ) (s : State T) : State T → Type 0 where
  move :
      (i : ℕ) {l : SpinLock T} {p : Pc}
      → i < n
      → (mv : Move s.system.lock (s.system.pc i) l p)
      → Step n s (record {
        system = record { lock = l; pc = go_to s.system.pc i p };
        clocks = happen (ordering mv) i s.clocks;
      })
  deref :
      (i : ℕ)
      → i < n
      → s.system.pc i ≡ guarded
      → Step n s (record { system = s.system; clocks = happen read_data i s.clocks })

-- The states that `n` threads reach from a new lock.
pub data Reach {T : Type 0} (n : ℕ) (v : T) : State T → Type 0 where
  start :
      Reach n v (record { system = record { lock = new v; pc = λ i. outside }; clocks = at_start })
  later : {s t : State T} → Reach n v s → Step n s t → Reach n v t
