-- ===== src/Mutex/OrderingTests.antt =====
-- The locks of mutex/src/lib.rs with the orderings of their accesses, along a run of two threads each.
use rpi5_baremetal.Base.{ℕ, ◌<◌, ◌≡◌, refl, inl, Bool, false, ℕ_discrete, arith}
use rpi5_baremetal.Mutex.Threads.{go_to}
use rpi5_baremetal.Mutex.Schedules.{Steps, none_left, then_one}
use rpi5_baremetal.Mutex.Clocks.{KnowsWrites, KnowsReads, acquire, read_data, happen, at_start}
use rpi5_baremetal.Mutex.SpinLock
use rpi5_baremetal.Mutex.SpinLock.{call_lock, spin, lock_round}
use rpi5_baremetal.Mutex.SpinLock.Orderings as SpinOrder
use rpi5_baremetal.Mutex.SpinLock.Orderings.Seen.{KnowsAll, guarded-KnowsAll}
use rpi5_baremetal.Mutex.RwLock
use rpi5_baremetal.Mutex.RwLock.{
  call_read, load_for_read, try_read, release_read, call_write, load_for_write, try_write, drain,
  read_round, write_round, drain_round,
}
use rpi5_baremetal.Mutex.RwLock.Exclusion.{IsGuard}
use rpi5_baremetal.Mutex.RwLock.Orderings
use rpi5_baremetal.Mutex.RwLock.Orderings.Guards.{IsGuard-KnowsWrites}
use rpi5_baremetal.Mutex.RwLock.Orderings.Drained.{IsUnknown, StepHolding, drained-IsUnknown}

abbrev spin_move :
    (i : ℕ) (s : SpinOrder.State ℕ) {l : SpinLock.SpinLock ℕ} {p : SpinLock.Pc}
    → SpinLock.Move s.system.lock (s.system.pc i) l p
    → SpinOrder.State ℕ
spin_move i s {l} {p} mv = record {
  system = record { lock = l; pc = go_to s.system.pc i p };
  clocks = happen (SpinOrder.ordering mv) i s.clocks;
}

abbrev spin_start : SpinOrder.State ℕ
spin_start = record {
  system = record { lock = SpinLock.new 7; pc = λ i. SpinLock.outside };
  clocks = at_start;
}

-- Thread 0 writes, and thread 1 has the lock behind it.
abbrev passed_on : SpinOrder.State ℕ
unfolding lock_round SpinLock.compare_exchange_weak SpinLock.drop SpinLock.deref_mut ℕ_discrete
passed_on =
    let locking = spin_move 0 spin_start call_lock in
    let guarded = spin_move 0 locking (spin false) in
    let written = spin_move 0 guarded (SpinLock.write 8) in
    let dropped = spin_move 0 written SpinLock.release in
    let asking = spin_move 1 dropped call_lock in spin_move 1 asking (spin false)

passed_on-Reach : SpinOrder.Reach 2 7 passed_on
unfolding lock_round SpinLock.compare_exchange_weak SpinLock.drop SpinLock.deref_mut ℕ_discrete
    SpinOrder.ordering
passed_on-Reach =
    SpinOrder.later
      (SpinOrder.later
        (SpinOrder.later
          (SpinOrder.later
            (SpinOrder.later
              (SpinOrder.later SpinOrder.start (SpinOrder.move 0 (omega arith) call_lock))
              (SpinOrder.move 0 (omega arith) (spin false)))
            (SpinOrder.move 0 (omega arith) (SpinLock.write 8)))
          (SpinOrder.move 0 (omega arith) SpinLock.release))
        (SpinOrder.move 1 (omega arith) call_lock))
      (SpinOrder.move 1 (omega arith) (spin false))

guarded-KnowsAll_example : KnowsAll 2 passed_on.clocks.made (passed_on.clocks.views 1)
unfolding lock_round SpinLock.compare_exchange_weak SpinLock.drop SpinLock.deref_mut ℕ_discrete
guarded-KnowsAll_example = guarded-KnowsAll passed_on-Reach 1 (omega arith) refl

abbrev shared_move :
    (i : ℕ) (s : Orderings.State ℕ) {l : RwLock.RwLock ℕ} {p : RwLock.Pc}
    → RwLock.Move s.system.lock (s.system.pc i) l p
    → Orderings.State ℕ
shared_move i s {l} {p} mv = record {
  system = record { lock = l; pc = go_to s.system.pc i p };
  clocks = happen (Orderings.ordering mv) i s.clocks;
}

abbrev shared_start : Orderings.State ℕ
shared_start = record {
  system = record { lock = RwLock.new 7; pc = λ i. RwLock.outside };
  clocks = at_start;
}

-- Thread 1 has a read guard, and reads.
abbrev has_read : Orderings.State ℕ
unfolding read_round RwLock.compare_exchange_weak ℕ_discrete
has_read =
    let asking = shared_move 1 shared_start call_read in
    let loaded = shared_move 1 asking load_for_read in
    let guarded = shared_move 1 loaded (try_read false) in
    record { system = guarded.system; clocks = happen read_data 1 guarded.clocks }

has_read-Reach : Orderings.Reach 2 7 has_read
unfolding read_round RwLock.compare_exchange_weak ℕ_discrete Orderings.ordering
has_read-Reach =
    Orderings.later
      (Orderings.later
        (Orderings.later
          (Orderings.later Orderings.start (Orderings.move 1 (omega arith) call_read))
          (Orderings.move 1 (omega arith) load_for_read))
        (Orderings.move 1 (omega arith) (try_read false)))
      (Orderings.deref 1 (omega arith) (inl refl))

IsGuard-KnowsWrites_example :
    ((i : ℕ)
      → i < 2
      → IsGuard (has_read.system.pc i)
      → KnowsWrites 2 has_read.clocks.made (has_read.clocks.views i))
    × ((i m : ℕ) (spurious : Bool)
        → i < 2
        → (write_round spurious m has_read.system.lock).1 ≡ RwLock.writing
        → KnowsWrites 2 has_read.clocks.made ((happen acquire i has_read.clocks).views i)
          × KnowsReads 2 has_read.clocks.made ((happen acquire i has_read.clocks).views i))
IsGuard-KnowsWrites_example = IsGuard-KnowsWrites (omega arith) has_read-Reach

-- Thread 0 sets its flag and waits.
abbrev waits : Orderings.State ℕ
unfolding read_round write_round RwLock.compare_exchange_weak ℕ_discrete
waits =
    let asking = shared_move 0 has_read call_write in
    let loaded = shared_move 0 asking load_for_write in shared_move 0 loaded (try_write false)

-- Thread 1 drops its guard, and thread 0 writes.
abbrev drained : Orderings.State ℕ
unfolding read_round write_round drain_round RwLock.drop_read RwLock.compare_exchange_weak
    ℕ_discrete
drained =
    let dropped = shared_move 1 waits release_read in
    let writes = shared_move 0 dropped drain in shared_move 0 writes (RwLock.write 8)

to_drained : Steps (StepHolding 2 0) waits drained
unfolding read_round write_round drain_round RwLock.drop_read RwLock.compare_exchange_weak
    ℕ_discrete Orderings.ordering
to_drained =
    then_one
      (then_one (then_one none_left (Orderings.move 1 (omega arith) release_read, refl))
        (Orderings.move 0 (omega arith) drain, refl))
      (Orderings.move 0 (omega arith) (RwLock.write 8), refl)

waits-IsUnknown : IsUnknown 0 1 waits.clocks
unfolding read_round write_round RwLock.compare_exchange_weak ℕ_discrete Orderings.ordering happen
waits-IsUnknown = omega arith

drained-IsUnknown_example : IsUnknown 0 1 drained.clocks
unfolding read_round write_round RwLock.compare_exchange_weak ℕ_discrete
drained-IsUnknown_example = drained-IsUnknown 0 1 (omega arith) refl waits-IsUnknown to_drained
