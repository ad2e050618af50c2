-- ===== src/Mutex/Tests.antt =====
-- The locks of mutex/src/lib.rs with two threads, in the states in which one of them has a guard.
use rpi5_baremetal.Base.{ℕ, ◌+◌, ◌*◌, ◌<◌, ◌≡◌, ◌≢◌, ◌^◌, refl, true, false, ℕ_discrete, arith}
use rpi5_baremetal.Mutex.Threads.{go_to}
use rpi5_baremetal.Mutex.SpinLock
use rpi5_baremetal.Mutex.SpinLock.{lock_round, call_lock, spin}
use rpi5_baremetal.Mutex.SpinLock.Exclusion.{mutual_exclusion}
use rpi5_baremetal.Mutex.SpinLock.Counting
use rpi5_baremetal.Mutex.SpinLock.Counting.Completion.{counts_all}
use rpi5_baremetal.Mutex.RwLock
use rpi5_baremetal.Mutex.RwLock.{
  call_read, load_for_read, try_read, call_write, load_for_write, try_write, drain, read_round,
  write_round, drain_round,
}
use rpi5_baremetal.Mutex.RwLock.Exclusion.{write_guard-alone}
use rpi5_baremetal.Mutex.Specification.{Event}
use rpi5_baremetal.Mutex.Schedules.{Steps, none_left, then_one}
use rpi5_baremetal.Mutex.SpinLock.Refinement as SpinView
use rpi5_baremetal.Mutex.RwLock.Refinement as SharedView
use rpi5_baremetal.Mutex.RwLock.Reentry.{kept_guard-blocks}
use rpi5_baremetal.Mutex.RwLock.Completion.{shared_locks_complete}

-- Thread 0 has locked a spin lock, and thread 1 tries to.
abbrev held : SpinLock.System ℕ
held = record {
  lock = record { locked = true; value = 7 };
  pc =
      go_to (go_to (go_to (λ _. SpinLock.outside) 0 SpinLock.locking) 0 SpinLock.guarded) 1
        SpinLock.locking;
}

held-Reach : SpinLock.Reach 2 7 held
unfolding lock_round SpinLock.compare_exchange_weak ℕ_discrete
held-Reach =
    SpinLock.later
      (SpinLock.later (SpinLock.later SpinLock.start (SpinLock.pick 0 (omega arith) call_lock))
        (SpinLock.pick 0 (omega arith) (spin false)))
      (SpinLock.pick 1 (omega arith) call_lock)

mutual_exclusion_example : ◌≡◌ {A = ℕ} 0 0
unfolding ℕ_discrete
mutual_exclusion_example = mutual_exclusion held-Reach 0 0 (omega arith) (omega arith) refl refl

-- Thread 1 reads, and thread 0 waits to write.
abbrev read_pc : ℕ → RwLock.Pc
read_pc =
    go_to (go_to (go_to (λ _. RwLock.outside) 1 RwLock.read_load) 1 (RwLock.read_exchange 0)) 1
      RwLock.reading

abbrev waits : RwLock.System ℕ
waits = record {
  lock = record { read_count_write_lock_flag = 2 ^ 63 + 1; value = 7 };
  pc =
      go_to (go_to (go_to read_pc 0 RwLock.write_load) 0 (RwLock.write_exchange 1)) 0
        RwLock.draining;
}

waits-Reach : RwLock.Reach 2 7 waits
unfolding read_round write_round RwLock.compare_exchange_weak ℕ_discrete
waits-Reach =
    RwLock.later
      (RwLock.later
        (RwLock.later
          (RwLock.later
            (RwLock.later (RwLock.later RwLock.start (RwLock.pick 1 (omega arith) call_read))
              (RwLock.pick 1 (omega arith) load_for_read))
            (RwLock.pick 1 (omega arith) (try_read false)))
          (RwLock.pick 0 (omega arith) call_write))
        (RwLock.pick 0 (omega arith) load_for_write))
      (RwLock.pick 0 (omega arith) (try_write false))

-- Thread 0 writes.
abbrev writes : RwLock.System ℕ
writes = record {
  lock = record { read_count_write_lock_flag = 2 ^ 63; value = 7 };
  pc =
      go_to (go_to (go_to (λ _. RwLock.outside) 0 RwLock.write_load) 0 (RwLock.write_exchange 0)) 0
        RwLock.writing;
}

writes-Reach : RwLock.Reach 2 7 writes
unfolding write_round RwLock.compare_exchange_weak ℕ_discrete
writes-Reach =
    RwLock.later
      (RwLock.later (RwLock.later RwLock.start (RwLock.pick 0 (omega arith) call_write))
        (RwLock.pick 0 (omega arith) load_for_write))
      (RwLock.pick 0 (omega arith) (try_write false))

write_guard-alone_example : (writes.pc 1 ≢ RwLock.writing) × (writes.pc 1 ≢ RwLock.reading)
unfolding ℕ_discrete
write_guard-alone_example =
    write_guard-alone (omega arith) writes-Reach 0 1 (omega arith) (omega arith) refl (omega arith)

-- Thread 0 drops its guard while thread 1 waits for the lock.
abbrev dropped : SpinLock.System ℕ
dropped = record { lock = SpinLock.drop held.lock; pc = go_to held.pc 0 SpinLock.outside }

spin_step-Event_example : Event (SpinView.view 2 held) (SpinView.view 2 dropped)
unfolding SpinLock.drop ℕ_discrete
spin_step-Event_example =
    SpinView.spin_step-Event held-Reach (SpinLock.pick 0 (omega arith) SpinLock.release)

-- Thread 1 drops its read guard while thread 0 waits to write.
abbrev drained : RwLock.System ℕ
drained = record { lock = RwLock.drop_read waits.lock; pc = go_to waits.pc 1 RwLock.outside }

shared_step-Event_example : Event (SharedView.view 2 waits) (SharedView.view 2 drained)
unfolding ℕ_discrete
shared_step-Event_example =
    SharedView.shared_step-Event (omega arith) waits-Reach
      (RwLock.pick 1 (omega arith) RwLock.release_read)

shared_locks_complete_example :
    (t : RwLock.System ℕ) × Steps (RwLock.Step 2) waits t
    × ((i : ℕ) → i < 2 → t.pc i ≡ RwLock.outside)
shared_locks_complete_example = shared_locks_complete (omega arith) waits waits-Reach

-- A hundred threads with a thousand rounds each, of which one has begun.
abbrev counting : Counting.System
counting = record {
  lock = SpinLock.new 0;
  points = go_to (λ _. Counting.next 1000) 0 (Counting.lock_first 999);
}

counting-Reach : Counting.Reach 100 1000 counting
unfolding Counting.advance
counting-Reach = Counting.later Counting.start (Counting.go_on 0 false (omega arith))

counts_all_example :
    (((i : ℕ) → i < 100 → counting.points i ≡ Counting.next 0) → counting.lock.value ≡ 100 * 1000)
    × ((t : Counting.System) × Steps (Counting.Step 100) counting t
        × ((i : ℕ) → i < 100 → t.points i ≡ Counting.next 0)
        × (t.lock.value ≡ 100 * 1000))
counts_all_example = counts_all (omega arith) counting-Reach

-- The writer has looked at the readers once more.
abbrev still : RwLock.System ℕ
still = record { lock = waits.lock; pc = go_to waits.pc 0 (drain_round waits.lock) }

kept_guard-blocks_example :
    (still.pc 0 ≡ RwLock.draining)
    × ((k : ℕ) → k < 2 → waits.pc k ≢ RwLock.reading → still.pc k ≢ RwLock.reading)
unfolding ℕ_discrete
kept_guard-blocks_example =
    kept_guard-blocks (omega arith) 1 0 (omega arith) (omega arith) waits-Reach refl refl
      (then_one none_left (RwLock.pick 0 (omega arith) drain, refl))
