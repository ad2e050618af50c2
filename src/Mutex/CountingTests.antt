-- ===== src/Mutex/CountingTests.antt =====
-- `rw_lock_data` of mutex/src/lib.rs with one reader and one writer of one round, along two schedules.
use rpi5_baremetal.Base.{
  ℕ, zero, suc, ◌<◌, ◌≡◌, ◌↔◌, refl, inl, inr, true, false, Option, none, some, List, [], ◌∷◌, All,
  ℕ_discrete, arith,
}
use rpi5_baremetal.Mutex.Threads.{go_to, tally}
use rpi5_baremetal.Mutex.Schedules.{Steps}
use rpi5_baremetal.Mutex.RwLock.{new, read_round, write_round, drain_round}
use rpi5_baremetal.Mutex.RwLock
use rpi5_baremetal.Mutex.RwLock.Counting.{advance, System, Step, go_on, begin, Reach, start, later}
use rpi5_baremetal.Mutex.RwLock.Counting.Total.{additions, IsDone, no_addition_lost}
use rpi5_baremetal.Mutex.RwLock.Counting.Deadlock.{IsDeadlocked}
use rpi5_baremetal.Mutex.RwLock.Counting.Completion.{threads_finish_iff}

abbrev kinds : ℕ → Option ℕ
kinds zero = none
kinds _ = some 1

abbrev begun : System
begun = record { lock = new 0; points = λ i. begin (kinds i) }

-- The threads by number, in the order of their steps.
abbrev run : List ℕ → System → System
run [] s = s
run (i ∷ is) s = run is (record {
  lock = (advance false s.lock (s.points i)).0;
  points = go_to s.points i (advance false s.lock (s.points i)).1;
})

run-Reach :
    (is : List ℕ) (s : System) → All (λ i. i < 2) is → Reach 2 kinds s → Reach 2 kinds (run is s)
run-Reach [] s lt r = r
run-Reach (i ∷ is) s (lt, lts) r = run-Reach is _ lts (later r (go_on i false lt))

-- The reader is done before the writer waits for it.
abbrev reader_first : List ℕ
reader_first = 0 ∷ 0 ∷ 0 ∷ 0 ∷ 0 ∷ 1 ∷ 0 ∷ 0 ∷ 1 ∷ 1 ∷ 1 ∷ 1 ∷ 1 ∷ []

abbrev ended : System
ended = run reader_first begun

ended-IsDone : (i : ℕ) → i < 2 → IsDone (ended.points i)
unfolding advance read_round write_round RwLock.compare_exchange_weak ℕ_discrete
ended-IsDone zero h = inl (true, refl)
ended-IsDone (suc zero) h = inr refl
ended-IsDone (suc (suc i)) h = absurd (omega arith)

no_addition_lost_example : ended.lock.value ≡ additions 2 kinds
unfolding tally
no_addition_lost_example =
    no_addition_lost {n = 2} {kinds = kinds} {s = ended} (omega arith) (omega arith)
      (run-Reach reader_first begun (ground arith) start) ended-IsDone

-- The writer sets its flag while the reader has its first guard.
abbrev writer_between : List ℕ
writer_between = 0 ∷ 0 ∷ 1 ∷ 1 ∷ 1 ∷ []

abbrev stuck : System
stuck = run writer_between begun

stuck-IsDeadlocked : IsDeadlocked 2 stuck
unfolding advance read_round write_round RwLock.compare_exchange_weak ℕ_discrete
stuck-IsDeadlocked = (0, 1, omega arith, omega arith, refl, refl)

threads_finish_iff_example :
    ((t : System) × Steps (Step 2) stuck t × ((i : ℕ) → i < 2 → IsDone (t.points i)))
    ↔ (¬ IsDeadlocked 2 stuck)
threads_finish_iff_example =
    threads_finish_iff (omega arith) stuck (run-Reach writer_between begun (ground arith) start)
