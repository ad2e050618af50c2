-- ===== src/Mutex/RwLock/Reentry.antt =====
-- `RWLock` of mutex/src/lib.rs where a reader asks for a second guard, as the test `rw_lock_data` does.
use rpi5_baremetal.Base.{ℕ, ◌^◌, ◌<◌, ◌≡◌, ◌≢◌, Bool, refl, ap, ◌∙◌, arith}
use rpi5_baremetal.Mutex.Threads.{go_to-all}
use rpi5_baremetal.Mutex.Schedules.{Steps, Steps-keep}
use rpi5_baremetal.Mutex.RwLock.{
  RwLock, Pc, read_load, reading, draining, writing, read_round, write_round, drain_round, Move,
  call_read, load_for_read, try_read, release_read, call_write, load_for_write, try_write, drain,
  write, release_write, System, Step, pick, Reach, later,
}
use rpi5_baremetal.Mutex.RwLock.Progress.{drain_round_iff, draining-blocks_readers}

module _ {T : Type 0} where
  write_round-ne : (spurious : Bool) (m : ℕ) (l : RwLock T) → (write_round spurious m l).1 ≢ reading
  unfolding write_round
  write_round-ne spurious m l e = ground arith

  drain_round-ne : (l : RwLock T) → drain_round l ≢ reading
  unfolding drain_round
  drain_round-ne l e = ground arith

  drain_round-draining : (l : RwLock T) → drain_round l ≢ writing → drain_round l ≡ draining
  unfolding drain_round
  drain_round-draining l ne = ground arith

  -- While rounds of `read` fail, no move gives a read guard.
  Move-ne :
      {l l' : RwLock T} {p p' : Pc}
      → Move l p l' p'
      → ((spurious : Bool) (m : ℕ) → read_round spurious m l ≡ (l, read_load))
      → p ≢ reading
      → p' ≢ reading
  Move-ne call_read blocked ne e = cc
  Move-ne load_for_read blocked ne e = cc
  Move-ne (try_read spurious {n = m}) blocked ne e = cc (ap (λ x. x.1) (blocked spurious m))
  Move-ne release_read blocked ne e = cc
  Move-ne call_write blocked ne e = cc
  Move-ne load_for_write blocked ne e = cc
  Move-ne {l} (try_write spurious {n = m}) blocked ne e = write_round-ne spurious m l e
  Move-ne {l} drain blocked ne e = drain_round-ne l e
  Move-ne (write v) blocked ne e = cc
  Move-ne release_write blocked ne e = cc

  Move-draining :
      {l l' : RwLock T} {p p' : Pc}
      → Move l p l' p'
      → drain_round l ≢ writing
      → p ≡ draining
      → p' ≡ draining
  Move-draining call_read ne e = cc
  Move-draining load_for_read ne e = cc
  Move-draining (try_read spurious) ne e = cc
  Move-draining release_read ne e = cc
  Move-draining call_write ne e = cc
  Move-draining load_for_write ne e = cc
  Move-draining (try_write spurious) ne e = cc
  Move-draining {l} drain ne e = drain_round-draining l ne
  Move-draining (write v) ne e = cc
  Move-draining release_write ne e = cc

-- A step behind which the thread `i` has its read guard.
abbrev pub StepKeeping : {T : Type 0} → ℕ → ℕ → System T → System T → Type 0
StepKeeping n i s t = Step n s t × (t.pc i ≡ reading)

-- What stays from a state `s` on: thread `i` reads, thread `j` waits to write, and there is no new
-- reader.
record IsStuck {T : Type 0} (n : ℕ) (v : T) (i j : ℕ) (s t : System T) : Type 0 where
  reached : Reach n v t
  reads_on : t.pc i ≡ reading
  waits : t.pc j ≡ draining
  no_reader : (k : ℕ) → k < n → s.pc k ≢ reading → t.pc k ≢ reading

module _ {T : Type 0} {n : ℕ} {v : T} (few : n < 2 ^ 63) (i j : ℕ) (lt_i : i < n)
    (lt_j : j < n) where
  Step-IsStuck :
      {s t u : System T} → IsStuck n v i j s t → StepKeeping n i t u → IsStuck n v i j s u
  Step-IsStuck {s} {t} stuck (pick k lt mv, still) =
      let not_drained : drain_round t.lock ≢ writing =
        λ got. (drain_round_iff few stuck.reached).0 got i lt_i stuck.reads_on in
      record {
        reached = later stuck.reached (pick k lt mv);
        reads_on = still;
        waits =
            go_to-all (λ m q. m ≡ j → q ≡ draining) t.pc k _
              (λ same. Move-draining mv not_drained (ap t.pc same ∙ stuck.waits))
              (λ m _ same. ap t.pc same ∙ stuck.waits) j refl;
        no_reader =
            go_to-all (λ m q. m < n → s.pc m ≢ reading → q ≢ reading) t.pc k _
              (λ lt' ne.
                Move-ne mv
                  (λ spurious m.
                    draining-blocks_readers few stuck.reached j spurious m lt_j stuck.waits)
                  (stuck.no_reader k lt' ne))
              (λ m _ lt' ne. stuck.no_reader m lt' ne);
      }

  -- With fewer than 2 ^ 63 threads, from a state that they reach in which thread `i` has a read guard
  -- and thread `j` waits to write: however the threads go on, as long as thread `i` keeps its guard,
  -- thread `j` waits, and no thread gets a read guard that had none.
  pub kept_guard-blocks :
      {s t : System T}
      → Reach n v s
      → s.pc i ≡ reading
      → s.pc j ≡ draining
      → Steps (StepKeeping n i) s t
      → (t.pc j ≡ draining) × ((k : ℕ) → k < n → s.pc k ≢ reading → t.pc k ≢ reading)
  kept_guard-blocks {s} r reader waiter steps =
      let stuck =
        Steps-keep (IsStuck n v i j s) (λ t u h st. Step-IsStuck h st) steps
          (record { reached = r; reads_on = reader; waits = waiter; no_reader = λ k lt ne. ne }) in
      (stuck.waits, stuck.no_reader)
