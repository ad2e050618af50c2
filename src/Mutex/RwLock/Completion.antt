-- ===== src/Mutex/RwLock/Completion.antt =====
-- `RWLock` of mutex/src/lib.rs does not get stuck.
use rpi5_baremetal.Base.{ℕ, ◌+◌, ◌%◌, ◌^◌, ◌<◌, ◌≡◌, refl, sym, ap, true, false, arith, dec_lt}
use mathlib.Core.Path.{subst}
use rpi5_baremetal.Mutex.Threads.{go_to, go_to_same, tally, tally-go_to, le-tally, tally-pos}
use rpi5_baremetal.Mutex.Schedules.{Steps, none_left, then_one, runs_down}
use rpi5_baremetal.Mutex.RwLock.{
  RwLock, Pc, outside, read_load, read_exchange, reading, write_load, write_exchange, draining,
  writing, read_round, write_round, drain_round, Move, load_for_read, try_read, release_read,
  load_for_write, try_write, drain, release_write, System, Step, pick, Reach, later,
}
use rpi5_baremetal.Mutex.RwLock.Invariant.{reads, owns, Reach-Inv}

-- How far a thread is from being done with the lock.
abbrev pub left : Pc → ℕ
left outside = 0
left read_load = 2
left (read_exchange n) = 2
left reading = 1
left write_load = 3
left (write_exchange n) = 3
left draining = 2
left writing = 1

left_zero : (p : Pc) → left p ≡ 0 → p ≡ outside
left_zero outside h = refl
left_zero _ h = absurd (omega arith)

module _ {T : Type 0} where
  -- One thread moves alone.
  data Solo (l : RwLock T) (p : Pc) : RwLock T → Pc → Type 0 where
    stands : Solo l p l p
    moves : {l1 l2 : RwLock T} {p1 p2 : Pc} → Solo l p l1 p1 → Move l1 p1 l2 p2 → Solo l p l2 p2

  -- In the system, the others stay where they are.
  Solo-Steps :
      {n : ℕ} (s : System T) (i : ℕ) {l : RwLock T} {p : Pc}
      → i < n
      → Solo s.lock (s.pc i) l p
      → (t : System T) × Steps (Step n) s t
        × (t.lock ≡ l)
        × (t.pc i ≡ p)
        × (tally left n t.pc + left (s.pc i) ≡ tally left n s.pc + left p)
  Solo-Steps s i lt stands = (s, none_left, refl, refl, refl)
  Solo-Steps {n} s i lt (moves {l1 = l1} {l2 = l2} {p2 = p2} solo mv) =
      let (t, steps, at_lock, at_pc, m) = Solo-Steps s i lt solo in
      let mv' : Move t.lock (t.pc i) l2 p2 =
        subst (λ l. Move l (t.pc i) l2 p2) (sym at_lock)
          (subst (λ p. Move l1 p l2 p2) (sym at_pc) mv) in
      (
        record { lock = l2; pc = go_to t.pc i p2 },
        then_one steps (pick i lt mv'),
        refl,
        go_to_same t.pc i p2,
        omega (arith, m, tally-go_to left n t.pc i p2 lt, ap left at_pc),
      )

  -- A thread comes closer to its end.
  abbrev Goes : RwLock T → Pc → Type 0
  Goes l p = (l' : RwLock T) × (p' : Pc) × Solo l p l' p' × (left p' < left p)

  read_free :
      (l : RwLock T)
      → l.read_count_write_lock_flag ≡ 0
      → (read_round false l.read_count_write_lock_flag l).1 ≡ reading
  unfolding read_round
  read_free l e = ground arith

  write_free :
      (l : RwLock T)
      → l.read_count_write_lock_flag ≡ 0
      → (write_round false l.read_count_write_lock_flag l).1 ≡ writing
  unfolding write_round
  write_free l e = ground arith

  Goes-read :
      (l : RwLock T) (p : Pc)
      → l.read_count_write_lock_flag ≡ 0
      → left p ≡ 2
      → Solo l p l read_load
      → Goes l p
  Goes-read l p e two solo =
      (_, _, moves (moves solo load_for_read) (try_read false), ground (arith, read_free l e))

  Goes-write :
      (l : RwLock T) (p : Pc)
      → l.read_count_write_lock_flag ≡ 0
      → left p ≡ 3
      → Solo l p l write_load
      → Goes l p
  Goes-write l p e three solo =
      (_, _, moves (moves solo load_for_write) (try_write false), ground (arith, write_free l e))

  -- An exchange may fail, and leads back to the load.
  read_again : (l : RwLock T) (n : ℕ) → read_round true n l ≡ (l, read_load)
  unfolding read_round
  read_again l n = ground arith

  write_again : (l : RwLock T) (n : ℕ) → write_round true n l ≡ (l, write_load)
  unfolding write_round
  write_again l n = ground arith

  free-Goes :
      (l : RwLock T) (p : Pc)
      → l.read_count_write_lock_flag ≡ 0
      → 0 < left p
      → reads p ≡ 0
      → owns p ≡ 0
      → Goes l p
  free-Goes l outside e some no_guard no_flag = absurd (omega arith)
  free-Goes l read_load e some no_guard no_flag = Goes-read l read_load e refl stands
  free-Goes l (read_exchange n) e some no_guard no_flag = Goes-read l (read_exchange n) e refl (
      subst (λ x. Solo l (read_exchange n) x.0 x.1) (read_again l n) (moves stands (try_read true)))
  free-Goes l reading e some no_guard no_flag = absurd (omega arith)
  free-Goes l write_load e some no_guard no_flag = Goes-write l write_load e refl stands
  free-Goes l (write_exchange n) e some no_guard no_flag = Goes-write l (write_exchange n) e refl (
      subst (λ x. Solo l (write_exchange n) x.0 x.1) (write_again l n)
        (moves stands (try_write true)))
  free-Goes l draining e some no_guard no_flag = absurd (omega arith)
  free-Goes l writing e some no_guard no_flag = absurd (omega arith)

  drain_free : (l : RwLock T) → l.read_count_write_lock_flag % 2 ^ 63 ≡ 0 → drain_round l ≡ writing
  unfolding drain_round
  drain_free l e = ground arith

  -- The owner of the write flag, when no thread reads.
  owner-Goes :
      (l : RwLock T) (p : Pc) → l.read_count_write_lock_flag % 2 ^ 63 ≡ 0 → 0 < owns p → Goes l p
  owner-Goes l draining e owner = (_, _, moves stands drain, ground (arith, drain_free l e))
  owner-Goes l writing e owner = (_, _, moves stands release_write, omega arith)
  owner-Goes l _ e owner = absurd (omega arith)

  reader-Goes : (l : RwLock T) (p : Pc) → 0 < reads p → Goes l p
  reader-Goes l reading some = (_, _, moves stands release_read, omega arith)
  reader-Goes l _ some = absurd (omega arith)

module _ {T : Type 0} {n : ℕ} (few : n < 2 ^ 63) where
  -- A thread that comes closer to its end.
  mover :
      {v : T} (s : System T)
      → Reach n v s
      → 0 < tally left n s.pc
      → (i : ℕ) × (i < n) × Goes s.lock (s.pc i)
  mover s r some =
      let inv = Reach-Inv few r in
      elim (dec_lt 0 (tally reads n s.pc)) [
        | yes reader ↦
            let (i, lt, heavy) = tally-pos reads n s.pc reader in
            (i, lt, reader-Goes s.lock (s.pc i) heavy)
        | no none_reads ↦ elim (dec_lt 0 (tally owns n s.pc)) [
          | yes owner ↦
              let (i, lt, heavy) = tally-pos owns n s.pc owner in
              (i, lt, owner-Goes s.lock (s.pc i) (omega (arith, inv.counted)) heavy)
          | no none_owns ↦
              let (i, lt, heavy) = tally-pos left n s.pc some in
              (
                i,
                lt,
                free-Goes s.lock (s.pc i) (omega (arith, inv.counted)) heavy
                    (omega (arith, le-tally reads n s.pc i lt))
                    (omega (arith, le-tally owns n s.pc i lt)),
              )
        ]
      ]

  closer :
      {v : T} (s : System T)
      → Reach n v s
      → 0 < tally left n s.pc
      → (t : System T) × Steps (Step n) s t × (tally left n t.pc < tally left n s.pc)
  closer s r some =
      let (i, lt, (l, p, solo, less)) = mover s r some in
      let (t, steps, at_lock, at_pc, m) = Solo-Steps s i lt solo in
      (t, steps, omega (arith, m, less))

  -- With fewer than 2 ^ 63 threads, from every state that they reach, some steps of theirs lead to one
  -- in which all of them are done with the lock: no state is a deadlock, whoever reads, writes or waits
  -- to write.
  pub shared_locks_complete :
      {v : T} (s : System T)
      → Reach n v s
      → (t : System T) × Steps (Step n) s t × ((i : ℕ) → i < n → t.pc i ≡ outside)
  shared_locks_complete {v} s r =
      let (t, steps, done) =
        runs_down (Reach n v) (λ _ _ h st. later h st) (λ s. tally left n s.pc) closer s r in
      (t, steps, λ i lt. left_zero (t.pc i) (omega (arith, done, le-tally left n t.pc i lt)))
