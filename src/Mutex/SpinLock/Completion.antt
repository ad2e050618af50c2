-- ===== src/Mutex/SpinLock/Completion.antt =====
-- `SpinLock` of mutex/src/lib.rs does not get stuck.
use rpi5_baremetal.Base.{ℕ, ◌<◌, ◌≡◌, refl, sym, inl, inr, Bool-cases, false, arith}
use mathlib.Core.Path.{subst}
use rpi5_baremetal.Mutex.Threads.{tally, tally-go_to, le-tally, tally-pos}
use rpi5_baremetal.Mutex.Schedules.{Steps, none_left, then_one, runs_down}
use rpi5_baremetal.Mutex.SpinLock.{
  SpinLock, Pc, outside, locking, guarded, lock_round, drop, Move, spin, release, System, Step,
  pick, Reach, later,
}
use rpi5_baremetal.Mutex.SpinLock.Exclusion.{holds, holds_pos, Reach-Inv}

-- How far a thread is from being done with the lock.
abbrev pub left : Pc → ℕ
left outside = 0
left locking = 2
left guarded = 1

left_pos : (p : Pc) → 0 < left p → holds p ≡ 0 → p ≡ locking
left_pos outside h e = absurd (omega arith)
left_pos locking h e = refl
left_pos guarded h e = absurd (omega arith)

left_zero : (p : Pc) → left p ≡ 0 → p ≡ outside
left_zero outside h = refl
left_zero locking h = absurd (omega arith)
left_zero guarded h = absurd (omega arith)

lock_round-free :
    {T : Type 0} (l : SpinLock T) → l.locked ≡ false → (lock_round false l).1 ≡ guarded
unfolding lock_round
lock_round-free l free = ground arith

module _ {T : Type 0} {n : ℕ} where
  -- A thread with a guard gives it back.
  releases :
      (s : System T) (i : ℕ)
      → i < n
      → s.pc i ≡ guarded
      → (t : System T) × Steps (Step n) s t × (tally left n t.pc < tally left n s.pc)
  releases s i lt at_guard =
      let mv : Move s.lock (s.pc i) (drop s.lock) outside =
        subst (λ p. Move s.lock p (drop s.lock) outside) (sym at_guard) release in
      (_, then_one none_left (pick i lt mv), ground (arith, tally-go_to left n s.pc i outside lt))

  -- A thread in the loop of `lock` takes the free lock.
  takes :
      (s : System T) (i : ℕ)
      → i < n
      → s.pc i ≡ locking
      → s.lock.locked ≡ false
      → (t : System T) × Steps (Step n) s t × (tally left n t.pc < tally left n s.pc)
  takes s i lt at_loop free =
      let (l, p) = lock_round false s.lock in
      let mv : Move s.lock (s.pc i) l p =
        subst (λ q. Move s.lock q l p) (sym at_loop) (spin false) in
      let got : p ≡ guarded = lock_round-free s.lock free in
      (_, then_one none_left (pick i lt mv), ground (arith, tally-go_to left n s.pc i p lt))

  closer :
      {v : T} (s : System T)
      → Reach n v s
      → 0 < tally left n s.pc
      → (t : System T) × Steps (Step n) s t × (tally left n t.pc < tally left n s.pc)
  closer s r some = elim (Bool-cases s.lock.locked) [
    | inl set ↦
        let (i, lt, heavy) = tally-pos holds n s.pc (ground (arith, (Reach-Inv r).counted)) in
        releases s i lt (holds_pos (s.pc i) heavy)
    | inr clear ↦
        let (i, lt, heavy) = tally-pos left n s.pc some in
        takes s i lt
          (left_pos (s.pc i) heavy
            (ground (arith, (Reach-Inv r).counted, le-tally holds n s.pc i lt)))
          clear
  ]

  -- From every state that the threads reach, some steps of theirs lead to one in which all of them are
  -- done with the lock: no state is a deadlock.
  pub locks_complete :
      {v : T} (s : System T)
      → Reach n v s
      → (t : System T) × Steps (Step n) s t × ((i : ℕ) → i < n → t.pc i ≡ outside)
  locks_complete {v} s r =
      let (t, steps, done) =
        runs_down (Reach n v) (λ _ _ h st. later h st) (λ s. tally left n s.pc) closer s r in
      (t, steps, λ i lt. left_zero (t.pc i) (omega (arith, done, le-tally left n t.pc i lt)))
