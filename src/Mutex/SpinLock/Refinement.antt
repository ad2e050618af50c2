-- ===== src/Mutex/SpinLock/Refinement.antt =====
-- `SpinLock` of mutex/src/lib.rs does what a lock promises, with write guards alone.
use rpi5_baremetal.Base.{ℕ, ◌+◌, ◌≤◌, ◌≡◌, ◌⊎◌, inl, inr, refl, sym, Bool, arith}
use mathlib.Core.Path.{subst}
use rpi5_baremetal.Mutex.Threads.{tally, tally-go_to, le-tally, tally-zero}
use rpi5_baremetal.Mutex.Specification.{
  Spec, Spec-path, Event, nothing, begin_write, update, end_write, Allowed, fresh, next,
}
use rpi5_baremetal.Mutex.SpinLock.{
  SpinLock, Pc, outside, lock_round, drop, deref_mut, Move, call_lock, spin, write, release, System,
  Step, pick, Reach, start, later,
}
use rpi5_baremetal.Mutex.SpinLock.Exclusion.{holds, flag, flag-le, Reach-Inv}

module _ {T : Type 0} where
  abbrev pub view : ℕ → System T → Spec T
  view n s = record { readers = 0; writers = tally holds n s.pc; value = s.lock.value }

  -- A round of `lock` gives a guard only while there is none.
  lock_round-counted :
      (l : SpinLock T) (spurious : Bool) {h h' : ℕ}
      → h ≡ flag l.locked
      → h' + 0 ≡ h + holds (lock_round spurious l).1
      → ((lock_round spurious l).0.value ≡ l.value) × ((h' ≡ h) ⊎ ((h ≡ 0) × (h' ≡ 1)))
  unfolding lock_round
  lock_round-counted l spurious c m = ground arith

  Move-Event :
      {l l' : SpinLock T} {p p' : Pc} {h h' : ℕ}
      → Move l p l' p'
      → h ≡ flag l.locked
      → h' + holds p ≡ h + holds p'
      → holds p ≤ h
      → h ≤ 1
      → Event
          (record { readers = 0; writers = h; value = l.value })
          (record { readers = 0; writers = h'; value = l'.value })
  unfolding drop deref_mut
  Move-Event call_lock c m has one = nothing (Spec-path refl (omega arith) refl)
  Move-Event {l} (spin spurious) c m has one = elim (lock_round-counted l spurious c m).1 [
    | inl same ↦ nothing (Spec-path refl same (lock_round-counted l spurious c m).0)
    | inr (free, got) ↦
        begin_write refl free (Spec-path refl got (lock_round-counted l spurious c m).0)
  ]
  Move-Event (write v) c m has one = update v (omega arith) (Spec-path refl (omega arith) refl)
  Move-Event release c m has one = end_write (omega arith) (Spec-path refl (omega arith) refl)

  -- Each step from a state that the threads reach changes the number of guards and the data as a lock
  -- with write guards alone may: a guard begins only while there is none, and the data changes only
  -- under a guard.
  pub spin_step-Event :
      {n : ℕ} {v : T} {s t : System T} → Reach n v s → Step n s t → Event (view n s) (view n t)
  spin_step-Event {n} {s = s} r (pick i {p = p} lt mv) =
      let c : tally holds n s.pc ≡ flag s.lock.locked = (Reach-Inv r).counted in
      Move-Event mv c (tally-go_to holds n s.pc i p lt) (le-tally holds n s.pc i lt)
        (omega (arith, c, flag-le s.lock.locked))

  -- Each state that the threads reach is one that a lock may come to.
  pub Reach-Allowed : {n : ℕ} {v : T} {s : System T} → Reach n v s → Allowed v (view n s)
  Reach-Allowed {n} {v} start =
      subst (Allowed v) (Spec-path refl (sym (tally-zero holds n (λ _. outside) (λ _. refl))) refl)
        fresh
  Reach-Allowed (later r st) = next (Reach-Allowed r) (spin_step-Event r st)
