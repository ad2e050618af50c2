-- ===== src/Mutex/RwLock/Refinement.antt =====
-- `RWLock` of mutex/src/lib.rs does what a lock promises.
use rpi5_baremetal.Base.{ℕ, suc, ◌^◌, ◌<◌, ◌≡◌, ◌⊎◌, inl, inr, refl, sym, Bool, arith}
use mathlib.Core.Path.{subst}
use rpi5_baremetal.Mutex.Threads.{tally, tally-zero}
use rpi5_baremetal.Mutex.Specification.{
  Spec, Spec-path, Event, nothing, begin_read, end_read, begin_write, update, end_write, Allowed,
  fresh, next,
}
use rpi5_baremetal.Mutex.RwLock.{
  RwLock, Pc, outside, read_exchange, write_exchange, draining, read_round, write_round,
  drain_round, drop_read, drop_write, deref_mut, Move, call_read, load_for_read, try_read,
  release_read, call_write, load_for_write, try_write, drain, write, release_write, System, Step,
  pick, Reach, start, later,
}
use rpi5_baremetal.Mutex.RwLock.Invariant.{reads, writes, Counts, Change, change, Reach-Inv}

module _ {T : Type 0} where
  -- The numbers of guards, and the data.
  abbrev pub view : ℕ → System T → Spec T
  view n s = record {
    readers = tally reads n s.pc;
    writers = tally writes n s.pc;
    value = s.lock.value;
  }

  -- A round of `read` gives a guard only while there is no write guard.
  read_round-Counts :
      (l : RwLock T) (spurious : Bool) (n : ℕ) {r o w r' o' w' : ℕ}
      → Counts l.read_count_write_lock_flag r o w
      → Change (read_exchange n) (read_round spurious n l).1 r o w r' o' w'
      → (w' ≡ w)
        × ((read_round spurious n l).0.value ≡ l.value)
        × ((r' ≡ r) ⊎ ((w ≡ 0) × (r' ≡ suc r)))
  unfolding read_round
  read_round-Counts l spurious n c d = ground arith

  -- A round of `write`, and one of the loop that waits, give a guard only while there is no other.
  write_round-Counts :
      (l : RwLock T) (spurious : Bool) (n : ℕ) {r o w r' o' w' : ℕ}
      → Counts l.read_count_write_lock_flag r o w
      → Change (write_exchange n) (write_round spurious n l).1 r o w r' o' w'
      → (r' ≡ r)
        × ((write_round spurious n l).0.value ≡ l.value)
        × ((w' ≡ w) ⊎ ((r ≡ 0) × (w ≡ 0) × (w' ≡ 1)))
  unfolding write_round
  write_round-Counts l spurious n c d = ground arith

  drain_round-Counts :
      (l : RwLock T) {r o w r' o' w' : ℕ}
      → Counts l.read_count_write_lock_flag r o w
      → Change draining (drain_round l) r o w r' o' w'
      → (r' ≡ r) × ((w' ≡ w) ⊎ ((r ≡ 0) × (w ≡ 0) × (w' ≡ 1)))
  unfolding drain_round
  drain_round-Counts l c d = ground arith

  Move-Event :
      {l l' : RwLock T} {p p' : Pc} {r o w r' o' w' : ℕ}
      → Move l p l' p'
      → Counts l.read_count_write_lock_flag r o w
      → Change p p' r o w r' o' w'
      → Event
          (record { readers = r; writers = w; value = l.value })
          (record { readers = r'; writers = w'; value = l'.value })
  unfolding read_round write_round drain_round drop_read drop_write deref_mut
  Move-Event call_read c d = nothing (Spec-path (omega arith) (omega arith) refl)
  Move-Event load_for_read c d = nothing (Spec-path (omega arith) (omega arith) refl)
  Move-Event {l} (try_read spurious {n}) c d = elim (read_round-Counts l spurious n c d).2 [
    | inl same ↦ nothing (
        Spec-path same (read_round-Counts l spurious n c d).0
          (read_round-Counts l spurious n c d).1)
    | inr (free, more) ↦ begin_read free (
        Spec-path more (read_round-Counts l spurious n c d).0
          (read_round-Counts l spurious n c d).1)
  ]
  Move-Event release_read c d = end_read (Spec-path (omega arith) (omega arith) refl)
  Move-Event call_write c d = nothing (Spec-path (omega arith) (omega arith) refl)
  Move-Event load_for_write c d = nothing (Spec-path (omega arith) (omega arith) refl)
  Move-Event {l} (try_write spurious {n}) c d = elim (write_round-Counts l spurious n c d).2 [
    | inl same ↦ nothing (
        Spec-path (write_round-Counts l spurious n c d).0 same
          (write_round-Counts l spurious n c d).1)
    | inr (free, free', one) ↦ begin_write free free' (
        Spec-path (write_round-Counts l spurious n c d).0 one
          (write_round-Counts l spurious n c d).1)
  ]
  Move-Event {l} drain c d = elim (drain_round-Counts l c d).1 [
    | inl same ↦ nothing (Spec-path (drain_round-Counts l c d).0 same refl)
    | inr (free, free', one) ↦
        begin_write free free' (Spec-path (drain_round-Counts l c d).0 one refl)
  ]
  Move-Event (write v) c d = update v (omega arith) (Spec-path (omega arith) (omega arith) refl)
  Move-Event release_write c d =
      end_write (omega arith) (Spec-path (omega arith) (omega arith) refl)

  -- With fewer than 2 ^ 63 threads, each step from a state that they reach changes the numbers of
  -- guards and the data as a lock may: a read guard begins only while there is no write guard, a write
  -- guard only while there is no guard, and the data changes only under a write guard.
  pub shared_step-Event :
      {n : ℕ} {v : T} {s t : System T}
      → n < 2 ^ 63
      → Reach n v s
      → Step n s t
      → Event (view n s) (view n t)
  shared_step-Event {n} {s = s} few r (pick i {p = p} lt mv) =
      Move-Event mv (Reach-Inv few r) (change n s.pc i p few lt)

  -- With fewer than 2 ^ 63 threads, each state that they reach is one that a lock may come to.
  pub Reach-Allowed :
      {n : ℕ} {v : T} {s : System T} → n < 2 ^ 63 → Reach n v s → Allowed v (view n s)
  Reach-Allowed {n} {v} few start =
      subst (Allowed v)
        (Spec-path (sym (tally-zero reads n (λ _. outside) (λ _. refl)))
          (sym (tally-zero writes n (λ _. outside) (λ _. refl))) refl)
        fresh
  Reach-Allowed few (later r st) = next (Reach-Allowed few r) (shared_step-Event few r st)
