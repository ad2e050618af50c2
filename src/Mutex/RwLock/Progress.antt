-- ===== src/Mutex/RwLock/Progress.antt =====
-- The rounds of the loops of `RWLock` of mutex/src/lib.rs, against where the threads are.
use rpi5_baremetal.Base.{
  ℕ, ◌^◌, ◌<◌, ◌≡◌, ◌≢◌, ◌↔◌, ◌⊎◌, inl, inr, Bool, false, refl, arith, dec_lt,
}
use rpi5_baremetal.Mutex.Threads.{tally, le-tally, tally-pos}
use rpi5_baremetal.Mutex.RwLock.{
  Pc, read_load, reading, draining, writing, read_round, write_round, drain_round, System, Reach,
}
use rpi5_baremetal.Mutex.RwLock.Invariant.{reads, owns, Reach-Inv}

-- The thread has the write flag: it waits for the readers, or it writes.
abbrev pub IsOwner : Pc → Type 0
IsOwner p = (p ≡ draining) ⊎ (p ≡ writing)

pub reads_pos : (p : Pc) → 0 < reads p → p ≡ reading
reads_pos reading h = refl
reads_pos _ h = absurd (omega arith)

pub owns_pos : (p : Pc) → 0 < owns p → IsOwner p
owns_pos draining h = inl refl
owns_pos writing h = inr refl
owns_pos _ h = absurd (omega arith)

module _ {T : Type 0} {n : ℕ} {v : T} {s : System T} (few : n < 2 ^ 63) (r : Reach n v s) where
  abbrev word : ℕ
  word = s.lock.read_count_write_lock_flag

  no-IsOwner_iff : (tally owns n s.pc ≡ 0) ↔ ((i : ℕ) → i < n → ¬ IsOwner (s.pc i))
  no-IsOwner_iff = (
    λ none_owns i lt owner. ground (arith, le-tally owns n s.pc i lt),
    λ none_owns. elim (dec_lt 0 (tally owns n s.pc)) [
      | yes some_owns ↦
          let (i, lt, heavy) = tally-pos owns n s.pc some_owns in
          absurd (none_owns i lt (owns_pos _ heavy))
      | no h ↦ omega arith
    ],
  )

  no_reader_iff : (tally reads n s.pc ≡ 0) ↔ ((i : ℕ) → i < n → s.pc i ≢ reading)
  no_reader_iff = (
    λ none_reads i lt reader. ground (arith, le-tally reads n s.pc i lt),
    λ none_reads. elim (dec_lt 0 (tally reads n s.pc)) [
      | yes some_reads ↦
          let (i, lt, heavy) = tally-pos reads n s.pc some_reads in
          absurd (none_reads i lt (reads_pos _ heavy))
      | no h ↦ omega arith
    ],
  )

  -- With fewer than 2 ^ 63 threads, in every state that they reach: a round of `read` that has
  -- loaded the word as it is, and does not fail spuriously, gets a guard exactly when no thread
  -- writes or waits to write.
  pub read_round_iff :
      ((read_round false word s.lock).1 ≡ reading) ↔ ((i : ℕ) → i < n → ¬ IsOwner (s.pc i))
  unfolding read_round
  read_round_iff =
      let inv = Reach-Inv few r in
      (
        λ got. no-IsOwner_iff.0 (ground (arith, inv.counted)),
        λ none_owns. ground (arith, inv.counted, inv.few, no-IsOwner_iff.1 none_owns),
      )

  -- With fewer than 2 ^ 63 threads, in every state that they reach: a round of `write` that has
  -- loaded the word as it is, and does not fail spuriously, gets a guard at once exactly when no
  -- thread reads, writes or waits to write.
  pub write_round_iff :
      ((write_round false word s.lock).1 ≡ writing)
      ↔ ((i : ℕ) → i < n → (¬ IsOwner (s.pc i)) × (s.pc i ≢ reading))
  unfolding write_round
  write_round_iff =
      let inv = Reach-Inv few r in
      (
        λ got i lt. (
          no-IsOwner_iff.0 (ground (arith, inv.counted)) i lt,
          no_reader_iff.0 (ground (arith, inv.counted)) i lt,
        ),
        λ none_there. ground (
          arith,
          inv.counted,
          inv.few,
          no-IsOwner_iff.1 (λ i lt. (none_there i lt).0),
          no_reader_iff.1 (λ i lt. (none_there i lt).1),
        ),
      )

  -- With fewer than 2 ^ 63 threads, in every state that they reach: a round of the loop in which
  -- a writer waits ends the loop exactly when no thread holds a read guard.
  pub drain_round_iff : (drain_round s.lock ≡ writing) ↔ ((i : ℕ) → i < n → s.pc i ≢ reading)
  unfolding drain_round
  drain_round_iff =
      let inv = Reach-Inv few r in
      (
        λ got. no_reader_iff.0 (ground (arith, inv.counted, inv.few)),
        λ none_reads. ground (arith, inv.counted, inv.few, no_reader_iff.1 none_reads),
      )

  -- With fewer than 2 ^ 63 threads, in every state that they reach: while a thread waits to
  -- write, a round of `read` changes nothing and gets no guard, whatever value it has loaded
  -- before.
  pub draining-blocks_readers :
      (i : ℕ) (spurious : Bool) (m : ℕ)
      → i < n
      → s.pc i ≡ draining
      → read_round spurious m s.lock ≡ (s.lock, read_load)
  unfolding read_round
  draining-blocks_readers i spurious m lt waits =
      let inv = Reach-Inv few r in
      ground (arith, inv.counted, inv.one_owner, le-tally owns n s.pc i lt)
