-- ===== src/Mutex/RwLock/Exclusion.antt =====
-- The guards of `RWLock` of mutex/src/lib.rs: who has them, and what happens to the data meanwhile.
use rpi5_baremetal.Base.{ℕ, ◌^◌, ◌<◌, ◌≡◌, ◌≢◌, ◌⊎◌, inl, inr, refl, arith}
use rpi5_baremetal.Mutex.Threads.{le-tally, tally_unique}
use rpi5_baremetal.Mutex.RwLock.{
  RwLock, Pc, reading, writing, read_round, write_round, drop_read, Move, call_read, load_for_read,
  try_read, release_read, call_write, load_for_write, try_write, drain, write, release_write,
  System, Reach,
}
use rpi5_baremetal.Mutex.RwLock.Invariant.{reads, owns, writes, Reach-Inv}

abbrev pub IsGuard : Pc → Type 0
IsGuard p = (p ≡ reading) ⊎ (p ≡ writing)

module _ {T : Type 0} {n : ℕ} {v : T} {s : System T} (few : n < 2 ^ 63) (r : Reach n v s) where
  one_writer : (i j : ℕ) → i < n → j < n → s.pc i ≡ writing → s.pc j ≡ writing → i ≡ j
  one_writer i j lt_i lt_j in_i in_j =
      let inv = Reach-Inv few r in
      tally_unique owns n s.pc i j inv.one_owner lt_i lt_j (ground arith) (ground arith)

  no_reader : (i j : ℕ) → i < n → j < n → s.pc i ≡ writing → s.pc j ≢ reading
  no_reader i j lt_i lt_j in_i in_j =
      let inv = Reach-Inv few r in
      ground (arith, inv.alone, le-tally writes n s.pc i lt_i, le-tally reads n s.pc j lt_j)

  -- With fewer than 2 ^ 63 threads, in every state that they reach, a thread with a write guard
  -- excludes every other thread: it has no guard for writing, and none for reading.
  pub write_guard-alone :
      (i j : ℕ) → i < n → j < n → s.pc i ≡ writing → i ≢ j → (s.pc j ≢ writing) × (s.pc j ≢ reading)
  write_guard-alone i j lt_i lt_j in_i ne =
      (λ in_j. ne (one_writer i j lt_i lt_j in_i in_j), no_reader i j lt_i lt_j in_i)

  Move-keeps :
      {l' : RwLock T} {p p' : Pc} → Move s.lock p l' p' → p ≢ writing → l'.value ≡ s.lock.value
  unfolding read_round write_round drop_read
  Move-keeps call_read ne = refl
  Move-keeps load_for_read ne = refl
  Move-keeps (try_read spurious) ne = ground arith
  Move-keeps release_read ne = refl
  Move-keeps call_write ne = refl
  Move-keeps load_for_write ne = refl
  Move-keeps (try_write spurious) ne = ground arith
  Move-keeps drain ne = refl
  Move-keeps (write v) ne = absurd (ne refl)
  Move-keeps release_write ne = absurd (ne refl)

  -- With fewer than 2 ^ 63 threads, in every state that they reach: as long as a thread holds a
  -- guard, for reading or for writing, no move of another thread changes the data.
  pub guard-keeps :
      {l' : RwLock T} {p' : Pc} (i j : ℕ)
      → i < n
      → j < n
      → IsGuard (s.pc i)
      → i ≢ j
      → Move s.lock (s.pc j) l' p'
      → l'.value ≡ s.lock.value
  guard-keeps i j lt_i lt_j (inl in_i) ne mv =
      Move-keeps mv (λ in_j. no_reader j i lt_j lt_i in_j in_i)
  guard-keeps i j lt_i lt_j (inr in_i) ne mv =
      Move-keeps mv (λ in_j. ne (one_writer i j lt_i lt_j in_i in_j))
