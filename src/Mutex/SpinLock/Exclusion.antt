-- ===== src/Mutex/SpinLock/Exclusion.antt =====
-- The guards of `SpinLock` of mutex/src/lib.rs: the flag counted against the threads.
use rpi5_baremetal.Base.{
  ℕ, ◌+◌, ◌≤◌, ◌<◌, ◌≡◌, ◌≢◌, ◌↔◌, ◌⊎◌, refl, inl, inr, Bool-cases, Bool, true, false, arith,
}
use rpi5_baremetal.Mutex.Threads.{tally, tally-go_to, le-tally, tally_unique, tally-zero, tally-pos}
use rpi5_baremetal.Mutex.SpinLock.{
  SpinLock, Pc, outside, locking, guarded, lock_round, deref_mut, drop, Move, call_lock, spin,
  write, release, System, Step, pick, Reach, start, later,
}

abbrev pub holds : Pc → ℕ
holds guarded = 1
holds _ = 0

abbrev pub flag : Bool → ℕ
flag true = 1
flag false = 0

pub flag-le : (b : Bool) → flag b ≤ 1
flag-le b = ground arith

pub holds_pos : (p : Pc) → 0 < holds p → p ≡ guarded
holds_pos guarded h = refl
holds_pos outside h = absurd (omega arith)
holds_pos locking h = absurd (omega arith)

-- A round of a lock takes it, or changes nothing.
pub lock_round-cases :
    {T : Type 0} (waits : Bool) (l : SpinLock T)
    → ((l.locked ≡ false) × (lock_round waits l ≡ (record l { locked = true }, guarded)))
      ⊎ (lock_round waits l ≡ (l, locking))
unfolding lock_round
lock_round-cases true l = ground arith
lock_round-cases false l = ground arith

module _ {T : Type 0} where
  -- The flag is set exactly as long as a thread holds a guard.
  pub record Inv (n : ℕ) (l : SpinLock T) (pc : ℕ → Pc) : Type 0 where
    pub counted : tally holds n pc ≡ flag l.locked

  Move-counted :
      {l l' : SpinLock T} {p p' : Pc}
      → Move l p l' p'
      → (holds p ≤ flag l.locked)
      → flag l'.locked + holds p ≡ flag l.locked + holds p'
  unfolding lock_round drop deref_mut
  Move-counted call_lock h = omega arith
  Move-counted {l} (spin spurious) h = ground arith
  Move-counted (write v) h = omega arith
  Move-counted {l} release h = ground arith

  Step-Inv : {n : ℕ} {s t : System T} → Step n s t → Inv n s.lock s.pc → Inv n t.lock t.pc
  Step-Inv {n} {s} (pick i {p = p} lt mv) inv = record {
    counted = omega (
      arith,
      inv.counted,
      tally-go_to holds n s.pc i p lt,
      Move-counted mv (omega (arith, inv.counted, le-tally holds n s.pc i lt)),
    );
  }

  pub Reach-Inv : {n : ℕ} {v : T} {s : System T} → Reach n v s → Inv n s.lock s.pc
  Reach-Inv {n} start = record { counted = tally-zero holds n _ (λ _. refl) }
  Reach-Inv (later r st) = Step-Inv st (Reach-Inv r)

  Reach-alone : {n : ℕ} {v : T} {s : System T} → Reach n v s → tally holds n s.pc ≤ 1
  Reach-alone r = ground (arith, (Reach-Inv r).counted)

  Move-keeps : {l l' : SpinLock T} {p p' : Pc} → Move l p l' p' → p ≢ guarded → l'.value ≡ l.value
  unfolding lock_round drop
  Move-keeps call_lock ne = refl
  Move-keeps {l} (spin spurious) ne = ground arith
  Move-keeps (write v) ne = absurd (ne refl)
  Move-keeps release ne = refl

  -- In every state that the threads reach, two threads that both hold a guard are the same
  -- thread.
  pub mutual_exclusion :
      {n : ℕ} {v : T} {s : System T}
      → Reach n v s
      → (i j : ℕ) → i < n
      → j < n
      → s.pc i ≡ guarded
      → s.pc j ≡ guarded
      → i ≡ j
  mutual_exclusion {n} {s = s} r i j lt_i lt_j in_i in_j =
      tally_unique holds n s.pc i j (Reach-alone r) lt_i lt_j (ground arith) (ground arith)

  -- In every state that the threads reach: as long as a thread holds a guard, no move of another
  -- thread changes the data.
  pub guarded-keeps :
      {n : ℕ} {v : T} {s : System T} {l : SpinLock T} {p : Pc}
      → Reach n v s
      → (i j : ℕ) → i < n
      → j < n
      → s.pc i ≡ guarded
      → i ≢ j
      → Move s.lock (s.pc j) l p
      → l.value ≡ s.lock.value
  guarded-keeps {s = s} r i j lt_i lt_j in_i ne mv =
      Move-keeps mv (λ in_j. ne (mutual_exclusion r i j lt_i lt_j in_i in_j))

  -- In every state that the threads reach, a round of `lock` that does not fail spuriously gets a
  -- guard exactly when no thread holds one.
  pub lock_round_iff :
      {n : ℕ} {v : T} {s : System T}
      → Reach n v s
      → ((lock_round false s.lock).1 ≡ guarded) ↔ ((i : ℕ) → i < n → s.pc i ≢ guarded)
  unfolding lock_round
  lock_round_iff {n} {s = s} r = (
    λ free i lt held. ground (arith, (Reach-Inv r).counted, le-tally holds n s.pc i lt),
    λ none_held. elim (Bool-cases s.lock.locked) [
      | inl set ↦
          let (i, lt, heavy) = tally-pos holds n s.pc (ground (arith, (Reach-Inv r).counted)) in
          absurd (none_held i lt (holds_pos _ heavy))
      | inr clear ↦ ground arith
    ],
  )
