-- ===== src/Mutex/RwLock/Orderings/Kinds.antt =====
-- The moves of a thread over `RWLock` of mutex/src/lib.rs, by what they do with the data and the word.
use rpi5_baremetal.Base.{ℕ, ◌/◌, ◌%◌, ◌^◌, ◌≤◌, ◌≡◌, ◌⊎◌, inl, inr, refl, sym, Bool, arith}
use mathlib.Core.Path.{subst}
use rpi5_baremetal.Mutex.Clocks.{Effect, relaxed, acquire, release, write_data}
use rpi5_baremetal.Mutex.RwLock.{
  RwLock, Pc, read_load, reading, write_load, draining, writing, read_round, write_round,
  drain_round, Move, call_read, load_for_read, try_read, release_read, call_write, load_for_write,
  try_write, drain, write, release_write,
}
use rpi5_baremetal.Mutex.RwLock.Invariant.{writes}
use rpi5_baremetal.Mutex.RwLock.Orderings.{ordering, on_success}

-- The thread has a guard, or the write flag.
abbrev pub holds : Pc → ℕ
holds reading = 1
holds draining = 1
holds writing = 1
holds _ = 0

abbrev pub guards : Pc → ℕ
guards reading = 1
guards writing = 1
guards _ = 0

-- What a move from the point `p` to the point `p'` does, at a word.
pub data Kind (word : ℕ) (p p' : Pc) : Effect → Type 0 where
  waits : holds p' ≤ holds p → guards p ≤ guards p' → writes p ≤ writes p' → Kind word p p' relaxed
  gains : word / 2 ^ 63 % 2 ≡ 0 → holds p ≡ 0 → Kind word p p' acquire
  drops : guards p ≡ 1 → holds p' ≡ 0 → Kind word p p' release
  puts : p ≡ writing → p' ≡ writing → Kind word p p' write_data

abbrev Exchange : ℕ → Pc → Pc → Type 0
Exchange word p p' = Kind word p p' (on_success p')

module _ {T : Type 0} where
  read_round-cases :
      (spurious : Bool) (n : ℕ) (l : RwLock T)
      → (((read_round spurious n l).1 ≡ reading) × (l.read_count_write_lock_flag / 2 ^ 63 % 2 ≡ 0))
        ⊎ ((read_round spurious n l).1 ≡ read_load)
  unfolding read_round
  read_round-cases spurious n l = ground arith

  pub write_round-cases :
      (spurious : Bool) (n : ℕ) (l : RwLock T)
      → (((write_round spurious n l).1 ≡ writing)
          × (l.read_count_write_lock_flag / 2 ^ 63 % 2 ≡ 0)
          × (l.read_count_write_lock_flag % 2 ^ 63 ≡ 0))
        ⊎ (((write_round spurious n l).1 ≡ draining)
            × (l.read_count_write_lock_flag / 2 ^ 63 % 2 ≡ 0))
        ⊎ ((write_round spurious n l).1 ≡ write_load)
  unfolding write_round
  write_round-cases spurious n l = ground arith

  drain_round-cases : (l : RwLock T) → (drain_round l ≡ writing) ⊎ (drain_round l ≡ draining)
  unfolding drain_round
  drain_round-cases l = ground arith

  pub Move-Kind :
      {l l' : RwLock T} {p p' : Pc} (mv : Move l p l' p')
      → Kind l.read_count_write_lock_flag p p' (ordering mv)
  unfolding ordering
  Move-Kind call_read = waits (omega arith) (omega arith) (omega arith)
  Move-Kind load_for_read = waits (omega arith) (omega arith) (omega arith)
  Move-Kind {l} {p = p} (try_read spurious {n = n}) = elim (read_round-cases spurious n l) [
    | inl (got, free) ↦ subst (Exchange l.read_count_write_lock_flag p) (sym got) (gains free refl)
    | inr again ↦
        subst (Exchange l.read_count_write_lock_flag p) (sym again)
          (waits (omega arith) (omega arith) (omega arith))
  ]
  Move-Kind release_read = drops refl refl
  Move-Kind call_write = waits (omega arith) (omega arith) (omega arith)
  Move-Kind load_for_write = waits (omega arith) (omega arith) (omega arith)
  Move-Kind {l} {p = p} (try_write spurious {n = n}) = elim (write_round-cases spurious n l) [
    | inl (got, free, none_read) ↦
        subst (Exchange l.read_count_write_lock_flag p) (sym got) (gains free refl)
    | inr (inl (got, free)) ↦
        subst (Exchange l.read_count_write_lock_flag p) (sym got) (gains free refl)
    | inr (inr again) ↦
        subst (Exchange l.read_count_write_lock_flag p) (sym again)
          (waits (omega arith) (omega arith) (omega arith))
  ]
  Move-Kind {l} drain = elim (drain_round-cases l) [
    | inl got ↦
        subst (λ q. Kind l.read_count_write_lock_flag draining q relaxed) (sym got)
          (waits (omega arith) (omega arith) (omega arith))
    | inr again ↦
        subst (λ q. Kind l.read_count_write_lock_flag draining q relaxed) (sym again)
          (waits (omega arith) (omega arith) (omega arith))
  ]
  Move-Kind (write v) = puts refl refl
  Move-Kind release_write = drops refl refl
