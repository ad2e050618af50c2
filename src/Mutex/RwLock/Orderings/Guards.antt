-- ===== src/Mutex/RwLock/Orderings/Guards.antt =====
-- What a thread knows when it has a guard of `RWLock` of mutex/src/lib.rs, and what it does not.
use rpi5_baremetal.Base.{ℕ, ◌/◌, ◌%◌, ◌^◌, ◌<◌, ◌≡◌, inl, inr, refl, sym, Bool, arith}
use mathlib.Core.Path.{subst}
use rpi5_baremetal.Mutex.Threads.{go_to_same, tally, le-tally}
use rpi5_baremetal.Mutex.Clocks.{KnowsWrites, KnowsReads, le-later_of, join, happen}
use rpi5_baremetal.Mutex.RwLock.{Pc, writing, write_round}
use rpi5_baremetal.Mutex.RwLock.Invariant.{reads, owns}
use rpi5_baremetal.Mutex.RwLock.Exclusion.{IsGuard}
use rpi5_baremetal.Mutex.RwLock.Orderings.{on_success, State, Reach}
use rpi5_baremetal.Mutex.RwLock.Orderings.Kinds.{guards, write_round-cases}
use rpi5_baremetal.Mutex.RwLock.Orderings.Keeping.{guards-holds}
use rpi5_baremetal.Mutex.RwLock.Orderings.Seen.{Reach-Known, counts, IsGuard-guards}

guards-reads : (p : Pc) → reads p ≡ 0 → owns p ≡ 0 → guards p ≡ 0
guards-reads p r o = ground arith

module _ {T : Type 0} {n : ℕ} {v : T} (few : n < 2 ^ 63) where
  at_once :
      {s : State T}
      → Reach n v s
      → (i m : ℕ) (spurious : Bool) → i < n
      → (write_round spurious m s.system.lock).1 ≡ writing
      → (word : ℕ) × (word ≡ s.system.lock.read_count_write_lock_flag)
        × (word / 2 ^ 63 % 2 ≡ 0)
        × (word % 2 ^ 63 ≡ 0)
  at_once {s} r i m spurious lt got = elim (write_round-cases spurious m s.system.lock) [
    | inl (_, clear, none_read) ↦ (_, refl, clear, none_read)
    | inr (inl (waiting, _)) ↦ cc
    | inr (inr again) ↦ cc
  ]

  joined :
      {s : State T} (i : ℕ)
      → Reach n v s
      → i < n
      → tally reads n s.system.pc ≡ 0
      → tally owns n s.system.pc ≡ 0
      → KnowsWrites n s.clocks.made (join (s.clocks.views i) s.clocks.released)
        × KnowsReads n s.clocks.made (join (s.clocks.views i) s.clocks.released)
  joined {s} i r lt none_read none_own =
      let known = Reach-Known few r in
      let inv = counts few r in
      (
        λ k lt'. omega (
          arith,
          known.free (omega (arith, inv.within)) k lt',
          (le-later_of ((s.clocks.views i).writes k) (s.clocks.released.writes k)).1,
        ),
        λ k lt'. omega (
          arith,
          known.dropped k lt' (
              guards-reads (s.system.pc k) (omega (arith, le-tally reads n s.system.pc k lt'))
                (omega (arith, le-tally owns n s.system.pc k lt'))),
          (le-later_of ((s.clocks.views i).reads k) (s.clocks.released.reads k)).1,
        ),
      )

  -- With fewer than 2 ^ 63 threads, in every state that they reach: each write of the data happens
  -- before whatever a thread with a guard, for reading or for writing, does next. Where a round of
  -- `write` gives a guard at once, without a wait for readers, each read of the data does so too.
  pub IsGuard-KnowsWrites :
      {s : State T}
      → Reach n v s
      → ((i : ℕ) → i < n → IsGuard (s.system.pc i) → KnowsWrites n s.clocks.made (s.clocks.views i))
        × ((i m : ℕ) (spurious : Bool)
            → i < n
            → (write_round spurious m s.system.lock).1 ≡ writing
            → KnowsWrites n s.clocks.made ((happen (on_success writing) i s.clocks).views i)
              × KnowsReads n s.clocks.made ((happen (on_success writing) i s.clocks).views i))
  unfolding happen
  IsGuard-KnowsWrites {s} r = (
    λ i lt guard.
        (Reach-Known few r).held i lt
          (guards-holds (s.system.pc i) (IsGuard-guards (s.system.pc i) guard)),
    λ i m spurious lt got.
        let inv = counts few r in
        let (word, same, clear, none_read) = at_once r i m spurious lt got in
        let known =
          joined i r lt (omega (arith, same, clear, none_read, inv.counted, inv.few, inv.one_owner))
            (omega (arith, same, clear, none_read, inv.counted, inv.few, inv.one_owner)) in
        subst (λ u. KnowsWrites n s.clocks.made u × KnowsReads n s.clocks.made u)
          (sym (go_to_same s.clocks.views i (join (s.clocks.views i) s.clocks.released))) known,
  )
