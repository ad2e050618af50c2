-- ===== src/Mutex/RwLock/Orderings/Seen.antt =====
-- What the threads of `RWLock` of mutex/src/lib.rs know of one another's accesses, in the states they
-- reach.
use rpi5_baremetal.Base.{ℕ, ◌^◌, ◌<◌, ◌≡◌, ◌≢◌, ◌⊎◌, inl, inr, ap, arith, dec_lt}
use rpi5_baremetal.Mutex.Threads.{go_to, tally, le-tally, tally_unique}
use rpi5_baremetal.Mutex.Clocks.{Effect, happen}
use rpi5_baremetal.Mutex.RwLock.{RwLock, Pc, reading, draining, writing, Move, System, pick}
use rpi5_baremetal.Mutex.RwLock
use rpi5_baremetal.Mutex.RwLock.Invariant.{reads, owns, writes, Counts, Reach-Inv}
use rpi5_baremetal.Mutex.RwLock.Exclusion.{IsGuard}
use rpi5_baremetal.Mutex.RwLock.Orderings.{State, move, deref, Reach, start, later}
use rpi5_baremetal.Mutex.RwLock.Orderings.Kinds.{
  holds, guards, Kind, waits, gains, drops, puts, Move-Kind,
}
use rpi5_baremetal.Mutex.RwLock.Orderings.Keeping.{
  Known, waits-Known, gains-Known, drops-Known, puts-Known, reads-Known,
}

project : {T : Type 0} {n : ℕ} {v : T} {s : State T} → Reach n v s → RwLock.Reach n v s.system
project start = RwLock.start
project (later r (move i lt mv)) = RwLock.later (project r) (pick i lt mv)
project (later r (deref i lt guard)) = project r

pub IsGuard-guards : (p : Pc) → IsGuard p → guards p ≡ 1
IsGuard-guards p (inl e) = ap guards e
IsGuard-guards p (inr e) = ap guards e

holds-split : (p : Pc) → holds p ≡ 1 → (0 < reads p) ⊎ (0 < owns p)
holds-split reading h = inl (omega arith)
holds-split draining h = inr (omega arith)
holds-split writing h = inr (omega arith)
holds-split _ h = absurd (omega arith)

holds-none : (p : Pc) → reads p ≡ 0 → owns p ≡ 0 → holds p ≡ 0
holds-none p r o = ground arith

holds-guards : (p : Pc) → holds p ≡ 0 → guards p ≡ 0
holds-guards p h = ground arith

module _ {T : Type 0} {n : ℕ} {v : T} (few : n < 2 ^ 63) where
  pub counts :
      {s : State T}
      → Reach n v s
      → Counts s.system.lock.read_count_write_lock_flag
          (tally reads n s.system.pc)
          (tally owns n s.system.pc)
          (tally writes n s.system.pc)
  counts r = Reach-Inv few (project r)

  -- A writer excludes all others.
  others-out :
      {s : State T} (i j : ℕ)
      → Reach n v s
      → i < n
      → j < n
      → s.system.pc i ≡ writing
      → i ≢ j
      → holds (s.system.pc j) ≡ 0
  others-out {s} i j r lt lt' here ne =
      let inv = counts r in
      let own : 0 < owns (s.system.pc i) = omega (arith, ap owns here) in
      let put : 0 < writes (s.system.pc i) = omega (arith, ap writes here) in
      holds-none (s.system.pc j)
        (ground (
          arith,
          inv.alone,
          le-tally writes n s.system.pc i lt,
          le-tally reads n s.system.pc j lt',
        ))
        (elim (dec_lt 0 (owns (s.system.pc j))) [
          | yes also ↦
              absurd (ne (tally_unique owns n s.system.pc i j inv.one_owner lt lt' own also))
          | no none_there ↦ omega arith
        ])

  Kind-Known :
      {s : State T} {p' : Pc} {e : Effect} (i : ℕ)
      → Reach n v s
      → i < n
      → Kind s.system.lock.read_count_write_lock_flag (s.system.pc i) p' e
      → Known n s.system.pc s.clocks
      → Known n (go_to s.system.pc i p') (happen e i s.clocks)
  unfolding happen
  Kind-Known {p' = p'} i r lt (waits a b c) known = waits-Known p' i lt known a b c
  Kind-Known {s} {p' = p'} i r lt (gains clear out) known =
      let inv = counts r in
      gains-Known p' i lt known
        (omega (arith, inv.counted, inv.few, inv.one_owner, inv.within, clear))
        (holds-guards (s.system.pc i) out)
  Kind-Known {p' = p'} i r lt (drops guard out) known = drops-Known p' i lt known guard out
  Kind-Known {p' = p'} i r lt (puts here there) known =
      puts-Known p' i lt known here there (λ j ne lt'. others-out i j r lt lt' here ne)

  pub Reach-Known : {s : State T} → Reach n v s → Known n s.system.pc s.clocks
  Reach-Known start = record {
    free = λ _ k lt. omega arith;
    held = λ i lt h. absurd (omega arith);
    own = λ i lt. omega arith;
    dropped = λ i lt h. omega arith;
  }
  Reach-Known (later r (move i lt mv)) = Kind-Known i r lt (Move-Kind mv) (Reach-Known r)
  Reach-Known (later {s} r (deref i lt guard)) =
      reads-Known (s.system.pc i) i lt (Reach-Known r) (IsGuard-guards (s.system.pc i) guard)
