-- ===== src/Mutex/SpinLock/Orderings/Seen.antt =====
-- A thread with a guard of `SpinLock` of mutex/src/lib.rs knows what the others did with the data.
use rpi5_baremetal.Base.{ℕ, suc, ◌<◌, ◌≡◌, ◌≢◌, inl, inr, refl, sym, ap, Bool, false, arith, dec_lt}
use mathlib.Core.Path.{subst}
use rpi5_baremetal.Mutex.Threads.{go_to, go_to-all, go_to-both, tally, tally-go_to, le-tally}
use rpi5_baremetal.Mutex.Clocks.{
  View, join, Clocks, Effect, relaxed, acquire, release_store, read_data, write_data, happen,
  KnowsWrites, KnowsReads, join-KnowsWrites, join-KnowsReads, counted_up-le,
}
use rpi5_baremetal.Mutex.SpinLock.{
  SpinLock, Pc, guarded, lock_round, Move, call_lock, spin, write, release, pick,
}
use rpi5_baremetal.Mutex.SpinLock
use rpi5_baremetal.Mutex.SpinLock.Exclusion.{
  holds, flag, lock_round-cases, Reach-Inv, holds_pos, mutual_exclusion,
}
use rpi5_baremetal.Mutex.SpinLock.Orderings.{
  ordering, on_success, State, move, deref, Reach, start, later,
}

abbrev pub KnowsAll : ℕ → View → View → Type 0
KnowsAll n made v = KnowsWrites n made v × KnowsReads n made v

-- What a move from the point `p` to the point `p'` does, at a flag.
data Kind (locked : Bool) (p p' : Pc) : Effect → Type 0 where
  waits : holds p ≡ 0 → holds p' ≡ 0 → Kind locked p p' relaxed
  gains : locked ≡ false → holds p ≡ 0 → Kind locked p p' acquire
  drops : holds p ≡ 1 → holds p' ≡ 0 → Kind locked p p' release_store
  puts : holds p ≡ 1 → holds p' ≡ 1 → Kind locked p p' write_data

Move-Kind :
    {T : Type 0} {l l' : SpinLock T} {p p' : Pc} (mv : Move l p l' p')
    → Kind l.locked p p' (ordering mv)
unfolding ordering
Move-Kind call_lock = waits refl refl
Move-Kind {l} {p = p} (spin spurious) = elim (lock_round-cases spurious l) [
  | inl (free, got) ↦ subst (λ x. Kind l.locked p x.1 (on_success x.1)) (sym got) (gains free refl)
  | inr again ↦ subst (λ x. Kind l.locked p x.1 (on_success x.1)) (sym again) (waits refl refl)
]
Move-Kind (write v) = puts refl refl
Move-Kind release = drops refl refl

-- The flag knows all accesses while it is clear, and so does the thread that has set it.
record Known (n : ℕ) (pc : ℕ → Pc) (c : Clocks) : Type 0 where
  free : tally holds n pc ≡ 0 → KnowsAll n c.made c.released
  held : (i : ℕ) → i < n → holds (pc i) ≡ 1 → KnowsAll n c.made (c.views i)

module _ {n : ℕ} {pc : ℕ → Pc} {c : Clocks} (p' : Pc) (i : ℕ) (lt : i < n)
    (known : Known n pc c) where
  waits-Known : holds (pc i) ≡ 0 → holds p' ≡ 0 → Known n (go_to pc i p') c
  waits-Known out still = record {
    free = λ none_holds. known.free (omega (arith, tally-go_to holds n pc i p' lt));
    held =
        go_to-all (λ j q. j < n → holds q ≡ 1 → KnowsAll n c.made (c.views j)) pc i p'
          (λ lt' h. absurd (omega (arith, still, h))) (λ j ne. known.held j);
  }

  gains-Known : tally holds n pc ≡ 0 → Known n (go_to pc i p') (happen acquire i c)
  unfolding happen
  gains-Known none_holds =
      let all = known.free none_holds in
      let v = join (c.views i) c.released in
      record {
        free = λ _. all;
        held =
            go_to-both (λ j q u. j < n → holds q ≡ 1 → KnowsAll n c.made u) pc c.views i p' v
              (λ lt' h. (
                join-KnowsWrites n c.made (c.views i) c.released all.0,
                join-KnowsReads n c.made (c.views i) c.released all.1,
              ))
              (λ j ne. known.held j);
      }

  drops-Known : holds (pc i) ≡ 1 → holds p' ≡ 0 → Known n (go_to pc i p') (happen release_store i c)
  unfolding happen
  drops-Known guard out = record {
    free = λ _. known.held i lt guard;
    held =
        go_to-all (λ j q. j < n → holds q ≡ 1 → KnowsAll n c.made (c.views j)) pc i p'
          (λ lt' h. absurd (omega (arith, out, h))) (λ j ne. known.held j);
  }

  -- The thread has the only guard.
  module _ (guard : holds (pc i) ≡ 1) (alone : (j : ℕ) → i ≢ j → j < n → holds (pc j) ≡ 0) where
    puts-Known : holds p' ≡ 1 → Known n (go_to pc i p') (happen write_data i c)
    unfolding happen
    puts-Known still =
        let w : ℕ = suc (c.made.writes i) in
        let made : View = record { reads = c.made.reads; writes = go_to c.made.writes i w } in
        let v : View = record {
          reads = (c.views i).reads;
          writes = go_to (c.views i).writes i w;
        } in
        let all = known.held i lt guard in
        record {
          free = λ none_holds.
              absurd (omega (arith, tally-go_to holds n pc i p' lt, le-tally holds n pc i lt));
          held =
              go_to-both (λ j q u. j < n → holds q ≡ 1 → KnowsAll n made u) pc c.views i p' v
                (λ lt' h. (counted_up-le n c.made.writes (c.views i).writes i w all.0, all.1))
                (λ j ne lt' h. absurd (omega (arith, alone j ne lt', h)));
        }

    reads-Known : Known n pc (happen read_data i c)
    unfolding happen
    reads-Known =
        let r : ℕ = suc (c.made.reads i) in
        let made : View = record { reads = go_to c.made.reads i r; writes = c.made.writes } in
        let v : View = record {
          reads = go_to (c.views i).reads i r;
          writes = (c.views i).writes;
        } in
        let all = known.held i lt guard in
        record {
          free = λ none_holds. absurd (omega (arith, le-tally holds n pc i lt));
          held =
              go_to-all (λ j u. j < n → holds (pc j) ≡ 1 → KnowsAll n made u) c.views i v
                (λ lt' h. (all.0, counted_up-le n c.made.reads (c.views i).reads i r all.1))
                (λ j ne lt' h. absurd (omega (arith, alone j ne lt', h)));
        }

project : {T : Type 0} {n : ℕ} {v : T} {s : State T} → Reach n v s → SpinLock.Reach n v s.system
project start = SpinLock.start
project (later r (move i lt mv)) = SpinLock.later (project r) (pick i lt mv)
project (later r (deref i lt guard)) = project r

module _ {T : Type 0} {n : ℕ} {v : T} where
  others-out :
      {s : State T} (i j : ℕ)
      → Reach n v s
      → i < n
      → j < n
      → holds (s.system.pc i) ≡ 1
      → i ≢ j
      → holds (s.system.pc j) ≡ 0
  others-out {s} i j r lt lt' here ne = elim (dec_lt 0 (holds (s.system.pc j))) [
    | yes there ↦ absurd (
        ne (
          mutual_exclusion (project r) i j lt lt' (holds_pos (s.system.pc i) (omega arith))
            (holds_pos (s.system.pc j) there)))
    | no out ↦ omega arith
  ]

  Kind-Known :
      {s : State T} {p' : Pc} {e : Effect} (i : ℕ)
      → Reach n v s
      → i < n
      → Kind s.system.lock.locked (s.system.pc i) p' e
      → Known n s.system.pc s.clocks
      → Known n (go_to s.system.pc i p') (happen e i s.clocks)
  unfolding happen
  Kind-Known {p' = p'} i r lt (waits out still) known = waits-Known p' i lt known out still
  Kind-Known {s} {p' = p'} i r lt (gains clear out) known =
      gains-Known p' i lt known (omega (arith, (Reach-Inv (project r)).counted, ap flag clear))
  Kind-Known {p' = p'} i r lt (drops guard out) known = drops-Known p' i lt known guard out
  Kind-Known {p' = p'} i r lt (puts guard still) known =
      puts-Known p' i lt known guard (λ j ne lt'. others-out i j r lt lt' guard ne) still

  Reach-Known : {s : State T} → Reach n v s → Known n s.system.pc s.clocks
  Reach-Known start = record {
    free = λ _. (λ k lt. omega arith, λ k lt. omega arith);
    held = λ i lt h. absurd (omega arith);
  }
  Reach-Known (later r (move i lt mv)) = Kind-Known i r lt (Move-Kind mv) (Reach-Known r)
  Reach-Known (later {s} r (deref i lt guard)) =
      reads-Known (s.system.pc i) i lt (Reach-Known r) (ap holds guard)
        (λ j ne lt'. others-out i j r lt lt' (ap holds guard) ne)

  -- In every state that the threads reach, each read and each write of the data that any of them has
  -- made happens before whatever a thread with a guard does next.
  pub guarded-KnowsAll :
      {s : State T}
      → Reach n v s
      → (i : ℕ) → i < n
      → s.system.pc i ≡ guarded
      → KnowsAll n s.clocks.made (s.clocks.views i)
  guarded-KnowsAll r i lt guard = (Reach-Known r).held i lt (ap holds guard)
