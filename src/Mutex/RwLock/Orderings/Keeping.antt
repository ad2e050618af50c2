-- ===== src/Mutex/RwLock/Orderings/Keeping.antt =====
-- What each kind of move over `RWLock` of mutex/src/lib.rs keeps of what the threads know.
use rpi5_baremetal.Base.{ℕ, suc, ◌≤◌, ◌<◌, ◌≡◌, ◌≢◌, ap, arith}
use rpi5_baremetal.Mutex.Threads.{
  go_to, go_to_same, go_to-all, go_to-both, tally, tally-go_to, le-tally,
}
use rpi5_baremetal.Mutex.Clocks.{
  KnowsWrites, le-later_of, join-KnowsWrites, counted_up-le, View, join, Clocks, acquire, release,
  read_data, write_data, happen,
}
use rpi5_baremetal.Mutex.RwLock.{Pc, writing}
use rpi5_baremetal.Mutex.RwLock.Invariant.{writes}
use rpi5_baremetal.Mutex.RwLock.Orderings.Kinds.{holds, guards}

-- The word knows the writes while no thread writes, and so does a thread that has a guard or the flag.
-- A thread knows its reads, and the word knows those of a thread that has dropped its guard.
pub record Known (n : ℕ) (pc : ℕ → Pc) (c : Clocks) : Type 0 where
  pub free : tally writes n pc ≡ 0 → KnowsWrites n c.made c.released
  pub held : (i : ℕ) → i < n → holds (pc i) ≡ 1 → KnowsWrites n c.made (c.views i)
  pub own : (i : ℕ) → i < n → c.made.reads i ≤ (c.views i).reads i
  pub dropped : (i : ℕ) → i < n → guards (pc i) ≡ 0 → c.made.reads i ≤ c.released.reads i

pub guards-holds : (p : Pc) → guards p ≡ 1 → holds p ≡ 1
guards-holds p h = ground arith

guards-writes : (p : Pc) → guards p ≡ 0 → writes p ≡ 0
guards-writes p h = ground arith

module _ {n : ℕ} {pc : ℕ → Pc} {c : Clocks} (p' : Pc) (i : ℕ) (lt : i < n)
    (known : Known n pc c) where
  pub waits-Known :
      holds p' ≤ holds (pc i)
      → guards (pc i) ≤ guards p'
      → writes (pc i) ≤ writes p'
      → Known n (go_to pc i p') c
  waits-Known less_held more_guards more_writes = record {
    free = λ none_writes. known.free (omega (arith, tally-go_to writes n pc i p' lt));
    held =
        go_to-all (λ j q. j < n → holds q ≡ 1 → KnowsWrites n c.made (c.views j)) pc i p'
          (λ lt' h. known.held i lt' (ground (arith, less_held))) (λ j ne. known.held j);
    own = known.own;
    dropped =
        go_to-all (λ j q. j < n → guards q ≡ 0 → c.made.reads j ≤ c.released.reads j) pc i p'
          (λ lt' h. known.dropped i lt' (omega arith)) (λ j ne. known.dropped j);
  }

  pub gains-Known :
      tally writes n pc ≡ 0 → guards (pc i) ≡ 0 → Known n (go_to pc i p') (happen acquire i c)
  unfolding happen
  gains-Known none_writes no_guard =
      let v = join (c.views i) c.released in
      record {
        free = λ _. known.free none_writes;
        held =
            go_to-both (λ j q u. j < n → holds q ≡ 1 → KnowsWrites n c.made u) pc c.views i p' v
              (λ lt' h. join-KnowsWrites n c.made (c.views i) c.released (known.free none_writes))
              (λ j ne. known.held j);
        own =
            go_to-all (λ j u. j < n → c.made.reads j ≤ u.reads j) c.views i v
              (λ lt'.
                omega (
                  arith,
                  known.own i lt,
                  (le-later_of ((c.views i).reads i) (c.released.reads i)).0,
                ))
              (λ j ne. known.own j);
        dropped =
            go_to-all (λ j q. j < n → guards q ≡ 0 → c.made.reads j ≤ c.released.reads j) pc i p'
              (λ lt' h. known.dropped i lt' no_guard) (λ j ne. known.dropped j);
      }

  pub drops-Known : guards (pc i) ≡ 1 → holds p' ≡ 0 → Known n (go_to pc i p') (happen release i c)
  unfolding happen
  drops-Known guard out =
      let r = join c.released (c.views i) in
      let more : (j : ℕ) → c.released.reads j ≤ r.reads j =
        λ j. (le-later_of (c.released.reads j) ((c.views i).reads j)).0 in
      record {
        free = λ _.
            join-KnowsWrites n c.made c.released (c.views i)
              (known.held i lt (guards-holds (pc i) guard));
        held =
            go_to-all (λ j q. j < n → holds q ≡ 1 → KnowsWrites n c.made (c.views j)) pc i p'
              (λ lt' h. absurd (omega (arith, out, h))) (λ j ne. known.held j);
        own = known.own;
        dropped =
            go_to-all (λ j q. j < n → guards q ≡ 0 → c.made.reads j ≤ r.reads j) pc i p'
              (λ lt' h.
                omega (
                  arith,
                  known.own i lt,
                  (le-later_of (c.released.reads i) ((c.views i).reads i)).1,
                ))
              (λ j ne lt' h. omega (arith, known.dropped j lt' h, more j));
      }

  -- The writer has the only guard.
  pub puts-Known :
      pc i ≡ writing
      → p' ≡ writing
      → ((j : ℕ) → i ≢ j → j < n → holds (pc j) ≡ 0)
      → Known n (go_to pc i p') (happen write_data i c)
  unfolding happen
  puts-Known here there others =
      let w : ℕ = suc (c.made.writes i) in
      let made : View = record { reads = c.made.reads; writes = go_to c.made.writes i w } in
      let v : View = record { reads = (c.views i).reads; writes = go_to (c.views i).writes i w } in
      let in_pc : writes (pc i) ≡ 1 = ap writes here in
      let in_p' : writes p' ≡ 1 = ap writes there in
      record {
        free = λ none_writes.
            absurd (omega (arith, tally-go_to writes n pc i p' lt, le-tally writes n pc i lt));
        held =
            go_to-both (λ j q u. j < n → holds q ≡ 1 → KnowsWrites n made u) pc c.views i p' v
              (λ lt' h.
                counted_up-le n c.made.writes (c.views i).writes i w
                  (known.held i lt (ap holds here)))
              (λ j ne lt' h. absurd (omega (arith, others j ne lt')));
        own =
            go_to-all (λ j u. j < n → c.made.reads j ≤ u.reads j) c.views i v (known.own i)
              (λ j ne. known.own j);
        dropped =
            go_to-all (λ j q. j < n → guards q ≡ 0 → c.made.reads j ≤ c.released.reads j) pc i p'
              (λ lt' h. absurd (omega (arith, guards-writes p' h))) (λ j ne. known.dropped j);
      }

  pub reads-Known : guards (pc i) ≡ 1 → Known n pc (happen read_data i c)
  unfolding happen
  reads-Known guard =
      let r : ℕ = suc (c.made.reads i) in
      let v : View = record { reads = go_to (c.views i).reads i r; writes = (c.views i).writes } in
      record {
        free = known.free;
        held =
            go_to-all (λ j u. j < n → holds (pc j) ≡ 1 → KnowsWrites n c.made u) c.views i v
              (known.held i) (λ j ne. known.held j);
        own =
            go_to-both (λ j a u. j < n → a ≤ u.reads j) c.made.reads c.views i r v
              (λ lt'. omega (arith, go_to_same (c.views i).reads i r)) (λ j ne. known.own j);
        dropped =
            go_to-all (λ j a. j < n → guards (pc j) ≡ 0 → a ≤ c.released.reads j) c.made.reads i r
              (λ lt' h. absurd (omega (arith, guard, h))) (λ j ne. known.dropped j);
      }
