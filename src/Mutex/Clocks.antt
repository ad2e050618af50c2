-- ===== src/Mutex/Clocks.antt =====
-- What threads know of one another's accesses to the data behind a lock of mutex/src/lib.rs, through
-- the orderings of the accesses to its word.
use rpi5_baremetal.Base.{ℕ, suc, ◌≤◌, ◌<◌, arith, ltb, if◌then◌else◌}
use rpi5_baremetal.Mutex.Threads.{go_to, go_to-both}

-- How many reads and writes of the data each thread has made, of those that are meant.
pub record View : Type 0 where
  pub reads : ℕ → ℕ
  pub writes : ℕ → ℕ

abbrev pub later_of : ℕ → ℕ → ℕ
later_of a b = if ltb a b then b else a

-- What is known from both.
abbrev pub join : View → View → View
join u v = record {
  reads = λ k. later_of (u.reads k) (v.reads k);
  writes = λ k. later_of (u.writes k) (v.writes k);
}

-- The accesses that happen before what a thread does next, for each thread; those that happen before
-- what follows an acquiring access to the word; and all that were made.
pub record Clocks : Type 0 where
  pub views : ℕ → View
  pub released : View
  pub made : View

-- What a step does with the word, by its ordering, and with the data.
pub data Effect : Type 0 where
  relaxed : Effect
  acquire : Effect
  release : Effect
  release_store : Effect
  read_data : Effect
  write_data : Effect

-- An exchange that acquires leaves the word in the sequence of the release before it, and so does a
-- `fetch_sub` or a `fetch_and` that releases; a store begins a new one.
unfoldable pub happen : Effect → ℕ → Clocks → Clocks
happen relaxed i c = c
happen acquire i c = record c { views = go_to c.views i (join (c.views i) c.released) }
happen release i c = record c { released = join c.released (c.views i) }
happen release_store i c = record c { released = c.views i }
happen read_data i c = record {
  views = go_to c.views i (record {
    reads = go_to (c.views i).reads i (suc (c.made.reads i));
    writes = (c.views i).writes;
  });
  released = c.released;
  made = record { reads = go_to c.made.reads i (suc (c.made.reads i)); writes = c.made.writes };
}
happen write_data i c = record {
  views = go_to c.views i (record {
    reads = (c.views i).reads;
    writes = go_to (c.views i).writes i (suc (c.made.writes i));
  });
  released = c.released;
  made = record { reads = c.made.reads; writes = go_to c.made.writes i (suc (c.made.writes i)) };
}

abbrev pub nothing_made : View
nothing_made = record { reads = λ k. 0; writes = λ k. 0 }

abbrev pub at_start : Clocks
at_start = record { views = λ i. nothing_made; released = nothing_made; made = nothing_made }

-- Every write that the threads have made is known, and every read.
abbrev pub KnowsWrites : ℕ → View → View → Type 0
KnowsWrites n made v = (k : ℕ) → k < n → made.writes k ≤ v.writes k

abbrev pub KnowsReads : ℕ → View → View → Type 0
KnowsReads n made v = (k : ℕ) → k < n → made.reads k ≤ v.reads k

pub le-later_of : (a b : ℕ) → (a ≤ later_of a b) × (b ≤ later_of a b)
le-later_of a b = ground arith

pub join-KnowsWrites :
    (n : ℕ) (made u v : View) → KnowsWrites n made v → KnowsWrites n made (join u v)
join-KnowsWrites n made u v known k lt =
    omega (arith, known k lt, (le-later_of (u.writes k) (v.writes k)).1)

pub join-KnowsReads : (n : ℕ) (made u v : View) → KnowsReads n made v → KnowsReads n made (join u v)
join-KnowsReads n made u v known k lt =
    omega (arith, known k lt, (le-later_of (u.reads k) (v.reads k)).1)

-- What is known stays so when thread `i` makes one more access, of its own.
pub counted_up-le :
    (n : ℕ) (made known : ℕ → ℕ) (i r : ℕ)
    → ((k : ℕ) → k < n → made k ≤ known k)
    → (k : ℕ) → k < n
    → go_to made i r k ≤ go_to known i r k
counted_up-le n made known i r le =
    go_to-both (λ k a b. k < n → a ≤ b) made known i r r (λ lt. omega arith) (λ k ne. le k)
