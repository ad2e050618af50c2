-- ===== src/Mutex/RwLock/Invariant.antt =====
-- The word of `RWLock` of mutex/src/lib.rs, counted against the threads, in the states they reach.
use rpi5_baremetal.Base.{ℕ, ◌+◌, ◌*◌, ◌^◌, ◌≤◌, ◌<◌, ◌≡◌, ◌⊎◌, inr, refl, arith}
use rpi5_baremetal.Mutex.Threads.{
  go_to, tally, tally-go_to, le-tally, tally-le, tally-zero, tally_mono,
}
use rpi5_baremetal.Mutex.RwLock.{
  RwLock, Pc, outside, reading, draining, writing, read_round, write_round, drain_round, drop_read,
  drop_write, deref_mut, Move, call_read, load_for_read, try_read, release_read, call_write,
  load_for_write, try_write, drain, write, release_write, System, Step, pick, Reach, start, later,
}

-- Read guards, threads that own the write flag, and write guards.
abbrev pub reads : Pc → ℕ
reads reading = 1
reads _ = 0

abbrev pub owns : Pc → ℕ
owns draining = 1
owns writing = 1
owns _ = 0

abbrev pub writes : Pc → ℕ
writes writing = 1
writes _ = 0

-- What the word says of the numbers of read guards, of owners of the flag and of write guards.
pub record Counts (word r o w : ℕ) : Type 0 where
  pub counted : word ≡ o * 2 ^ 63 + r
  pub one_owner : o ≤ 1
  pub few : r < 2 ^ 63
  pub within : w ≤ o
  pub alone : (w ≡ 0) ⊎ (r ≡ 0)

-- A thread that goes from the point `p` to the point `p'` changes the numbers.
pub record Change (p p' : Pc) (r o w r' o' w' : ℕ) : Type 0 where
  pub r_moves : r' + reads p ≡ r + reads p'
  pub o_moves : o' + owns p ≡ o + owns p'
  pub w_moves : w' + writes p ≡ w + writes p'
  pub r_has : reads p ≤ r
  pub o_has : owns p ≤ o
  pub w_has : writes p ≤ w
  pub r_few : r' < 2 ^ 63
  pub w_within : w' ≤ o'

reads-le : (n : ℕ) (pc : ℕ → Pc) → tally reads n pc ≤ n
reads-le = tally-le reads (λ p. ground arith)

pub change :
    (n : ℕ) (pc : ℕ → Pc) (i : ℕ) (p : Pc)
    → n < 2 ^ 63
    → i < n
    → Change
        (pc i)
        p
        (tally reads n pc)
        (tally owns n pc)
        (tally writes n pc)
        (tally reads n (go_to pc i p))
        (tally owns n (go_to pc i p))
        (tally writes n (go_to pc i p))
change n pc i p few lt = record {
  r_moves = tally-go_to reads n pc i p lt;
  o_moves = tally-go_to owns n pc i p lt;
  w_moves = tally-go_to writes n pc i p lt;
  r_has = le-tally reads n pc i lt;
  o_has = le-tally owns n pc i lt;
  w_has = le-tally writes n pc i lt;
  r_few = omega (arith, reads-le n (go_to pc i p));
  w_within = tally_mono writes owns n (go_to pc i p) (λ q. ground arith);
}

module _ {T : Type 0} where
  Move-Counts :
      {l l' : RwLock T} {p p' : Pc} {r o w r' o' w' : ℕ}
      → Move l p l' p'
      → Counts l.read_count_write_lock_flag r o w
      → Change p p' r o w r' o' w'
      → Counts l'.read_count_write_lock_flag r' o' w'
  unfolding read_round write_round drain_round drop_read drop_write deref_mut
  Move-Counts call_read c d = omega arith
  Move-Counts load_for_read c d = omega arith
  Move-Counts (try_read spurious) c d = ground arith
  Move-Counts release_read c d = omega arith
  Move-Counts call_write c d = omega arith
  Move-Counts load_for_write c d = omega arith
  Move-Counts (try_write spurious) c d = ground arith
  Move-Counts drain c d = ground arith
  Move-Counts (write v) c d = omega arith
  Move-Counts release_write c d = omega arith

  abbrev pub Inv : ℕ → System T → Type 0
  Inv n s =
      Counts s.lock.read_count_write_lock_flag (tally reads n s.pc) (tally owns n s.pc)
        (tally writes n s.pc)

  Step-Inv : {n : ℕ} {s t : System T} → n < 2 ^ 63 → Step n s t → Inv n s → Inv n t
  Step-Inv {n} {s} few (pick i {p = p} lt mv) inv = Move-Counts mv inv (change n s.pc i p few lt)

  -- In every state that fewer than 2 ^ 63 threads reach, the low bits of the word count the read
  -- guards, its top bit says whether a thread owns the write flag, one thread at most owns it, and
  -- while there is a write guard there is no read guard.
  pub Reach-Inv : {n : ℕ} {v : T} {s : System T} → n < 2 ^ 63 → Reach n v s → Inv n s
  Reach-Inv {n} few start = record {
    counted = omega (
      arith,
      tally-zero reads n (λ _. outside) (λ _. refl),
      tally-zero owns n (λ _. outside) (λ _. refl),
    );
    one_owner = omega (arith, tally-zero owns n (λ _. outside) (λ _. refl));
    few = omega (arith, tally-zero reads n (λ _. outside) (λ _. refl));
    within = omega (arith, tally-zero writes n (λ _. outside) (λ _. refl));
    alone = inr (tally-zero reads n (λ _. outside) (λ _. refl));
  }
  Reach-Inv few (later r st) = Step-Inv few st (Reach-Inv few r)
