-- ===== src/Mutex/RwLock/Counting/Invariant.antt =====
-- The word of the lock of `rw_lock_data` of mutex/src/lib.rs, counted against its threads.
use rpi5_baremetal.Base.{ℕ, zero, suc, ◌+◌, ◌*◌, ◌^◌, ◌≤◌, ◌<◌, ◌≡◌, inr, Bool, Option, arith}
use rpi5_baremetal.Mutex.Threads.{
  go_to, tally, tally-go_to, le-tally, tally-zero, tally-le_mul, tally_mono,
}
use rpi5_baremetal.Mutex.RwLock.{
  RwLock, read_round, write_round, drain_round, drop_read, drop_write, deref_mut,
}
use rpi5_baremetal.Mutex.RwLock.Invariant.{Counts}
use rpi5_baremetal.Mutex.RwLock.Counting.{
  Point, first_load, first_exchange, second_load, second_exchange, compare, drop_second, drop_first,
  finished, next, load_word, exchange, drain, load, store, drop_guard, advance, System, Step, go_on,
  begin, Reach, start, later,
}

-- Read guards: a reader has two at most.
abbrev pub reads : Point → ℕ
reads second_load = 1
reads (second_exchange n) = 1
reads compare = 2
reads (drop_second b) = 2
reads (drop_first b) = 1
reads _ = 0

-- Threads that own the write flag.
abbrev pub owns : Point → ℕ
owns (drain k) = 1
owns (load k) = 1
owns (store k v) = 1
owns (drop_guard k) = 1
owns _ = 0

-- Write guards.
abbrev pub writes : Point → ℕ
writes (load k) = 1
writes (store k v) = 1
writes (drop_guard k) = 1
writes _ = 0

-- A thread that goes from the point `p` to the point `p'` changes the numbers.
pub record Change (p p' : Point) (r o w r' o' w' : ℕ) : Type 0 where
  pub r_moves : r' + reads p ≡ r + reads p'
  pub o_moves : o' + owns p ≡ o + owns p'
  pub w_moves : w' + writes p ≡ w + writes p'
  pub r_has : reads p ≤ r
  pub o_has : owns p ≤ o
  pub w_has : writes p ≤ w
  pub r_few : r' < 2 ^ 63
  pub w_within : w' ≤ o'

advance-Counts :
    (spurious : Bool) (l : RwLock ℕ) (p : Point) {r o w r' o' w' : ℕ}
    → Counts l.read_count_write_lock_flag r o w
    → Change p (advance spurious l p).1 r o w r' o' w'
    → Counts (advance spurious l p).0.read_count_write_lock_flag r' o' w'
unfolding advance read_round write_round drain_round drop_read drop_write deref_mut
advance-Counts spurious l first_load c d = omega arith
advance-Counts spurious l (first_exchange n) c d = ground arith
advance-Counts spurious l second_load c d = omega arith
advance-Counts spurious l (second_exchange n) c d = ground arith
advance-Counts spurious l compare c d = omega arith
advance-Counts spurious l (drop_second b) c d = omega arith
advance-Counts spurious l (drop_first b) c d = omega arith
advance-Counts spurious l (finished b) c d = omega arith
advance-Counts spurious l (next zero) c d = omega arith
advance-Counts spurious l (next (suc k)) c d = omega arith
advance-Counts spurious l (load_word k) c d = omega arith
advance-Counts spurious l (exchange k n) c d = ground arith
advance-Counts spurious l (drain k) c d = ground arith
advance-Counts spurious l (load k) c d = omega arith
advance-Counts spurious l (store k v) c d = omega arith
advance-Counts spurious l (drop_guard k) c d = omega arith

abbrev pub Inv : ℕ → System → Type 0
Inv n s =
    Counts s.lock.read_count_write_lock_flag (tally reads n s.points) (tally owns n s.points)
      (tally writes n s.points)

change :
    (n : ℕ) (points : ℕ → Point) (i : ℕ) (p : Point)
    → 2 * n < 2 ^ 63
    → i < n
    → Change
        (points i)
        p
        (tally reads n points)
        (tally owns n points)
        (tally writes n points)
        (tally reads n (go_to points i p))
        (tally owns n (go_to points i p))
        (tally writes n (go_to points i p))
change n points i p few lt = record {
  r_moves = tally-go_to reads n points i p lt;
  o_moves = tally-go_to owns n points i p lt;
  w_moves = tally-go_to writes n points i p lt;
  r_has = le-tally reads n points i lt;
  o_has = le-tally owns n points i lt;
  w_has = le-tally writes n points i lt;
  r_few = omega (arith, few, tally-le_mul reads 2 (λ q. ground arith) n (go_to points i p));
  w_within = tally_mono writes owns n (go_to points i p) (λ q. ground arith);
}

pub Step-Inv : {n : ℕ} {s t : System} → 2 * n < 2 ^ 63 → Step n s t → Inv n s → Inv n t
Step-Inv {n} {s} few (go_on i spurious lt) inv =
    advance-Counts spurious s.lock (s.points i) inv
      (change n s.points i (advance spurious s.lock (s.points i)).1 few lt)

none_in :
    (n : ℕ) (kinds : ℕ → Option ℕ) (w : Point → ℕ)
    → ((k : Option ℕ) → w (begin k) ≡ 0)
    → tally w n (λ i. begin (kinds i)) ≡ 0
none_in n kinds w zero_in = tally-zero w n _ (λ i. zero_in (kinds i))

module _ {n : ℕ} {kinds : ℕ → Option ℕ} where
  -- In every state that fewer than 2 ^ 62 threads reach, the low bits of the word count the read
  -- guards, its top bit says whether a writer has the write flag, one at most has it, and while there
  -- is a write guard there is no read guard.
  pub Reach-Inv : {s : System} → 2 * n < 2 ^ 63 → Reach n kinds s → Inv n s
  Reach-Inv few start =
      let r = none_in n kinds reads (λ k. ground arith) in
      let o = none_in n kinds owns (λ k. ground arith) in
      let w = none_in n kinds writes (λ k. ground arith) in
      record {
        counted = omega (arith, r, o);
        one_owner = omega (arith, o);
        few = omega (arith, r);
        within = omega (arith, w, o);
        alone = inr r;
      }
  Reach-Inv few (later r st) = Step-Inv few st (Reach-Inv few r)
