-- ===== src/Mutex/RwLock/Counting.antt =====
-- `rw_lock_data` of mutex/src/lib.rs: threads that compare the data behind a `RWLock` with 0, under two
-- read guards, and threads that add one to it, each a number of times.
pub mod Invariant
pub mod Total
pub mod Deadlock
pub mod Turns
pub mod Completion
use rpi5_baremetal.Base.{
  ℕ, zero, suc, ◌+◌, ◌%◌, ◌^◌, ◌<◌, ◌==◌, Bool, Option, none, some, List, [], ◌∷◌,
}
use rpi5_baremetal.Mutex.Threads.{go_to}
use rpi5_baremetal.Mutex.RwLock.{
  RwLock, Pc, outside, read_load, reading, write_load, draining, writing, new, read_round,
  write_round, drain_round, drop_read, drop_write, deref_mut,
}

-- Where a thread is. A reader loads the word, tries to exchange it, and does both again for the guard
-- that it takes through the first one; it compares the data, and drops the guards, the second one
-- first, whether the comparison has passed or not. A writer has the rounds of its loop that it has
-- behind this one.
pub data Point : Type 0 where
  first_load : Point
  first_exchange : (n : ℕ) → Point
  second_load : Point
  second_exchange : (n : ℕ) → Point
  compare : Point
  drop_second : (passed : Bool) → Point
  drop_first : (passed : Bool) → Point
  finished : (passed : Bool) → Point
  next : (rounds : ℕ) → Point
  load_word : (rounds : ℕ) → Point
  exchange : (rounds n : ℕ) → Point
  drain : (rounds : ℕ) → Point
  load : (rounds : ℕ) → Point
  store : (rounds value : ℕ) → Point
  drop_guard : (rounds : ℕ) → Point

-- Where a round of `read` leads to, with a guard and without.
abbrev pub behind_read : Pc → Point → Point → Point
behind_read reading got again = got
behind_read _ got again = again

-- Where a round of `write` leads to, and one of the loop that waits for the readers.
abbrev pub behind_write : Pc → ℕ → Point
behind_write writing n = load n
behind_write draining n = drain n
behind_write _ n = load_word n

-- The next step of a thread; an exchange may fail spuriously. `*data += 1` loads and stores.
unfoldable pub advance : (spurious : Bool) → RwLock ℕ → Point → RwLock ℕ × Point
unfolding read_round write_round drain_round drop_read drop_write deref_mut
advance spurious l first_load = (l, first_exchange l.read_count_write_lock_flag)
advance spurious l (first_exchange n) =
    let (l', pc) = read_round spurious n l in (l', behind_read pc second_load first_load)
advance spurious l second_load = (l, second_exchange l.read_count_write_lock_flag)
advance spurious l (second_exchange n) =
    let (l', pc) = read_round spurious n l in (l', behind_read pc compare second_load)
advance spurious l compare = (l, drop_second (l.value == 0))
advance spurious l (drop_second b) = (drop_read l, drop_first b)
advance spurious l (drop_first b) = (drop_read l, finished b)
advance spurious l (finished b) = (l, finished b)
advance spurious l (next zero) = (l, next zero)
advance spurious l (next (suc k)) = (l, load_word k)
advance spurious l (load_word k) = (l, exchange k l.read_count_write_lock_flag)
advance spurious l (exchange k n) =
    let (l', pc) = write_round spurious n l in (l', behind_write pc k)
advance spurious l (drain k) = (l, behind_write (drain_round l) k)
advance spurious l (load k) = (l, store k l.value)
advance spurious l (store k v) = (deref_mut ((v + 1) % 2 ^ 64) l, drop_guard k)
advance spurious l (drop_guard k) = (drop_write l, next k)

pub record System : Type 0 where
  pub lock : RwLock ℕ
  pub points : ℕ → Point

pub data Step (n : ℕ) (s : System) : System → Type 0 where
  go_on :
      (i : ℕ) (spurious : Bool)
      → i < n
      → Step n s (record {
        lock = (advance spurious s.lock (s.points i)).0;
        points = go_to s.points i (advance spurious s.lock (s.points i)).1;
      })

-- Where a thread begins: one that reads, or one that writes, with its rounds. One that cannot set its
-- affinity is as one with no rounds.
abbrev pub begin : Option ℕ → Point
begin none = first_load
begin (some rounds) = next rounds

-- The states that `n` threads reach.
pub data Reach (n : ℕ) (kinds : ℕ → Option ℕ) : System → Type 0 where
  start : Reach n kinds (record { lock = new 0; points = λ i. begin (kinds i) })
  later : {s t : System} → Reach n kinds s → Step n s t → Reach n kinds t
