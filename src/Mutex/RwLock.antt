-- ===== src/Mutex/RwLock.antt =====
-- `RWLock` of mutex/src/lib.rs: the word with the count of readers and the write flag, the data, and
-- what a thread does with them. The atomic operations take effect one after the other.
pub mod Invariant
pub mod Exclusion
pub mod Progress
pub mod Refinement
pub mod Completion
pub mod Reentry
pub mod Counting
pub mod Orderings
use rpi5_baremetal.Base.{
  ℕ, ◌+◌, ◌-◌, ◌/◌, ◌%◌, ◌^◌, ◌<◌, ◌==◌, Bool, true, false, not, ◌&&◌, if◌then◌else◌,
}
use rpi5_baremetal.Mutex.Threads.{go_to}

pub record RwLock (T : Type 0) : Type 0 where
  pub read_count_write_lock_flag : ℕ  -- AtomicUsize
  pub value : T

-- `1 << (usize::BITS - 1)`
abbrev pub write_flag : ℕ
write_flag = 2 ^ 63

-- `n & WRITE_FLAG != 0`
abbrev pub has_write_flag : ℕ → Bool
has_write_flag n = not (n / 2 ^ 63 % 2 == 0)

-- `n & !WRITE_FLAG`
abbrev pub readers : ℕ → ℕ
readers n = n % 2 ^ 63

-- `n | WRITE_FLAG`
abbrev pub with_write_flag : ℕ → ℕ
with_write_flag n = if has_write_flag n then n else n + write_flag

-- What a thread may do next: nothing with the lock; the head of the loop of `read` or of `write`; the
-- compare-exchange there, with the `n` that it has loaded; the use of a guard; and the inner loop of
-- `write`, which waits for the readers.
pub data Pc : Type 0 where
  outside : Pc
  read_load : Pc
  read_exchange : (n : ℕ) → Pc
  reading : Pc
  write_load : Pc
  write_exchange : (n : ℕ) → Pc
  draining : Pc
  writing : Pc

module _ {T : Type 0} where
  abbrev pub new : T → RwLock T
  new v = record { read_count_write_lock_flag = 0; value = v }

  -- `compare_exchange_weak(current, next, …)`, which may also fail where the word is the current one.
  unfoldable pub compare_exchange_weak : Bool → ℕ → ℕ → RwLock T → RwLock T × Bool
  compare_exchange_weak spurious current next l =
      if l.read_count_write_lock_flag == current && not spurious
      then (record l { read_count_write_lock_flag = next }, true)
      else (l, false)

  -- The rest of a round of `read`, behind the load of `n`.
  unfoldable pub read_round : Bool → ℕ → RwLock T → RwLock T × Pc
  unfolding compare_exchange_weak
  read_round spurious n l =
      if has_write_flag n
      then (l, read_load)
      else (let (l', success) = compare_exchange_weak spurious n (n + 1) l in
          if success then (l', reading) else (l', read_load))

  -- The rest of a round of `write`, behind the load of `n`: with readers left it goes on to wait.
  unfoldable pub write_round : Bool → ℕ → RwLock T → RwLock T × Pc
  unfolding compare_exchange_weak
  write_round spurious n l =
      if has_write_flag n
      then (l, write_load)
      else (let (l', success) = compare_exchange_weak spurious n (with_write_flag n) l in
          if success
          then if readers n == 0 then (l', writing) else (l', draining)
          else (l', write_load))

  -- A round of the inner `while` of `write`.
  unfoldable pub drain_round : RwLock T → Pc
  drain_round l = if readers l.read_count_write_lock_flag == 0 then writing else draining

  -- `drop` of a read guard: `fetch_sub(1)`, which wraps.
  unfoldable pub drop_read : RwLock T → RwLock T
  drop_read l = record l {
    read_count_write_lock_flag = (l.read_count_write_lock_flag + 2 ^ 64 - 1) % 2 ^ 64;
  }

  -- `drop` of a write guard: `fetch_and(!WRITE_FLAG)`.
  unfoldable pub drop_write : RwLock T → RwLock T
  drop_write l = record l { read_count_write_lock_flag = readers l.read_count_write_lock_flag }

  -- A write through `deref_mut`.
  unfoldable pub deref_mut : T → RwLock T → RwLock T
  deref_mut v l = record l { value = v }

  -- One step of one thread, with one access to the word at most. `deref` changes nothing.
  pub data Move (l : RwLock T) : Pc → RwLock T → Pc → Type 0 where
    call_read : Move l outside l read_load
    load_for_read : Move l read_load l (read_exchange l.read_count_write_lock_flag)
    try_read :
        (spurious : Bool) {n : ℕ}
        → Move l (read_exchange n) (read_round spurious n l).0 (read_round spurious n l).1
    release_read : Move l reading (drop_read l) outside
    call_write : Move l outside l write_load
    load_for_write : Move l write_load l (write_exchange l.read_count_write_lock_flag)
    try_write :
        (spurious : Bool) {n : ℕ}
        → Move l (write_exchange n) (write_round spurious n l).0 (write_round spurious n l).1
    drain : Move l draining l (drain_round l)
    write : (v : T) → Move l writing (deref_mut v l) writing
    release_write : Move l writing (drop_write l) outside

pub record System (T : Type 0) : Type 0 where
  pub lock : RwLock T
  pub pc : ℕ → Pc

pub data Step {T : Type 0} (n : ℕ) (s : System T) : System T → Type 0 where
  pick :
      (i : ℕ) {l : RwLock T} {p : Pc}
      → i < n
      → Move s.lock (s.pc i) l p
      → Step n s (record { lock = l; pc = go_to s.pc i p })

-- The states that `n` threads reach from a new lock.
pub data Reach {T : Type 0} (n : ℕ) (v : T) : System T → Type 0 where
  start : Reach n v (record { lock = new v; pc = λ _. outside })
  later : {s t : System T} → Reach n v s → Step n s t → Reach n v t
