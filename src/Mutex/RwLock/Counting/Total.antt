-- ===== src/Mutex/RwLock/Counting/Total.antt =====
-- What the writers of `rw_lock_data` of mutex/src/lib.rs have counted when the threads are done.
use rpi5_baremetal.Base.{
  ℕ, zero, suc, ◌+◌, ◌*◌, ◌^◌, ◌<◌, ◌≡◌, ◌≢◌, ◌⊎◌, inl, inr, refl, sym, Bool, Option, none, some,
  arith, dec_lt,
}
use mathlib.Core.Path.{subst}
use rpi5_baremetal.Mutex.Threads.{go_to-all, tally, tally-go_to, le-tally, tally_unique, tally-pos}
use rpi5_baremetal.Mutex.RwLock.{RwLock, read_round, write_round, drop_read, drop_write, deref_mut}
use rpi5_baremetal.Mutex.RwLock.Counting.{
  Point, first_load, first_exchange, second_load, second_exchange, compare, drop_second, drop_first,
  finished, next, load_word, exchange, drain, load, store, drop_guard, advance, System, Step, go_on,
  begin, Reach, start, later,
}
use rpi5_baremetal.Mutex.RwLock.Counting.Invariant.{writes, Reach-Inv}

-- How often the thread will add one.
abbrev pub to_add : Point → ℕ
to_add (next k) = k
to_add (load_word k) = suc k
to_add (exchange k n) = suc k
to_add (drain k) = suc k
to_add (load k) = suc k
to_add (store k v) = suc k
to_add (drop_guard k) = k
to_add _ = 0

-- The value that a thread has loaded, or else that of the data.
abbrev seen : ℕ → Point → ℕ
seen value (store k v) = v
seen value _ = value

-- What a step does to the data, against the additions to come.
record Turn (l : RwLock ℕ) (p : Point) (l' : RwLock ℕ) (p' : Point) : Type 0 where
  added : l'.value + to_add p' ≡ l.value + to_add p
  loaded : seen l'.value p' ≡ l'.value
  kept : (writes p ≡ 1) ⊎ (l'.value ≡ l.value)

read_round-value :
    (spurious : Bool) (n : ℕ) (l : RwLock ℕ) → (read_round spurious n l).0.value ≡ l.value
unfolding read_round
read_round-value spurious n l = ground arith

write_round-value :
    (spurious : Bool) (n : ℕ) (l : RwLock ℕ) → (write_round spurious n l).0.value ≡ l.value
unfolding write_round
write_round-value spurious n l = ground arith

-- A round of `read` or of `write`, whether it gives a guard or not.
round-Turn :
    (l l' : RwLock ℕ) (p p' : Point)
    → l'.value ≡ l.value
    → to_add p' ≡ to_add p
    → ((v : ℕ) → seen v p' ≡ v)
    → Turn l p l' p'
round-Turn l l' p p' same adds sees = record {
  added = omega (arith, same, adds);
  loaded = sees l'.value;
  kept = inr same;
}

advance-Turn :
    (spurious : Bool) (l : RwLock ℕ) (p : Point)
    → seen l.value p ≡ l.value
    → l.value + to_add p < 2 ^ 64
    → Turn l p (advance spurious l p).0 (advance spurious l p).1
unfolding advance drop_read drop_write deref_mut
advance-Turn spurious l first_load sees fits = round-Turn _ _ _ _ refl refl (λ v. refl)
advance-Turn spurious l (first_exchange n) sees fits =
    round-Turn _ _ _ _ (read_round-value spurious n l) (ground arith) (λ v. ground arith)
advance-Turn spurious l second_load sees fits = round-Turn _ _ _ _ refl refl (λ v. refl)
advance-Turn spurious l (second_exchange n) sees fits =
    round-Turn _ _ _ _ (read_round-value spurious n l) (ground arith) (λ v. ground arith)
advance-Turn spurious l compare sees fits = round-Turn _ _ _ _ refl refl (λ v. refl)
advance-Turn spurious l (drop_second b) sees fits = round-Turn _ _ _ _ refl refl (λ v. refl)
advance-Turn spurious l (drop_first b) sees fits = round-Turn _ _ _ _ refl refl (λ v. refl)
advance-Turn spurious l (finished b) sees fits = round-Turn _ _ _ _ refl refl (λ v. refl)
advance-Turn spurious l (next zero) sees fits = round-Turn _ _ _ _ refl refl (λ v. refl)
advance-Turn spurious l (next (suc k)) sees fits = round-Turn _ _ _ _ refl refl (λ v. refl)
advance-Turn spurious l (load_word k) sees fits = round-Turn _ _ _ _ refl refl (λ v. refl)
advance-Turn spurious l (exchange k n) sees fits =
    round-Turn _ _ _ _ (write_round-value spurious n l) (ground arith) (λ v. ground arith)
advance-Turn spurious l (drain k) sees fits =
    round-Turn _ _ _ _ refl (ground arith) (λ v. ground arith)
advance-Turn spurious l (load k) sees fits = record { added = refl; loaded = refl; kept = inr refl }
advance-Turn spurious l (store k v) sees fits = record {
  added = omega (arith, sees);
  loaded = refl;
  kept = inl refl;
}
advance-Turn spurious l (drop_guard k) sees fits = round-Turn _ _ _ _ refl refl (λ v. refl)

seen-outside : (value : ℕ) (p : Point) → writes p ≡ 0 → seen value p ≡ value
seen-outside value (store k v) h = absurd (omega arith)
seen-outside value _ h = refl

begin-seen : (k : Option ℕ) → seen 0 (begin k) ≡ 0
begin-seen none = refl
begin-seen (some rounds) = refl

-- The rounds of all writers.
abbrev pub additions : ℕ → (ℕ → Option ℕ) → ℕ
additions n kinds = tally to_add n (λ i. begin (kinds i))

-- The data and what is still to be added make up all additions.
pub record Adds (n total : ℕ) (s : System) : Type 0 where
  pub added : s.lock.value + tally to_add n s.points ≡ total
  pub loaded : (j : ℕ) → j < n → seen s.lock.value (s.points j) ≡ s.lock.value

module _ {n : ℕ} {kinds : ℕ → Option ℕ} (few : 2 * n < 2 ^ 63) where
  -- A write guard excludes another one.
  alone :
      {s : System} (i j : ℕ)
      → Reach n kinds s
      → i < n
      → j < n
      → writes (s.points i) ≡ 1
      → i ≢ j
      → writes (s.points j) ≡ 0
  alone {s} i j r lt lt' in_i ne = elim (dec_lt 0 (writes (s.points j))) [
    | yes in_j ↦
        let inv = Reach-Inv few r in
        absurd (
          ne (
            tally_unique writes n s.points i j (omega (arith, inv.one_owner, inv.within)) lt lt'
              (omega arith) in_j))
    | no out ↦ omega arith
  ]

  module _ (fits : additions n kinds < 2 ^ 64) where
    Step-Adds :
        {s t : System}
        → Reach n kinds s
        → Step n s t
        → Adds n (additions n kinds) s
        → Adds n (additions n kinds) t
    Step-Adds {s} r (go_on i spurious lt) inv =
        let (l', p') = advance spurious s.lock (s.points i) in
        let a : s.lock.value + tally to_add n s.points ≡ additions n kinds = inv.added in
        let turn : Turn s.lock (s.points i) l' p' =
          advance-Turn spurious s.lock (s.points i) (inv.loaded i lt)
            (omega (arith, a, fits, le-tally to_add n s.points i lt)) in
        record {
          added = omega (arith, a, turn.added, tally-go_to to_add n s.points i p' lt);
          loaded =
              go_to-all (λ j q. j < n → seen l'.value q ≡ l'.value) s.points i p' (λ _. turn.loaded)
                (λ j ne lt'. elim turn.kept [
                  | inl in_i ↦ seen-outside l'.value (s.points j) (alone i j r lt lt' in_i ne)
                  | inr same ↦ subst (λ v. seen v (s.points j) ≡ v) (sym same) (inv.loaded j lt')
                ]);
        }

    pub Reach-Adds : {s : System} → Reach n kinds s → Adds n (additions n kinds) s
    Reach-Adds start = record { added = omega arith; loaded = λ j lt. begin-seen (kinds j) }
    Reach-Adds (later r st) = Step-Adds r st (Reach-Adds r)

-- A thread at its end: a reader has compared, and a writer has no round left.
abbrev pub IsDone : Point → Type 0
IsDone p = ((passed : Bool) × (p ≡ finished passed)) ⊎ (p ≡ next 0)

pub IsDone-to_add : (p : Point) → IsDone p → to_add p ≡ 0
IsDone-to_add p (inl (passed, e)) = rw e refl
IsDone-to_add p (inr e) = rw e refl

module _ {n : ℕ} {kinds : ℕ → Option ℕ} where
  -- With fewer than 2 ^ 62 threads, and with rounds of the writers that make up a number that fits the
  -- word of the data: in every state that the threads reach in which all of them are done, the data
  -- is that number.
  pub no_addition_lost :
      {s : System}
      → 2 * n < 2 ^ 63
      → additions n kinds < 2 ^ 64
      → Reach n kinds s
      → ((i : ℕ) → i < n → IsDone (s.points i))
      → s.lock.value ≡ additions n kinds
  no_addition_lost {s} few fits r done =
      let a : s.lock.value + tally to_add n s.points ≡ additions n kinds =
        (Reach-Adds few fits r).added in
      elim (dec_lt 0 (tally to_add n s.points)) [
        | yes more ↦
            let (i, lt, heavy) = tally-pos to_add n s.points more in
            absurd (omega (arith, heavy, IsDone-to_add (s.points i) (done i lt)))
        | no none_left_over ↦ omega (arith, a)
      ]
