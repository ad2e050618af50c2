-- ===== src/Mutex/SpinLock/Counting/Total.antt =====
-- What the threads of `spinlock_test` of mutex/src/lib.rs have counted when they are done.
use rpi5_baremetal.Base.{
  ℕ, zero, suc, ◌+◌, ◌*◌, ◌^◌, ◌≤◌, ◌<◌, ◌≡◌, ◌≢◌, ◌⊎◌, inl, inr, refl, sym, ap, Bool, arith,
  dec_lt,
}
use mathlib.Core.Path.{subst}
use rpi5_baremetal.Mutex.Threads.{
  go_to-all, tally, tally-go_to, le-tally, tally_unique, tally-same, tally-zero, tally-pos,
}
use rpi5_baremetal.Mutex.SpinLock.{SpinLock, drop, deref_mut}
use rpi5_baremetal.Mutex.SpinLock.Exclusion.{flag, flag-le, lock_round-cases}
use rpi5_baremetal.Mutex.SpinLock.Counting.{
  Point, next, lock_first, drop_first, lock_second, load, store, drop_second, advance, System, Step,
  go_on, Reach, start, later,
}

-- Whether the thread has a guard.
abbrev pub inside : Point → ℕ
inside (drop_first n) = 1
inside (load n) = 1
inside (store n v) = 1
inside (drop_second n) = 1
inside _ = 0

-- How often the thread will add one.
abbrev pub to_add : Point → ℕ
to_add (next n) = n
to_add (lock_first n) = suc n
to_add (drop_first n) = suc n
to_add (lock_second n) = suc n
to_add (load n) = suc n
to_add (store n v) = suc n
to_add (drop_second n) = n

-- A value that is loaded is that of the data.
abbrev pub IsLoaded : ℕ → Point → Type 0
IsLoaded value (store n v) = v ≡ value
IsLoaded value _ = Unit

-- What a step does: the guards against the flag, and the data against the additions to come.
pub record Turn (l : SpinLock ℕ) (p : Point) (l' : SpinLock ℕ) (p' : Point) : Type 0 where
  pub counted : flag l'.locked + inside p ≡ flag l.locked + inside p'
  pub added : l'.value + to_add p' ≡ l.value + to_add p
  pub loaded : IsLoaded l'.value p'
  pub kept : (inside p ≡ 1) ⊎ (l'.value ≡ l.value)

advance-Turn :
    (spurious : Bool) (l : SpinLock ℕ) (p : Point)
    → IsLoaded l.value p
    → inside p ≤ flag l.locked
    → l.value + to_add p < 2 ^ 64
    → Turn l p (advance spurious l p).0 (advance spurious l p).1
unfolding advance drop deref_mut
advance-Turn spurious l (next zero) loaded le fits = record {
  counted = refl;
  added = refl;
  loaded = tt;
  kept = inr refl;
}
advance-Turn spurious l (next (suc n)) loaded le fits = record {
  counted = refl;
  added = refl;
  loaded = tt;
  kept = inr refl;
}
advance-Turn spurious l (lock_first n) loaded le fits = elim (lock_round-cases spurious l) [
  | inl (free, got) ↦
      rw got (record {
        counted = omega (arith, ap flag free);
        added = refl;
        loaded = tt;
        kept = inr refl;
      })
  | inr same ↦ rw same (record { counted = refl; added = refl; loaded = tt; kept = inr refl })
]
advance-Turn spurious l (drop_first n) loaded le fits = record {
  counted = omega (arith, flag-le l.locked);
  added = refl;
  loaded = tt;
  kept = inr refl;
}
advance-Turn spurious l (lock_second n) loaded le fits = elim (lock_round-cases spurious l) [
  | inl (free, got) ↦
      rw got (record {
        counted = omega (arith, ap flag free);
        added = refl;
        loaded = tt;
        kept = inr refl;
      })
  | inr same ↦ rw same (record { counted = refl; added = refl; loaded = tt; kept = inr refl })
]
advance-Turn spurious l (load n) loaded le fits = record {
  counted = refl;
  added = refl;
  loaded = refl;
  kept = inr refl;
}
advance-Turn spurious l (store n v) loaded le fits = record {
  counted = refl;
  added = omega (arith, loaded);
  loaded = tt;
  kept = inl refl;
}
advance-Turn spurious l (drop_second n) loaded le fits = record {
  counted = omega (arith, flag-le l.locked);
  added = refl;
  loaded = tt;
  kept = inr refl;
}

outside-IsLoaded : (value : ℕ) (p : Point) → inside p ≡ 0 → IsLoaded value p
outside-IsLoaded value (next n) h = tt
outside-IsLoaded value (lock_first n) h = tt
outside-IsLoaded value (drop_first n) h = tt
outside-IsLoaded value (lock_second n) h = tt
outside-IsLoaded value (load n) h = tt
outside-IsLoaded value (store n v) h = absurd (omega arith)
outside-IsLoaded value (drop_second n) h = tt

-- The flag counts the guards; the data and what is still to be added make up all additions.
pub record Inv (n rounds : ℕ) (s : System) : Type 0 where
  pub counted : tally inside n s.points ≡ flag s.lock.locked
  pub added : s.lock.value + tally to_add n s.points ≡ n * rounds
  pub loaded : (j : ℕ) → j < n → IsLoaded s.lock.value (s.points j)

-- No other thread has a guard.
alone :
    {n rounds : ℕ} {s : System}
    → Inv n rounds s
    → (i j : ℕ) → i < n
    → j < n
    → inside (s.points i) ≡ 1
    → i ≢ j
    → inside (s.points j) ≡ 0
alone {n} {s = s} inv i j lt lt' in_i ne = elim (dec_lt 0 (inside (s.points j))) [
  | yes in_j ↦ absurd (
      ne (
        tally_unique inside n s.points i j (omega (arith, inv.counted, flag-le s.lock.locked)) lt
          lt' (omega arith) in_j))
  | no out ↦ omega arith
]

module _ {n rounds : ℕ} (few : n * rounds < 2 ^ 64) where
  Step-Inv : {s t : System} → Step n s t → Inv n rounds s → Inv n rounds t
  Step-Inv {s} (go_on i spurious lt) inv =
      let (l', p') = advance spurious s.lock (s.points i) in
      let c : tally inside n s.points ≡ flag s.lock.locked = inv.counted in
      let a : s.lock.value + tally to_add n s.points ≡ n * rounds = inv.added in
      let turn : Turn s.lock (s.points i) l' p' =
        advance-Turn spurious s.lock (s.points i) (inv.loaded i lt)
          (omega (arith, c, le-tally inside n s.points i lt))
          (omega (arith, a, few, le-tally to_add n s.points i lt)) in
      record {
        counted = omega (arith, c, turn.counted, tally-go_to inside n s.points i p' lt);
        added = omega (arith, a, turn.added, tally-go_to to_add n s.points i p' lt);
        loaded =
            go_to-all (λ j q. j < n → IsLoaded l'.value q) s.points i p' (λ _. turn.loaded)
              (λ j ne lt'. elim turn.kept [
                | inl in_i ↦ outside-IsLoaded l'.value (s.points j) (alone inv i j lt lt' in_i ne)
                | inr same ↦ subst (λ v. IsLoaded v (s.points j)) (sym same) (inv.loaded j lt')
              ]);
      }

  pub Reach-Inv : {s : System} → Reach n rounds s → Inv n rounds s
  Reach-Inv start = record {
    counted = tally-zero inside n _ (λ _. refl);
    added = omega (arith, tally-same to_add n (next rounds));
    loaded = λ j lt. tt;
  }
  Reach-Inv (later r st) = Step-Inv st (Reach-Inv r)

  -- When all threads are done, nothing is left to be added.
  pub total :
      {s : System}
      → Reach n rounds s
      → ((i : ℕ) → i < n → s.points i ≡ next 0)
      → s.lock.value ≡ n * rounds
  total {s} r done = elim (dec_lt 0 (tally to_add n s.points)) [
    | yes more ↦
        let (i, lt, heavy) = tally-pos to_add n s.points more in
        absurd (omega (arith, heavy, ap to_add (done i lt)))
    | no none_left_over ↦ omega (arith, (Reach-Inv r).added)
  ]
