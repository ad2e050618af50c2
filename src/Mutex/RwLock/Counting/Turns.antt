-- ===== src/Mutex/RwLock/Counting/Turns.antt =====
-- The turns that bring one thread of `rw_lock_data` of mutex/src/lib.rs closer to its end.
use rpi5_baremetal.Base.{
  ℕ, zero, suc, ◌+◌, ◌*◌, ◌%◌, ◌^◌, ◌<◌, ◌≡◌, ◌⊎◌, inl, inr, refl, ap, ◌∙◌, Bool, true, false, List,
  [], ◌∷◌, arith,
}
use rpi5_baremetal.Mutex.Threads.{go_to, go_to_same, tally, tally-go_to}
use rpi5_baremetal.Mutex.Schedules.{Steps, none_left, then_one, Steps-append}
use rpi5_baremetal.Mutex.RwLock.{RwLock, read_round, write_round, drain_round}
use rpi5_baremetal.Mutex.RwLock.Counting.{
  Point, first_load, first_exchange, second_load, second_exchange, compare, drop_second, drop_first,
  finished, next, load_word, exchange, drain, load, store, drop_guard, advance, System, Step, go_on,
}
use rpi5_baremetal.Mutex.RwLock.Counting.Invariant.{reads, owns}
use rpi5_baremetal.Mutex.RwLock.Counting.Total.{IsDone}
use rpi5_baremetal.Mutex.RwLock.Counting.Deadlock.{half, waits}

-- How far a thread is from its end.
abbrev pub left : Point → ℕ
left first_load = 5
left (first_exchange n) = 5
left second_load = 4
left (second_exchange n) = 4
left compare = 3
left (drop_second b) = 2
left (drop_first b) = 1
left (finished b) = 0
left (next k) = 5 * k
left (load_word k) = 5 * k + 4
left (exchange k n) = 5 * k + 4
left (drain k) = 5 * k + 4
left (load k) = 5 * k + 3
left (store k v) = 5 * k + 2
left (drop_guard k) = 5 * k + 1

pub left_zero : (p : Point) → left p ≡ 0 → IsDone p
left_zero (finished b) h = inl (b, refl)
left_zero (next zero) h = inr refl
left_zero (next (suc k)) h = absurd (omega arith)
left_zero _ h = absurd (omega arith)

-- Some steps of one thread; each exchange among them fails spuriously or not.
pub turns : List Bool → RwLock ℕ → Point → RwLock ℕ × Point
turns [] l p = (l, p)
turns (b ∷ bs) l p = turns bs (advance b l p).0 (advance b l p).1

-- The steps that bring a thread closer to its end, if they give it what it asks for.
pub plan : Point → List Bool
plan first_load = false ∷ false ∷ []
plan (first_exchange n) = true ∷ false ∷ false ∷ []
plan second_load = false ∷ false ∷ []
plan (second_exchange n) = true ∷ false ∷ false ∷ []
plan (load_word k) = false ∷ false ∷ []
plan (exchange k n) = true ∷ false ∷ false ∷ []
plan _ = false ∷ []

abbrev pub after : RwLock ℕ → Point → Point
after l p = (turns (plan p) l p).1

-- While no writer has the flag, a reader with a guard comes closer, and without readers everyone.
pub free-closer :
    (l : RwLock ℕ) (p : Point)
    → l.read_count_write_lock_flag < 2 ^ 63
    → owns p ≡ 0
    → (0 < reads p) ⊎ (l.read_count_write_lock_flag ≡ 0)
    → 0 < left p
    → (left (after l p) < left p) × (waits (after l p) ≡ 0)
unfolding turns plan advance read_round write_round
free-closer l first_load free none_owns may some = ground arith
free-closer l (first_exchange n) free none_owns may some = ground arith
free-closer l second_load free none_owns may some = ground arith
free-closer l (second_exchange n) free none_owns may some = ground arith
free-closer l (next zero) free none_owns may some = absurd (omega arith)
free-closer l (next (suc k)) free none_owns may some = (omega arith, refl)
free-closer l (load_word k) free none_owns may some = ground arith
free-closer l (exchange k n) free none_owns may some = ground arith
free-closer l _ free none_owns may some = ground arith

-- The writer with the flag comes closer when no thread reads.
pub owner-closer :
    (l : RwLock ℕ) (p : Point)
    → l.read_count_write_lock_flag % 2 ^ 63 ≡ 0
    → 0 < owns p
    → (left (after l p) < left p) × (waits (after l p) ≡ 0) × (half (after l p) ≡ 0)
unfolding turns plan advance drain_round
owner-closer l (drain k) free own = ground arith
owner-closer l (load k) free own = (omega arith, refl, refl)
owner-closer l (store k v) free own = (omega arith, refl, refl)
owner-closer l (drop_guard k) free own = (omega arith, refl, refl)
owner-closer l _ free own = absurd (omega arith)

-- So does a reader that asks for no guard.
pub reader-closer :
    (l : RwLock ℕ) (p : Point)
    → 0 < reads p
    → half p ≡ 0
    → (left (after l p) < left p) × (waits (after l p) ≡ 0) × (half (after l p) ≡ 0)
unfolding turns plan advance
reader-closer l compare read whole = (omega arith, refl, refl)
reader-closer l (drop_second b) read whole = (omega arith, refl, refl)
reader-closer l (drop_first b) read whole = (omega arith, refl, refl)
reader-closer l _ read whole = absurd (omega arith)

-- What the system comes to when thread `i` goes on alone: the others stay, by any weight.
pub record Moved (n i : ℕ) (s t : System) (p : Point) : Type 1 where
  pub steps : Steps (Step n) s t
  pub weights : (w : Point → ℕ) → tally w n t.points + w (s.points i) ≡ tally w n s.points + w p

pub turns-Moved :
    {n : ℕ} (bs : List Bool) (s : System) (i : ℕ) (l : RwLock ℕ) (p : Point)
    → i < n
    → s.lock ≡ l
    → s.points i ≡ p
    → (t : System) × Moved n i s t (turns bs l p).1
unfolding turns
turns-Moved [] s i l p lt at_lock at_point =
    (s, record { steps = none_left; weights = λ w. rw at_point refl })
turns-Moved {n} (b ∷ bs) s i l p lt at_lock at_point =
    let (l1, p1) = advance b s.lock (s.points i) in
    let s1 : System = record { lock = l1; points = go_to s.points i p1 } in
    let st : Step n s s1 = go_on i b lt in
    let (t, moved) =
      turns-Moved bs s1 i (advance b l p).0 (advance b l p).1 lt (rw (at_lock, at_point) refl)
        (go_to_same s.points i p1 ∙ rw (at_lock, at_point) refl) in
    (
      t,
      record {
        steps = Steps-append (then_one none_left st) moved.steps;
        weights = λ w. omega (
          arith,
          moved.weights w,
          tally-go_to w n s.points i p1 lt,
          ap w (go_to_same s.points i p1),
        );
      },
    )
