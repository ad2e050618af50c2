-- ===== src/Bootloader/Print/Cores/Completion.antt =====
-- `_print` of bootloader/src/print.rs on several cores does not get stuck, with its two locks.
use rpi5_baremetal.Base.{
  ℕ, ◌+◌, ◌*◌, ◌≤◌, ◌<◌, ◌≡◌, refl, ap, inl, inr, Bool, Bool-cases, true, false, List, [], ◌∷◌,
  length, arith,
}
use rpi5_baremetal.Mutex.Threads.{tally, tally-go_to, le-tally, tally-zero, tally-pos, tally_unique}
use rpi5_baremetal.Mutex.Schedules.{Steps, none_left, then_one, runs_down}
use rpi5_baremetal.Mutex.SpinLock.{lock_round, drop}
use rpi5_baremetal.Mutex.SpinLock.Exclusion.{flag, flag-le, lock_round-cases}
use rpi5_baremetal.Bootloader.Print.Cores.{
  Console, Point, idle, lock_debug, insert_debug, send_debug, lock_rp1, look_rp1, send_rp1,
  drop_rp1, drop_debug, advance, System, Step, call, go_on, Reach, start, later,
}
use rpi5_baremetal.Bootloader.Print.Cores.Turns.{inside}
use rpi5_baremetal.Bootloader.Print.Cores.Messages.{Reach-Inv}

-- Whether the core has the guard of the UART of RP1.
abbrev on_rp1 : Point → ℕ
on_rp1 (look_rp1 text) = 1
on_rp1 (send_rp1 a rest) = 1
on_rp1 drop_rp1 = 1
on_rp1 _ = 0

on_rp1-inside : (p : Point) → 0 < on_rp1 p → 0 < inside p
on_rp1-inside (look_rp1 text) h = omega arith
on_rp1-inside (send_rp1 a rest) h = omega arith
on_rp1-inside drop_rp1 h = omega arith
on_rp1-inside _ h = absurd (omega arith)

advance-on_rp1 :
    (waits : Bool) (c : Console) (p : Point)
    → on_rp1 p ≤ flag c.rp1_uart0.locked
    → flag (advance waits c p).0.rp1_uart0.locked + on_rp1 p
      ≡ flag c.rp1_uart0.locked + on_rp1 (advance waits c p).1
unfolding advance drop
advance-on_rp1 waits c idle le = refl
advance-on_rp1 waits c (lock_debug text) le = elim (lock_round-cases waits c.debug_uart) [
  | inl (free, got) ↦ rw got refl
  | inr same ↦ rw same refl
]
advance-on_rp1 waits c (insert_debug text) le = refl
advance-on_rp1 waits c (send_debug a [] text) le = refl
advance-on_rp1 true c (send_debug a (b ∷ rest) text) le = refl
advance-on_rp1 false c (send_debug a (b ∷ rest) text) le = refl
advance-on_rp1 waits c (lock_rp1 text) le = elim (lock_round-cases waits c.rp1_uart0) [
  | inl (free, got) ↦ rw got (omega (arith, ap flag free))
  | inr same ↦ rw same refl
]
advance-on_rp1 waits c (look_rp1 text) le = ground arith
advance-on_rp1 waits c (send_rp1 a []) le = refl
advance-on_rp1 true c (send_rp1 a (b ∷ rest)) le = refl
advance-on_rp1 false c (send_rp1 a (b ∷ rest)) le = refl
advance-on_rp1 waits c drop_rp1 le = omega (arith, flag-le c.rp1_uart0.locked)
advance-on_rp1 waits c drop_debug le = refl

-- The lock of the UART of RP1 is taken exactly as long as a core has its guard.
Reach-on_rp1 :
    {n : ℕ} {s : System} → Reach n s → tally on_rp1 n s.points ≡ flag s.console.rp1_uart0.locked
Reach-on_rp1 {n} start = tally-zero on_rp1 n _ (λ _. refl)
Reach-on_rp1 {n} (later {s = s} r (call i text lt idles)) =
    omega
      (arith, Reach-on_rp1 r, tally-go_to on_rp1 n s.points i (lock_debug text) lt, ap on_rp1 idles)
Reach-on_rp1 {n} (later {s = s} r (go_on i waits lt)) =
    let counted = Reach-on_rp1 r in
    omega (
      arith,
      counted,
      tally-go_to on_rp1 n s.points i (advance waits s.console (s.points i)).1 lt,
      advance-on_rp1 waits s.console (s.points i)
          (omega (arith, counted, le-tally on_rp1 n s.points i lt)),
    )

-- How far a core is from the end of its call.
abbrev pub left : Point → ℕ
left idle = 0
left (lock_debug text) = 8 + 2 * length text
left (insert_debug text) = 7 + 2 * length text
left (send_debug a rest text) = 6 + length text + length rest
left (lock_rp1 text) = 5 + length text
left (look_rp1 text) = 4 + length text
left (send_rp1 a rest) = 3 + length rest
left drop_rp1 = 2
left drop_debug = 1

left_zero : (p : Point) → left p ≡ 0 → p ≡ idle
left_zero idle h = refl
left_zero _ h = absurd (omega arith)

-- A core that need not wait comes closer to the end.
advance-closer :
    (c : Console) (p : Point)
    → 0 < left p
    → ((text : List ℕ) → p ≡ lock_debug text → c.debug_uart.locked ≡ false)
    → ((text : List ℕ) → p ≡ lock_rp1 text → c.rp1_uart0.locked ≡ false)
    → left (advance false c p).1 < left p
unfolding advance lock_round
advance-closer c idle heavy debug rp1 = absurd (omega arith)
advance-closer c (lock_debug text) heavy debug rp1 = ground (arith, debug text refl)
advance-closer c (insert_debug text) heavy debug rp1 = omega arith
advance-closer c (send_debug a [] text) heavy debug rp1 = omega arith
advance-closer c (send_debug a (b ∷ rest) text) heavy debug rp1 = omega arith
advance-closer c (lock_rp1 text) heavy debug rp1 = ground (arith, rp1 text refl)
advance-closer c (look_rp1 text) heavy debug rp1 = ground arith
advance-closer c (send_rp1 a []) heavy debug rp1 = omega arith
advance-closer c (send_rp1 a (b ∷ rest)) heavy debug rp1 = omega arith
advance-closer c drop_rp1 heavy debug rp1 = omega arith
advance-closer c drop_debug heavy debug rp1 = omega arith

inside-le-left : (p : Point) → inside p ≤ left p
inside-le-left idle = omega arith
inside-le-left (lock_debug text) = omega arith
inside-le-left (insert_debug text) = omega arith
inside-le-left (send_debug a rest text) = omega arith
inside-le-left (lock_rp1 text) = omega arith
inside-le-left (look_rp1 text) = omega arith
inside-le-left (send_rp1 a rest) = omega arith
inside-le-left drop_rp1 = omega arith
inside-le-left drop_debug = omega arith

module _ {n : ℕ} (s : System) (r : Reach n s) where
  -- The core that has the debug UART finds the other lock free.
  rp1_free :
      (j : ℕ)
      → j < n
      → 0 < inside (s.points j)
      → (text : List ℕ) → s.points j ≡ lock_rp1 text
      → s.console.rp1_uart0.locked ≡ false
  rp1_free j lt in_j text at_lock = elim (Bool-cases s.console.rp1_uart0.locked) [
    | inl set ↦
        let (k, lt_k, on_k) =
          tally-pos on_rp1 n s.points (omega (arith, Reach-on_rp1 r, ap flag set)) in
        let same : k ≡ j =
          tally_unique inside n s.points k j
            (omega (arith, (Reach-Inv r).counted, flag-le s.console.debug_uart.locked)) lt_k lt
            (on_rp1-inside (s.points k) on_k) in_j in
        absurd (omega (arith, on_k, ap (λ i. on_rp1 (s.points i)) same, ap on_rp1 at_lock))
    | inr clear ↦ clear
  ]

  goes_on :
      (i : ℕ)
      → i < n
      → 0 < left (s.points i)
      → ((text : List ℕ) → s.points i ≡ lock_debug text → s.console.debug_uart.locked ≡ false)
      → ((text : List ℕ) → s.points i ≡ lock_rp1 text → s.console.rp1_uart0.locked ≡ false)
      → (t : System) × Steps (Step n) s t × (tally left n t.points < tally left n s.points)
  goes_on i lt heavy debug rp1 = (
    _,
    then_one none_left (go_on i false lt),
    omega (
      arith,
      tally-go_to left n s.points i (advance false s.console (s.points i)).1 lt,
      advance-closer s.console (s.points i) heavy debug rp1,
    ),
  )

  closer :
      0 < tally left n s.points
      → (t : System) × Steps (Step n) s t × (tally left n t.points < tally left n s.points)
  closer heavy = elim (Bool-cases s.console.debug_uart.locked) [
    | inl set ↦
        let (j, lt, in_j) =
          tally-pos inside n s.points (omega (arith, (Reach-Inv r).counted, ap flag set)) in
        goes_on j lt (omega (arith, inside-le-left (s.points j)))
          (λ text e. absurd (omega (arith, in_j, ap inside e))) (rp1_free j lt in_j)
    | inr clear ↦
        let (i, lt, some_left) = tally-pos left n s.points heavy in
        goes_on i lt some_left (λ text e. clear)
          (λ text e. absurd (
            omega (
              arith,
              ap inside e,
              (Reach-Inv r).counted,
              ap flag clear,
              le-tally inside n s.points i lt,
            )))
  ]

-- From every state that the cores reach, some steps of theirs lead to one in which every core is done
-- with its call: the two locks, taken one inside the other, leave no deadlock.
pub prints_complete :
    {n : ℕ} (s : System)
    → Reach n s
    → (t : System) × Steps (Step n) s t × ((i : ℕ) → i < n → t.points i ≡ idle)
prints_complete {n} s r =
    let (t, steps, done) =
      runs_down (Reach n) (λ _ _ h st. later h st) (λ s. tally left n s.points) closer s r in
    (t, steps, λ i lt. left_zero (t.points i) (omega (arith, done, le-tally left n t.points i lt)))
