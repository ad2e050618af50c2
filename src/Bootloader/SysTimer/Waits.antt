-- ===== src/Bootloader/SysTimer/Waits.antt =====
-- `wait` of bootloader/src/systimer.rs against the values of the counter.
use rpi5_baremetal.Base.{
  ℕ, zero, suc, ◌+◌, ◌-◌, ◌*◌, ◌/◌, ◌^◌, ◌≤◌, ◌<◌, ◌≡◌, sym, ap, ◌∙◌, some, ok, panicked, dec_lt,
  arith,
}
use mathlib.Core.Path.{subst}
use rpi5_baremetal.Bootloader.SysTimer.{SystemTimer, OrPanic, wait_time, wait_loop, wait}

-- The loop ended at the read of the number `k`: the first from `from` on that is late enough.
pub record Waited (counter : ℕ → ℕ) (time from k : ℕ) : Type 0 where
  pub after : from ≤ k
  pub enough : counter 0 + time ≤ counter k
  pub first : (j : ℕ) → from ≤ j → j < k → counter j < counter 0 + time

ok_cancel : {a b : ℕ} → ◌≡◌ {A = OrPanic ℕ} (ok a) (ok b) → a ≡ b
ok_cancel e = cc

module _ (counter : ℕ → ℕ) (time : ℕ) where
  Waited-at : (k : ℕ) → counter 0 + time ≤ counter k → Waited counter time k k
  Waited-at k late = record {
    after = omega arith;
    enough = late;
    first = λ j above below. absurd (omega arith);
  }

  Waited-later :
      (from k : ℕ)
      → counter from < counter 0 + time
      → Waited counter time (suc from) k
      → Waited counter time from k
  Waited-later from k early w = record {
    after = omega (arith, w.after);
    enough = w.enough;
    first = λ j above below. elim (dec_lt from j) [
      | yes later ↦ w.first j (omega arith) below
      | no not_later ↦ let here : j ≡ from = omega arith in rw here early
    ];
  }

  loop_early :
      (fuel from : ℕ)
      → counter 0 ≤ counter from
      → counter from < counter 0 + time
      → wait_loop (suc fuel) counter (counter 0) time from
        ≡ wait_loop fuel counter (counter 0) time (suc from)
  unfolding wait_loop
  loop_early fuel from above early = ground arith

  loop_late :
      (fuel from : ℕ)
      → counter 0 + time ≤ counter from
      → wait_loop (suc fuel) counter (counter 0) time from ≡ ok from
  unfolding wait_loop
  loop_late fuel from late = ground arith

  loop_back :
      (fuel from : ℕ)
      → counter from < counter 0
      → wait_loop (suc fuel) counter (counter 0) time from ≡ panicked
  unfolding wait_loop
  loop_back fuel from back = ground arith

  wait_loop-Waited :
      (fuel from k : ℕ)
      → wait_loop fuel counter (counter 0) time from ≡ ok k
      → Waited counter time from k
  unfolding wait_loop
  wait_loop-Waited zero from k h = cc
  wait_loop-Waited (suc fuel) from k h = elim (dec_lt (counter from) (counter 0)) [
    | yes back ↦ cc (sym (loop_back fuel from back) ∙ h)
    | no above ↦ elim (dec_lt (counter from) (counter 0 + time)) [
      | yes early ↦
          Waited-later from k early (
            wait_loop-Waited fuel (suc from) k (sym (loop_early fuel from (omega arith) early) ∙ h))
      | no late ↦
          let here : from ≡ k = ok_cancel (sym (loop_late fuel from (omega arith)) ∙ h) in
          subst (Waited counter time from) here (Waited-at from (omega arith))
    ]
  ]

  wait_loop-ends :
      (fuel from n : ℕ)
      → ((j : ℕ) → counter 0 ≤ counter j)
      → counter 0 + time ≤ counter (from + n)
      → n < fuel
      → (k : ℕ) × (k ≤ from + n) × (wait_loop fuel counter (counter 0) time from ≡ ok k)
  unfolding wait_loop
  wait_loop-ends zero from n up late enough = absurd (omega arith)
  wait_loop-ends (suc fuel) from n up late enough =
      elim (dec_lt (counter from) (counter 0 + time)) [
        | no done ↦ (from, omega arith, loop_late fuel from (omega arith))
        | yes early ↦ elim (dec_lt 0 n) [
          | no last ↦
              let same : from + n ≡ from = omega arith in absurd (omega (arith, ap counter same))
          | yes more ↦
              let next : suc from + (n - 1) ≡ from + n = omega arith in
              let (k, le, ends) =
                wait_loop-ends fuel (suc from) (n - 1) up (omega (arith, ap counter next))
                  (omega arith) in
              (k, omega arith, loop_early fuel from (up from) early ∙ ends)
        ]
      ]

module _ (counter : ℕ → ℕ) (frequency micros : ℕ) (t : SystemTimer)
    (set : t.counter_frequency ≡ some frequency) where
  wait-eq :
      (fuel : ℕ)
      → frequency / 1000 / 1000 * micros < 2 ^ 128
      → wait fuel counter micros t
        ≡ wait_loop fuel counter (counter 0) (frequency / 1000 / 1000 * micros) 1
  unfolding wait wait_time
  wait-eq fuel fits = rw (set, wait) (ground arith)

  wait_large :
      (fuel : ℕ)
      → 2 ^ 128 ≤ frequency / 1000 / 1000 * micros
      → wait fuel counter micros t ≡ panicked
  unfolding wait wait_time
  wait_large fuel large = rw (set, wait) (ground arith)

  -- If the timer is set and `wait` returns, the counter has gone on by the whole megahertz of its
  -- frequency for each microsecond, and the read at which the loop ended is the first after the start
  -- at which it has.
  pub wait-Waited :
      (fuel k : ℕ)
      → wait fuel counter micros t ≡ ok k
      → Waited counter (frequency / 1000 / 1000 * micros) 1 k
  wait-Waited fuel k h = elim (dec_lt (frequency / 1000 / 1000 * micros) (2 ^ 128)) [
    | yes fits ↦
        wait_loop-Waited counter (frequency / 1000 / 1000 * micros) fuel 1 k
          (sym (wait-eq fuel fits) ∙ h)
    | no large ↦ cc (sym (wait_large fuel (omega arith)) ∙ h)
  ]

  -- If the timer is set, the time fits 128 bits, the counter never falls behind its value at the
  -- start, and it has gone on far enough at the read of the number `1 + n`, then `wait` returns there
  -- or before, with fuel for `n` rounds more than one.
  pub wait-ends :
      (fuel n : ℕ)
      → frequency / 1000 / 1000 * micros < 2 ^ 128
      → ((j : ℕ) → counter 0 ≤ counter j)
      → counter 0 + frequency / 1000 / 1000 * micros ≤ counter (1 + n)
      → n < fuel
      → (k : ℕ) × (k ≤ 1 + n) × (wait fuel counter micros t ≡ ok k)
  wait-ends fuel n fits up late enough =
      let (k, le, ends) =
        wait_loop-ends counter (frequency / 1000 / 1000 * micros) fuel 1 n up late enough in
      (k, le, wait-eq fuel fits ∙ ends)

  -- If the timer is set, the time fits 128 bits, the counter never falls behind its value at the start,
  -- and it has gone on far enough at the read of the number `1 + n`, then `wait` returns there or
  -- before, with fuel for `n` rounds more than one. The counter has then gone on by the whole megahertz
  -- of its frequency for each microsecond, and the read at which the loop ended is the first after the
  -- start at which it has.
  pub wait-returns :
      (fuel n : ℕ)
      → frequency / 1000 / 1000 * micros < 2 ^ 128
      → ((j : ℕ) → counter 0 ≤ counter j)
      → counter 0 + frequency / 1000 / 1000 * micros ≤ counter (1 + n)
      → n < fuel
      → (k : ℕ) × (k ≤ 1 + n)
        × (wait fuel counter micros t ≡ ok k)
        × Waited counter (frequency / 1000 / 1000 * micros) 1 k
  wait-returns fuel n fits up late enough =
      let (k, le, ends) = wait-ends fuel n fits up late enough in
      (k, le, ends, wait-Waited fuel k ends)
