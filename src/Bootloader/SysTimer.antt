-- ===== src/Bootloader/SysTimer.antt =====
-- bootloader/src/systimer.rs: the wait on the system counter. The registers of the counter are
-- parameters: its frequency, and a value for each time that it is read.
pub mod Waits
use rpi5_baremetal.Base.{
  ℕ, zero, suc, ◌-◌, ◌*◌, ◌/◌, ◌^◌, Option, none, some, ltb, ◌==◌, if◌then◌else◌, true, false,
  Outcome, ok, panicked, out_of_fuel, ◌>>=◌,
}

pub record SystemTimer : Type 0 where
  pub counter_frequency : Option ℕ  -- NonZeroU64

-- No function of the timer returns an error.
abbrev pub OrPanic : Type 0 → Type 0
OrPanic A = Outcome ⊥ A

abbrev pub new : SystemTimer
new = record { counter_frequency = none }

-- `init`, with what `get_timer_frequency` reads.
unfoldable pub init : ℕ → SystemTimer → OrPanic SystemTimer
init frequency t =
    if frequency == 0 then panicked else ok (record { counter_frequency = some frequency })

-- `u128::from(frequency / 1000 / 1000) * micros`
unfoldable pub wait_time : ℕ → ℕ → OrPanic ℕ
wait_time frequency micros =
    let time = frequency / 1000 / 1000 * micros in if ltb time (2 ^ 128) then ok time else panicked

-- `Self::get_timer_counter() - start` on `u64`
unfoldable pub elapsed : ℕ → ℕ → OrPanic ℕ
elapsed now start = if ltb now start then panicked else ok (now - start)

-- The loop, before the read of the number `k`; it gives the number of the last read.
unfoldable pub wait_loop : ℕ → (ℕ → ℕ) → ℕ → ℕ → ℕ → OrPanic ℕ
unfolding elapsed
wait_loop zero counter start time k = out_of_fuel
wait_loop (suc fuel) counter start time k = elapsed (counter k) start >>= λ e. elim (ltb e time) [
  | true ↦ wait_loop fuel counter start time (suc k)
  | false ↦ ok k
]

unfoldable pub wait : ℕ → (ℕ → ℕ) → ℕ → SystemTimer → OrPanic ℕ
unfolding wait_time wait_loop
wait fuel counter micros t = elim t.counter_frequency [
  | none ↦ panicked
  | some frequency ↦
      let start = counter 0 in
      wait_time frequency micros >>= λ time. wait_loop fuel counter start time 1
]
