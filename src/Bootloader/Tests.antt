-- ===== src/Bootloader/Tests.antt =====
-- The table of the RP1, the divisor of its UART, the timer and the pins at single inputs.
use rpi5_baremetal.Base.{List, [], ◌∷◌, All, ℕ, ◌+◌, ◌*◌, ◌/◌, some, ok, ◌≤◌, ◌≡◌, ◌⊎◌, arith, refl}
use rpi5_baremetal.Bootloader.Rp1Info.{io_bank0, pads_bank0, get_block_address}
use rpi5_baremetal.Bootloader.Registers.{field}
use rpi5_baremetal.Bootloader.Rp1Gpio
use rpi5_baremetal.Bootloader.Rp1Gpio.{Modify, Rp1Gpio, new, set_func, gpio_ctrl}
use rpi5_baremetal.Bootloader.Rp1Gpio.Pins.{to_set_func, new-misses}
use rpi5_baremetal.Bootloader.SysTimer.{SystemTimer, wait}
use rpi5_baremetal.Bootloader.SysTimer.Waits.{Waited, wait-returns}
use rpi5_baremetal.Bootloader.Pl011.{rp1, divisor}
use rpi5_baremetal.Bootloader.Pl011.Baud.{rate, divisor-rate}

-- 115200 baud from 48 MHz: 26 and 3 / 64.
divisor-rate_example :
    (26 * 64 + 3 ≡ rate (rp1 0) 115200)
    ⊎ ((◌≡◌ {A = ℕ} 3 0) × ((26 + 1) * 64 ≡ rate (rp1 0) 115200))
unfolding divisor
divisor-rate_example = divisor-rate (rp1 0) 115200 (record { divisor_i = 26; divisor_f = 3 }) refl

-- A timer of 54 MHz, and a counter that goes on by 30 between two reads.
abbrev timer : SystemTimer
timer = record { counter_frequency = some 54_000_000 }

abbrev counter : ℕ → ℕ
counter k = 1000 + 30 * k

waits : wait 10 counter 2 timer ≡ ok 4
unfolding wait
waits = refl

wait-returns_example :
    (k : ℕ) × (k ≤ 1 + 3)
    × (wait 10 counter 2 timer ≡ ok k)
    × Waited counter (54_000_000 / 1000 / 1000 * 2) 1 k
wait-returns_example =
    wait-returns counter 54_000_000 2 timer refl 10 3 (omega arith) (λ j. omega arith) (omega arith)
      (omega arith)

-- The call that `set_func` makes, with the references of `new`, for the pin 14.
abbrev misplaced : List Modify
misplaced = record { address = 0x400f_0074; fields = field 0 5 4 ∷ [] } ∷ []

-- What `enable_output` does with the two references that `new` makes.
abbrev out_14 : List Modify
out_14 =
    record { address = 0x400f_0074; fields = field 12 2 0 ∷ field 14 2 0 ∷ [] }
    ∷ record { address = 0x400f_003c; fields = field 7 1 0 ∷ field 2 1 0 ∷ field 3 1 0 ∷ [] }
    ∷ []

new-misses_example :
    All
      (λ e.
        ((get_block_address pads_bank0).address ≤ e.address)
        × (e.address + 4 ≤ (get_block_address pads_bank0).address + 0x4000)
        × ((get_block_address io_bank0).address + 0x4000 ≤ e.address))
      misplaced
unfolding set_func gpio_ctrl new
new-misses_example = new-misses (to_set_func 4) 14 misplaced refl
