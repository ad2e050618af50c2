-- ===== src/Bootloader/Pl011/Baud.antt =====
-- The divisor that bootloader/src/interfaces/pl011.rs programs, against the rate that it stands
-- for, in 64ths.
use rpi5_baremetal.Base.{ℕ, ◌+◌, ◌*◌, ◌/◌, ◌≡◌, ◌⊎◌, ◌∙◌, some, arith}
use native.Mathlib.Nat.{div-div-eq-div-mul, mul-div-mul_right}
use rpi5_baremetal.Bootloader.Pl011.{UartNum, uart_clk, Divisor, divisor}

-- `uart_clk / (16 * baudrate)` in 64ths, rounded to the nearest.
abbrev pub rate : UartNum → ℕ → ℕ
rate u baudrate = (uart_clk u * 8 / baudrate + 1) / 2

eighths : (c b : ℕ) → c * 8 / b / 8 ≡ c / b
eighths c b = div-div-eq-div-mul (c * 8) b 8 ∙ mul-div-mul_right c b (omega arith)

-- If `init` computes a divisor, its two parts are the clock over 16 times the baud rate, in
-- 64ths, rounded to the nearest; or the fraction is 0 and the integer part is one less than that.
pub divisor-rate :
    (u : UartNum) (baudrate : ℕ) (d : Divisor)
    → divisor u baudrate ≡ some d
    → (d.divisor_i * 64 + d.divisor_f ≡ rate u baudrate)
      ⊎ ((d.divisor_f ≡ 0) × ((d.divisor_i + 1) * 64 ≡ rate u baudrate))
unfolding divisor
divisor-rate u baudrate d e = let h = eighths (uart_clk u) baudrate in ground arith
