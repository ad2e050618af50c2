-- ===== src/Bootloader/UartTests.antt =====
-- The UART of bootloader/src/interfaces/pl011.rs, with a register crate that does arithmetic.
use rpi5_baremetal.Base.{
  ℕ, zero, suc, ◌+◌, ◌≤◌, ◌<◌, ◌≢◌, ◌≡◌, ◌⊎◌, refl, ap, ◌∙◌, List, [], ◌∷◌, ◌++◌, codes, ok, arith,
}
use rpi5_baremetal.Bootloader.Registers.{bits}
use rpi5_baremetal.Bootloader.Layouts.{Register, of_uarticr, of_int}
use rpi5_baremetal.Bootloader.Layouts.Apart.{IsAll, layout-apart}
use rpi5_baremetal.Bootloader.Registers.Arithmetic.{arithmetic}
use rpi5_baremetal.Bootloader.Pl011.{debug, rp1, Pl011Peripherals, divisor, uart_clk, init, write}
use rpi5_baremetal.Bootloader.Pl011.Ready.{IsReady, init-IsReady}
use rpi5_baremetal.Bootloader.Pl011.Discipline.{Call, call_init, call_write}
use rpi5_baremetal.Bootloader.Pl011.Sending.{sent, write-sent}

-- The UART is on when the code starts.
abbrev before : Pl011Peripherals
before = record {
  integer_baud_rate = 1;
  fractional_baud_rate = 0;
  line_control = 0x70;
  control = 0x301;
  polls = 0;
  log = [];
}

-- Busy, and with a full FIFO, at each second read.
abbrev flags : ℕ → ℕ
flags zero = 0x28
flags (suc zero) = 0
flags (suc (suc k)) = flags k

init-IsReady_example :
    (r' : Pl011Peripherals) × (init arithmetic flags 2 (rp1 0) 115200 before ≡ (r', ok tt))
    × IsReady r' (record { divisor_i = 26; divisor_f = 3 })
    × (sent r'.log ≡ sent before.log)
unfolding divisor uart_clk
init-IsReady_example =
    init-IsReady arithmetic flags 2 1 (rp1 0) 115200 (record { divisor_i = 26; divisor_f = 3 })
      before refl refl (omega arith)

abbrev ks : List Call
ks =
    call_init debug 115200
    ∷ call_write (codes "ok")
    ∷ call_init (rp1 0) 0
    ∷ call_write (codes "!")
    ∷ []

free : (k : ℕ) → (j : ℕ) × (j ≤ 1) × (bits 5 1 (flags (k + j)) ≡ 0)
free zero = (1, omega arith, refl)
free (suc zero) = (0, omega arith, refl)
free (suc (suc k)) =
    let (j, le, room) = free k in
    (
      j,
      le,
      ap (λ n. bits 5 1 (flags n)) {x = suc (suc k) + j} {y = suc (suc (k + j))} (omega arith)
          ∙ room,
    )

write-sent_example :
    (r' : Pl011Peripherals) × (write arithmetic flags 2 (codes "ok") before ≡ (r', ok tt))
    × (sent r'.log ≡ sent before.log ++ codes "ok")
write-sent_example = write-sent arithmetic flags 2 1 (codes "ok") before free (omega arith)

uarticr_others : (j : ℕ) → j < 11 → ¬ IsAll of_uarticr j
uarticr_others j lt (_, last) = omega arith

of_uarticr-of_int : ◌≢◌ {A = Register} of_uarticr of_int
of_uarticr-of_int e = cc

layout-apart_example : (0 < 1) × (9 + 1 ≤ 32) × ((◌≡◌ {A = ℕ} 2 9) ⊎ (2 + 1 ≤ 9))
layout-apart_example =
    layout-apart of_uarticr 2 9 (record { offset = 2; numbits = 1 })
      (record { offset = 9; numbits = 1 }) of_uarticr-of_int (uarticr_others 2 (omega arith))
      (uarticr_others 9 (omega arith)) (omega arith) refl refl
