-- ===== src/Bootloader/Boot/Startup.antt =====
-- `main` of bootloader/src/main.rs from the address of the debug UART on, and its panic handler.
use rpi5_baremetal.Base.{
  ℕ, ◌+◌, ◌*◌, ◌<◌, ◌≡◌, refl, sym, ap, ◌∙◌, inl, inr, Bool-cases, none, some, List, [], ◌∷◌, ◌++◌,
  ◌==◌, codes, ok, arith,
}
use mathlib.Core.Path.{subst}
use mathlib.Core.List.{append-nil, append_assoc}
use rpi5_baremetal.Dtb.BigEndian.{Memory}
use rpi5_baremetal.Bootloader.Registers.{field}
use rpi5_baremetal.Bootloader.Pl011.{UartNum, debug, rp1, Divisor, divisor, uart_clk}
use rpi5_baremetal.Bootloader.Pl011
use rpi5_baremetal.Bootloader.Pl011.Ready.{init-IsReady}
use rpi5_baremetal.Bootloader.Pl011.Sending.{sent}
use rpi5_baremetal.Bootloader.Rp1Info.{get_block_address}
use rpi5_baremetal.Bootloader.Rp1Gpio.{Modify, gpio_ctrl, gpio_pad, set_func, enable_output}
use rpi5_baremetal.Bootloader.Rp1Gpio
use rpi5_baremetal.Bootloader.SysTimer.{SystemTimer}
use rpi5_baremetal.Bootloader.SysTimer
use rpi5_baremetal.Mutex.SpinLock.{SpinLock}
use rpi5_baremetal.Mutex.SpinLock
use rpi5_baremetal.Bootloader.Board.{Board, Hardware, ◌>>◌, uart_init, uart_write}
use rpi5_baremetal.Bootloader.Board.Effects.{
  Runs, Does, Does-seq, Does-quiet, told, write_told-Does, at_uart-Runs, gpio_calls-Does,
  uart_write-Does, IsResponsive,
}
use rpi5_baremetal.Bootloader.Print.{pl011_uart_addr, or_insert}
use rpi5_baremetal.Bootloader.Print.Output.{print-writes, told_if}
use rpi5_baremetal.Bootloader.Boot.{
  uart0_addr, offset_message, find_debug_uart, check_offset, setup_gpio, timer_init, setup, main,
  panic,
}
use rpi5_baremetal.Bootloader.Boot.Blinking.{output_18, times, greeting, blinks-Does}

told-nil : (o a : ℕ) → told o a [] ≡ []
unfolding told
told-nil o a = elim (Bool-cases (o == a)) [
  | inl same ↦ rw (same, told) refl
  | inr other ↦ rw (other, told) refl
]

-- Behind the base of the references: the function of a pin, and its setup as an output.
abbrev pub func_calls : ℕ → List Modify
func_calls n = record { address = 0x400f_0004 + 8 * n; fields = field 0 5 4 ∷ [] } ∷ []

abbrev pub output_calls : ℕ → List Modify
output_calls n =
    record { address = 0x400f_0004 + 8 * n; fields = field 12 2 0 ∷ field 14 2 0 ∷ [] }
    ∷ record {
      address = 0x400f_0004 + 4 * n;
      fields = field 7 1 0 ∷ field 2 1 0 ∷ field 3 1 0 ∷ [];
    }
    ∷ []

abbrev pub setup_calls : List Modify
setup_calls =
    func_calls 14 ++ func_calls 15 ++ output_calls 14 ++ output_calls 15 ++ output_calls 18

abbrev pub starting : List ℕ
starting = codes "rp1 uart starting...\r\n"

abbrev pub debug_starting : List ℕ
debug_starting = codes "debug uart starting...\r\n"

-- What is heard at `o` of the setup, with the debug UART at `a`.
abbrev pub spoken : (o a chip_id : ℕ) → List ℕ
spoken o a chip_id =
    told o a debug_starting ++ told o a (offset_message chip_id) ++ told o uart0_addr starting

setup_gpio-Does : {o : ℕ} → Does o (setup_gpio Rp1Gpio.new) [] setup_calls
unfolding setup_gpio set_func enable_output gpio_ctrl gpio_pad Rp1Gpio.new get_block_address
setup_gpio-Does =
    Does-seq
      (Does-seq
        (Does-seq (Does-seq (gpio_calls-Does (func_calls 14)) (gpio_calls-Does (func_calls 15)))
          (gpio_calls-Does (output_calls 14)))
        (gpio_calls-Does (output_calls 15)))
      (gpio_calls-Does (output_calls 18))

module _ {hw : Hardware} {bound : ℕ} (responsive : IsResponsive hw bound) where
  uart_init-Does :
      {o : ℕ} (a : ℕ) (kind : UartNum) (d : Divisor)
      → divisor kind 115200 ≡ some d
      → Does o (uart_init hw a kind 115200) [] []
  unfolding uart_init
  uart_init-Does {o} a kind d e b =
      let (n, le, idle) = responsive.idles a (b.uarts a).polls in
      let (r, ends, ready, same) =
        init-IsReady hw.crate (hw.flags a) hw.fuel n kind 115200 d (b.uarts a) e idle
          (omega (arith, le, responsive.enough)) in
      subst (λ t. Runs o b t [] (uart_init hw a kind 115200 b)) (told-nil o a)
        (at_uart-Runs a (Pl011.init hw.crate (hw.flags a) hw.fuel kind 115200) b r [] ends
          (same ∙ sym (append-nil (sent (b.uarts a).log))))

  -- The part of `setup` before the timer.
  devices-Does :
      {o : ℕ} (a : ℕ)
      → Does o
          (uart_init hw a debug 115200
            >> uart_write hw a debug_starting
            >> check_offset hw a
            >> setup_gpio Rp1Gpio.new
            >> uart_init hw uart0_addr (rp1 0) 115200
            >> uart_write hw uart0_addr starting)
          (spoken o a hw.chip_id)
          setup_calls
  unfolding divisor uart_clk check_offset
  devices-Does {o} a =
      Does-seq
        (Does-quiet
          (Does-quiet
            (Does-seq (Does-seq (uart_init-Does a debug _ refl) (write_told-Does responsive a _))
              (write_told-Does responsive a _))
            setup_gpio-Does)
          (uart_init-Does uart0_addr (rp1 0) _ refl))
        (write_told-Does responsive uart0_addr starting)

  -- What is heard of the text while both cells are as they were made.
  told-empty :
      (o : ℕ) (b : Board) (pieces : List (List ℕ))
      → b.debug_uart ≡ SpinLock.new none
      → b.rp1_uart0 ≡ SpinLock.new none
      → told_if o (some (or_insert b.debug_uart.value pl011_uart_addr)) pieces
          ++ told_if o b.rp1_uart0.value pieces
        ≡ told_if o (some pl011_uart_addr) pieces
  unfolding told_if
  told-empty o b pieces empty empty' =
      rw (ap (λ l. l.value) empty, ap (λ l. l.value) empty') (append-nil _)

  frequency_set :
      0 < hw.frequency
      → SysTimer.init hw.frequency SysTimer.new
        ≡ ok (record { counter_frequency = some hw.frequency })
  unfolding SysTimer.init
  frequency_set positive = ground arith

  timer_init-sets :
      (o : ℕ) (pieces : List (List ℕ)) (b : Board)
      → b.debug_uart ≡ SpinLock.new none
      → b.rp1_uart0 ≡ SpinLock.new none
      → (b' : Board) × (timer_init hw pieces b
          ≡ (b', ok (record { counter_frequency = some hw.frequency })))
        × (sent (b'.uarts o).log ≡ sent (b.uarts o).log ++ told_if o (some pl011_uart_addr) pieces)
        × (b'.gpio ≡ b.gpio)
  unfolding timer_init
  timer_init-sets o pieces b empty empty' =
      let (b', ends, text, debug', rp1', gpio) =
        print-writes responsive o pieces b (ap (λ l. l.locked) empty) (ap (λ l. l.locked) empty') in
      (
        b',
        rw (ends, frequency_set responsive.frequency) refl,
        text
            ∙ append_assoc (sent (b.uarts o).log) _ _
            ∙ ap (λ l. sent (b.uarts o).log ++ l) (told-empty o b pieces empty empty'),
        gpio,
      )

  -- On hardware that answers, from a state in which both cells of `print.rs` are as they were made,
  -- `main` comes through its setup and the first `n` rounds of its last loop, if it finds a debug UART.
  -- Behind what was there before, each UART has sent what is for its address, in this order and no more:
  -- the two messages for the debug UART, the start message for the UART of RP1, the text on the
  -- frequency for the fixed debug UART, and `2 * n` greetings for the UART of RP1; and the GPIO
  -- registers had the changes of the setup and `n` times the override of GPIO 18 on and off.
  pub main-runs :
      (m : Memory) (limit rounds fuel : ℕ) (pieces : List (List ℕ)) (n a o : ℕ) (b : Board)
      → find_debug_uart m limit rounds fuel ≡ ok a
      → b.debug_uart ≡ SpinLock.new none
      → b.rp1_uart0 ≡ SpinLock.new none
      → (b' : Board) × (main hw m limit rounds fuel pieces n b ≡ (b', ok tt))
        × (sent (b'.uarts o).log
            ≡ sent (b.uarts o).log
              ++ (spoken o a hw.chip_id
                  ++ (told_if o (some pl011_uart_addr) pieces ++ times n (greeting o))))
        × (b'.gpio ≡ b.gpio ++ (setup_calls ++ times n (output_18 3 ∷ output_18 2 ∷ [])))
  unfolding main setup
  main-runs m limit rounds fuel pieces n a o b found empty empty' =
      let r = devices-Does {o = o} a b in
      let (b2, ends, text, gpio) =
        timer_init-sets o pieces r.end (r.cells.0 ∙ empty) (r.cells.1 ∙ empty') in
      let s =
        blinks-Does responsive (record { counter_frequency = some hw.frequency }) refl {o = o} n
          b2 in
      let t : List ℕ = sent (b.uarts o).log in
      let u : List ℕ = told_if o (some pl011_uart_addr) pieces in
      (
        s.end,
        rw (found, r.returned, ends, s.returned) refl,
        s.text
            ∙ ap (λ l. l ++ times n (greeting o)) (text ∙ ap (λ l. l ++ u) r.text)
            ∙ append_assoc (t ++ spoken o a hw.chip_id) u (times n (greeting o))
            ∙ append_assoc t (spoken o a hw.chip_id) (u ++ times n (greeting o)),
        s.gpio
            ∙ ap (λ l. l ++ times n (output_18 3 ∷ output_18 2 ∷ [])) (gpio ∙ r.gpio)
            ∙ append_assoc b.gpio setup_calls (times n (output_18 3 ∷ output_18 2 ∷ [])),
      )

  -- On hardware that answers, the panic handler comes to its last loop from any state. It has sent its
  -- message through the fixed debug UART, behind what was sent there before, and changes no GPIO
  -- register.
  pub panic-reports :
      (b : Board)
      → (b' : Board) × (panic hw b ≡ (b', ok tt))
        × (sent (b'.uarts pl011_uart_addr).log
            ≡ sent (b.uarts pl011_uart_addr).log ++ codes "core 0 panicked!!!\r\n")
        × (b'.gpio ≡ b.gpio)
  unfolding panic divisor uart_clk
  panic-reports b =
      let r =
        Does-seq (uart_init-Does pl011_uart_addr debug _ refl) (uart_write-Does responsive _) b in
      (r.end, r.returned, r.text, r.gpio ∙ append-nil b.gpio)
