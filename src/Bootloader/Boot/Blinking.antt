-- ===== src/Bootloader/Boot/Blinking.antt =====
-- The last loop of `main` of bootloader/src/main.rs.
use rpi5_baremetal.Base.{ℕ, zero, suc, ◌≡◌, refl, sym, some, List, [], ◌∷◌, ◌++◌, codes, ok}
use mathlib.Core.List.{append-nil}
use rpi5_baremetal.Bootloader.Registers.{field}
use rpi5_baremetal.Bootloader.Pl011.Sending.{sent}
use rpi5_baremetal.Bootloader.Rp1Info.{get_block_address}
use rpi5_baremetal.Bootloader.Rp1Gpio.{Modify, gpio_ctrl, gpio_enable, gpio_disable}
use rpi5_baremetal.Bootloader.Rp1Gpio
use rpi5_baremetal.Bootloader.SysTimer.{SystemTimer}
use rpi5_baremetal.Bootloader.Board.{Hardware}
use rpi5_baremetal.Bootloader.Board.Effects.{
  Does, Does-seq, gpio_calls-Does, Does-quiet, told, write_told-Does, timer_wait-Does, IsResponsive,
}
use rpi5_baremetal.Bootloader.Boot.{uart0_addr, blink, blinks}

-- The control register of GPIO 18 behind the base of the references, with a value for its override.
abbrev pub output_18 : ℕ → Modify
output_18 v = record { address = 0x400f_0094; fields = field 14 2 v ∷ [] }

abbrev pub hello : List ℕ
hello = codes "Hello from RP1\r\n"

-- What is heard at `o` of a round.
abbrev pub greeting : ℕ → List ℕ
greeting o = told o uart0_addr hello ++ told o uart0_addr hello

-- A list, `n` times.
unfoldable pub times {ℓ} : {A : Type ℓ} → ℕ → List A → List A
times zero l = []
times (suc n) l = l ++ times n l

gpio_enable-18 : gpio_enable Rp1Gpio.new 18 ≡ ok (output_18 3 ∷ [])
unfolding gpio_enable gpio_ctrl Rp1Gpio.new get_block_address
gpio_enable-18 = refl

gpio_disable-18 : gpio_disable Rp1Gpio.new 18 ≡ ok (output_18 2 ∷ [])
unfolding gpio_disable gpio_ctrl Rp1Gpio.new get_block_address
gpio_disable-18 = refl

module _ {hw : Hardware} {bound : ℕ} (responsive : IsResponsive hw bound) (timer : SystemTimer)
    (set : timer.counter_frequency ≡ some hw.frequency) where
  blink-Does : {o : ℕ} → Does o (blink hw timer) (greeting o) (output_18 3 ∷ output_18 2 ∷ [])
  unfolding blink
  blink-Does {o} =
      let greet = write_told-Does responsive {o = o} uart0_addr hello in
      let sleep = timer_wait-Does responsive {o = o} timer set in
      let on = Does-quiet (Does-seq (gpio_calls-Does (output_18 3 ∷ [])) greet) sleep in
      rw (gpio_enable-18, gpio_disable-18)
        (Does-quiet (Does-seq (Does-quiet on (gpio_calls-Does (output_18 2 ∷ []))) greet) sleep)

  -- On hardware that answers, with a timer that has the frequency of the counter, the first `n` rounds
  -- of the last loop return. They switch the override of GPIO 18 on and off in turn, `n` times, change
  -- no other GPIO register, and send the greeting `2 * n` times through the UART of RP1, and nothing
  -- through any other one.
  pub blinks-Does :
      {o : ℕ} (n : ℕ)
      → Does o (blinks hw n timer) (times n (greeting o)) (times n (output_18 3 ∷ output_18 2 ∷ []))
  unfolding blinks times
  blinks-Does {o} zero b = record {
    end = b;
    returned = refl;
    gpio = sym (append-nil b.gpio);
    text = sym (append-nil (sent (b.uarts o).log));
    cells = (refl, refl);
  }
  blinks-Does (suc n) b = Does-seq blink-Does (blinks-Does n) b
