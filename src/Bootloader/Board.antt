-- ===== src/Bootloader/Board.antt =====
-- The devices that bootloader/src/main.rs uses, as one state: the UARTs by their base addresses, the
-- changes of the GPIO registers in their order, the reads of the counter, and the two cells of print.rs.
pub mod Effects
use rpi5_baremetal.Base.{
  ℕ, ◌+◌, Option, List, ◌++◌, ◌==◌, if◌then◌else◌, Outcome, ok, err, panicked, out_of_fuel, ◌>>?◌,
}
use rpi5_baremetal.Bootloader.Registers.{RegisterCrate}
use rpi5_baremetal.Bootloader.Pl011.{Pl011Peripherals, UartNum}
use rpi5_baremetal.Bootloader.Pl011
use rpi5_baremetal.Bootloader.Rp1Gpio.{Modify, Calls}
use rpi5_baremetal.Bootloader.SysTimer.{SystemTimer, wait}
use rpi5_baremetal.Mutex.SpinLock.{SpinLock}

pub record Board : Type 0 where
  pub uarts : ℕ → Pl011Peripherals
  pub gpio : List Modify
  pub counter_reads : ℕ
  pub debug_uart : SpinLock (Option ℕ)
  pub rp1_uart0 : SpinLock (Option ℕ)

-- What comes from outside: the register crate, the flags of each UART and the counter at each read,
-- the frequency of the counter, and the word at the address of the debug UART; and the rounds of a
-- loop that are tried.
pub record Hardware : Type 0 where
  pub crate : RegisterCrate
  pub flags : ℕ → ℕ → ℕ
  pub counter : ℕ → ℕ
  pub frequency : ℕ
  pub chip_id : ℕ
  pub fuel : ℕ

abbrev pub Action : Type 0 → Type 0
Action A = Board → Board × Outcome ⊥ A

infixl 5 ◌>>◌
abbrev pub ◌>>◌ : Action (Unit {0}) → Action (Unit {0}) → Action (Unit {0})
◌>>◌ x y b = x b >>? λ b1 _. y b1

abbrev pub update : (ℕ → Pl011Peripherals) → ℕ → Pl011Peripherals → ℕ → Pl011Peripherals
update uarts a r i = if i == a then r else uarts i

-- A method of the UART at the address.
unfoldable pub at_uart : ℕ → Pl011.Action (Unit {0}) → Action (Unit {0})
at_uart a act b = let (r, o) = act (b.uarts a) in (record b { uarts = update b.uarts a r }, o)

unfoldable pub gpio_calls : Calls → Action (Unit {0})
gpio_calls (ok calls) b = (record b { gpio = b.gpio ++ calls }, ok tt)
gpio_calls (err e) b = (b, err e)
gpio_calls panicked b = (b, panicked)
gpio_calls out_of_fuel b = (b, out_of_fuel)

module _ (hw : Hardware) where
  unfoldable pub uart_init : ℕ → UartNum → ℕ → Action (Unit {0})
  unfolding at_uart
  uart_init a kind baudrate = at_uart a (Pl011.init hw.crate (hw.flags a) hw.fuel kind baudrate)

  unfoldable pub uart_write : ℕ → List ℕ → Action (Unit {0})
  unfolding at_uart
  uart_write a text = at_uart a (Pl011.write hw.crate (hw.flags a) hw.fuel text)

  -- `timer.wait`: the counter goes on from the reads made before.
  unfoldable pub timer_wait : SystemTimer → ℕ → Action (Unit {0})
  timer_wait t micros b = elim (wait hw.fuel (λ k. hw.counter (b.counter_reads + k)) micros t) [
    | ok k ↦ (record b { counter_reads = b.counter_reads + k + 1 }, ok tt)
    | err e ↦ (b, err e)
    | panicked ↦ (b, panicked)
    | out_of_fuel ↦ (b, out_of_fuel)
  ]
