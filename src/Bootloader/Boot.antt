-- ===== src/Bootloader/Boot.antt =====
-- bootloader/src/main.rs: the boot sequence, from the device tree to the loop that blinks.
pub mod Blinking
pub mod Discovery
pub mod Entry
pub mod Startup
use rpi5_baremetal.Base.{
  ℕ, zero, suc, ◌+◌, ◌-◌, Option, none, some, List, codes, ◌==◌, if◌then◌else◌, ok, err, panicked,
  out_of_fuel, ◌>>=◌, ◌>>?◌,
}
use rpi5_baremetal.Dtb.BigEndian.{Memory, Result}
use rpi5_baremetal.Dtb.Header.{DtbHeader}
use rpi5_baremetal.Dtb.Header
use rpi5_baremetal.Dtb.AddressIter.{Callback, continue}
use rpi5_baremetal.Dtb.Parser.{Search, find_node}
use rpi5_baremetal.Bootloader.Rp1Info.{uart0, get_block_address}
use rpi5_baremetal.Bootloader.Pl011.{debug, rp1}
use rpi5_baremetal.Bootloader.Rp1Gpio.{Rp1Gpio, set_func, enable_output, gpio_enable, gpio_disable}
use rpi5_baremetal.Bootloader.Rp1Gpio
use rpi5_baremetal.Bootloader.SysTimer.{SystemTimer, OrPanic, init}
use rpi5_baremetal.Bootloader.SysTimer
use rpi5_baremetal.Bootloader.Board.{
  Board, Hardware, Action, ◌>>◌, gpio_calls, uart_init, uart_write, timer_wait,
}
use rpi5_baremetal.Bootloader.Print.{pl011_uart_addr, print}

abbrev pub rp1_offset_addr : ℕ
rp1_offset_addr = 0x1f_0000_0000

abbrev pub rp1_base_addr : ℕ
rp1_base_addr = 0x4000_0000

-- `UART0_ADDR`
unfoldable pub uart0_addr : ℕ
unfolding get_block_address
uart0_addr = rp1_offset_addr + ((get_block_address uart0).address - rp1_base_addr)

-- The closure over the `OnceCell`: `set` keeps the address that is there.
abbrev pub set_once : Callback (Option ℕ)
set_once none (address, size) = (some address, continue)
set_once (some a) (address, size) = (some a, continue)

-- `unwrap`
unfoldable pub unwrap : {A : Type 0} → Result A → OrPanic A
unwrap (ok a) = ok a
unwrap (err e) = panicked
unwrap panicked = panicked
unwrap out_of_fuel = out_of_fuel

unfoldable pub unwrap_some : {A : Type 0} → Option A → OrPanic A
unwrap_some (some a) = ok a
unwrap_some none = panicked

-- The search for the debug UART in the memory, within the bounds of the model.
abbrev pub uart_search : Memory → ℕ → ℕ → DtbHeader → Search
uart_search m limit rounds header = record {
  memory = m;
  limit = limit;
  rounds = rounds;
  header = header;
  query = record { device_name = none; compatible_name = some (codes "arm,pl011") };
}

-- The start of `main`: the address of the debug UART.
unfoldable pub find_debug_uart : Memory → ℕ → ℕ → ℕ → OrPanic ℕ
unfolding unwrap unwrap_some
find_debug_uart m limit rounds fuel = do
  header ← unwrap (Header.new m 0x2000_0000)
  let found = find_node (uart_search m limit rounds header) set_once fuel none
  _ ← unwrap found.1
  unwrap_some found.0

abbrev pub offset_message : ℕ → List ℕ
offset_message chip_id =
    if chip_id == 0x2000_1927
    then codes "PL011_OFFSET_ADDR is correct\r\n"
    else codes "PL011_OFFSET_ADDR is incorrect\r\n"

unfoldable pub setup_gpio : Rp1Gpio → Action (Unit {0})
setup_gpio gpio =
    gpio_calls (set_func gpio 14 4)
    >> gpio_calls (set_func gpio 15 4)
    >> gpio_calls (enable_output gpio 14)
    >> gpio_calls (enable_output gpio 15)
    >> gpio_calls (enable_output gpio 18)

module _ (hw : Hardware) where
  unfoldable pub check_offset : ℕ → Action (Unit {0})
  check_offset a = uart_write hw a (offset_message hw.chip_id)

  -- `get_timer_frequency`, which prints the frequency; `pieces` is what `core::fmt` makes of it.
  unfoldable pub get_timer_frequency : List (List ℕ) → Board → Board × OrPanic ℕ
  get_timer_frequency pieces b = print hw pieces b >>? λ b1 _. (b1, ok hw.frequency)

  -- `timer.init`
  unfoldable pub timer_init : List (List ℕ) → Board → Board × OrPanic SystemTimer
  unfolding init get_timer_frequency
  timer_init pieces b =
      get_timer_frequency pieces b >>? λ b1 frequency. (b1, init frequency SysTimer.new)

  -- From `Pl011Uart::new` on the address that was found to the start of the loop.
  unfoldable pub setup : ℕ → List (List ℕ) → Board → Board × OrPanic SystemTimer
  unfolding check_offset setup_gpio timer_init uart0_addr
  setup a pieces b =
      (uart_init hw a debug 115200
          >> uart_write hw a (codes "debug uart starting...\r\n")
          >> check_offset a
          >> setup_gpio Rp1Gpio.new
          >> uart_init hw uart0_addr (rp1 0) 115200
          >> uart_write hw uart0_addr (codes "rp1 uart starting...\r\n"))
        b
      >>? λ b1 _. timer_init pieces b1

  -- The body of the last loop.
  unfoldable pub blink : SystemTimer → Action (Unit {0})
  blink timer =
      gpio_calls (gpio_enable Rp1Gpio.new 18)
      >> uart_write hw uart0_addr (codes "Hello from RP1\r\n")
      >> timer_wait hw timer 1_000_000
      >> gpio_calls (gpio_disable Rp1Gpio.new 18)
      >> uart_write hw uart0_addr (codes "Hello from RP1\r\n")
      >> timer_wait hw timer 1_000_000

  -- The first `n` rounds of the last loop.
  unfoldable pub blinks : ℕ → SystemTimer → Action (Unit {0})
  unfolding blink
  blinks zero timer b = (b, ok tt)
  blinks (suc n) timer b = blink timer b >>? λ b1 _. blinks n timer b1

  -- `main`, with the first `n` rounds of its last loop.
  unfoldable pub main : Memory → (limit rounds fuel : ℕ) → List (List ℕ) → ℕ → Action (Unit {0})
  unfolding find_debug_uart setup blinks
  main m limit rounds fuel pieces n b = (b, find_debug_uart m limit rounds fuel) >>? λ b1 a.
      setup a pieces b1 >>? λ b2 timer. blinks n timer b2

  -- The panic handler, up to its last loop.
  unfoldable pub panic : Action (Unit {0})
  panic =
      uart_init hw pl011_uart_addr debug 115200
      >> uart_write hw pl011_uart_addr (codes "core 0 panicked!!!\r\n")
