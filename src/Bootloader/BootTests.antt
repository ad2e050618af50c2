-- ===== src/Bootloader/BootTests.antt =====
-- The boot of bootloader/src/main.rs on a small blob, and a board that answers.
use rpi5_baremetal.Base.{
  ℕ, ◌*◌, ◌≡◌, refl, false, none, some, List, [], ◌∷◌, ◌++◌, codes, ok, arith,
}
use rpi5_baremetal.Bootloader.Registers.Arithmetic.{arithmetic}
use rpi5_baremetal.Bootloader.Pl011.Sending.{sent}
use rpi5_baremetal.Mutex.SpinLock
use rpi5_baremetal.Bootloader.Board.{Board, Hardware}
use rpi5_baremetal.Bootloader.Board.Effects.{IsResponsive}
use rpi5_baremetal.Bootloader.Print.{pl011_uart_addr, print}
use rpi5_baremetal.Bootloader.Print.Output.{told_if, print-writes}
use rpi5_baremetal.Bootloader.Boot.{main}
use rpi5_baremetal.Bootloader.Boot.Blinking.{output_18, times, greeting}
use rpi5_baremetal.Bootloader.Boot.Startup.{setup_calls, spoken, main-runs}
use rpi5_baremetal.Bootloader.Boot.Entry.{Symbols, Cpu}
use rpi5_baremetal.Bootloader.Boot.Entry
use rpi5_baremetal.Bootloader.Boot.Entry.Cleared.{IsCleared, start-clears}
use rpi5_baremetal.Bootloader.BootSamples.{memory}
use rpi5_baremetal.Bootloader.DiscoveryTests.{uart_address}

-- UARTs that are never busy, and a counter of 54 MHz that is read once a second.
abbrev hw : Hardware
hw = record {
  crate = arithmetic;
  flags = λ a k. 0;
  counter = λ k. 54_000_000 * k;
  frequency = 54_000_000;
  chip_id = 0;
  fuel = 1;
}

hw-IsResponsive : IsResponsive hw 0
hw-IsResponsive = record {
  enough = omega arith;
  drains = λ a k. (0, omega arith, refl);
  idles = λ a k. (0, omega arith, refl);
  frequency = omega arith;
  fits = omega arith;
  later = λ k j. omega arith;
  goes_on = λ k. omega arith;
}

abbrev board : Board
board = record {
  uarts = λ a. record {
    integer_baud_rate = 0;
    fractional_baud_rate = 0;
    line_control = 0;
    control = 0;
    polls = 0;
    log = [];
  };
  gpio = [];
  counter_reads = 0;
  debug_uart = SpinLock.new none;
  rp1_uart0 = SpinLock.new none;
}

abbrev pieces : List (List ℕ)
pieces = codes "system counter frequency: " ∷ codes "54000000" ∷ codes "Hz" ∷ codes "\n" ∷ []

print-writes_example :
    (b' : Board) × (print hw pieces board ≡ (b', ok tt))
    × (sent (b'.uarts pl011_uart_addr).log
        ≡ []
          ++ told_if pl011_uart_addr (some pl011_uart_addr) pieces
          ++ told_if pl011_uart_addr none pieces)
    × (b'.debug_uart ≡ record { locked = false; value = some pl011_uart_addr })
    × (b'.rp1_uart0 ≡ board.rp1_uart0)
    × (b'.gpio ≡ board.gpio)
unfolding sent
print-writes_example = print-writes hw-IsResponsive pl011_uart_addr pieces board refl refl

main-runs_example :
    (b' : Board) × (main hw memory 64 8 64 pieces 2 board ≡ (b', ok tt))
    × (sent (b'.uarts 0x1_7d00_1000).log
        ≡ sent (board.uarts 0x1_7d00_1000).log
          ++ (spoken 0x1_7d00_1000 0x1_7d00_1000 0
              ++ (told_if 0x1_7d00_1000 (some pl011_uart_addr) pieces
                  ++ times 2 (greeting 0x1_7d00_1000))))
    × (b'.gpio ≡ board.gpio ++ (setup_calls ++ times 2 (output_18 3 ∷ output_18 2 ∷ [])))
main-runs_example =
    main-runs hw-IsResponsive memory 64 8 64 pieces 2 0x1_7d00_1000 0x1_7d00_1000 board uart_address
      refl refl

-- A block of two words in a memory that is not clear.
abbrev symbols : Symbols
symbols = record { bss_start = 0x20_1000; bss_end = 0x20_1010; stack_top = 0x400_0000 }

abbrev cpu : Cpu
cpu = record { x0 = 0; x1 = 0; sp = 0; memory = λ i. 7 }

start-clears_example :
    (c' : Cpu) × (Entry.start symbols 3 cpu ≡ ok c')
    × (c'.sp ≡ 0x400_0000)
    × IsCleared 0x20_1000 0x20_1010 cpu c'
start-clears_example = start-clears symbols 2 3 cpu refl (omega arith) (omega arith)
