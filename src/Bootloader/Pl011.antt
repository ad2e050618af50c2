-- ===== src/Bootloader/Pl011.antt =====
-- bootloader/src/interfaces/pl011.rs: the UART. Its registers are words, and a log of what is written
-- to them; the values of the register of flags, one for each read, come from the hardware.
pub mod Baud
pub mod Ready
pub mod Discipline
pub mod Sending
use rpi5_baremetal.Base.{
  ℕ, zero, suc, ◌+◌, ◌*◌, ◌/◌, ◌%◌, Option, none, some, List, [], ◌∷◌, ltb, ◌==◌, if◌then◌else◌,
  true, false, Outcome, ok, panicked, out_of_fuel, ◌>>?◌,
}
use rpi5_baremetal.Bootloader.Registers.{FieldValue, field, RegisterCrate}

pub data UartNum : Type 0 where
  debug : UartNum
  rp1 : (device_num : ℕ) → UartNum

-- What a write changes. A character stands with the number of reads of the flags before it.
pub data Access : Type 0 where
  to_data : (polls value : ℕ) → Access
  to_integer_baud_rate to_fractional_baud_rate to_line_control : (value : ℕ) → Access
  to_control to_interrupt_clear : (value : ℕ) → Access

-- The registers that the code uses, how often the flags were read, and the log, the last first.
pub record Pl011Peripherals : Type 0 where
  pub integer_baud_rate : ℕ
  pub fractional_baud_rate : ℕ
  pub line_control : ℕ
  pub control : ℕ
  pub polls : ℕ
  pub log : List Access

-- `uart_clk`, in Hz.
unfoldable pub uart_clk : UartNum → ℕ
uart_clk debug = 4400_0000
uart_clk (rp1 device_num) = 4800_0000

pub record Divisor : Type 0 where
  pub divisor_i : ℕ
  pub divisor_f : ℕ

-- What `init` writes to the two baud rate registers. The arithmetic is on `u32`, and stays in it: the
-- largest value is `uart_clk * 8`. A baud rate of 0 panics.
unfoldable pub divisor : UartNum → ℕ → Option Divisor
unfolding uart_clk
divisor uart_kind baudrate =
    if baudrate == 0
    then none
    else some (record {
      divisor_i = uart_clk uart_kind / baudrate / 16;
      divisor_f = (uart_clk uart_kind * 8 / baudrate + 1) / 2 % 64;
    })

-- The fields of the registers that are written or read.
abbrev pub busy : FieldValue
busy = field 3 1 1

abbrev pub txff : FieldValue
txff = field 5 1 1

abbrev pub fen : ℕ → FieldValue
fen v = field 4 1 v

abbrev pub wlen_bit8 : FieldValue
wlen_bit8 = field 5 2 3

abbrev pub uarten : ℕ → FieldValue
uarten v = field 0 1 v

abbrev pub txe : FieldValue
txe = field 8 1 1

abbrev pub rxe : FieldValue
rxe = field 9 1 1

-- `UARTICR::ALL::SET`, which sets each bit of the field.
abbrev pub icr_all : FieldValue
icr_all = field 0 11 0x7ff

module _ (r : Pl011Peripherals) where
  abbrev pub poll : Pl011Peripherals
  poll = record r { polls = r.polls + 1 }

  unfoldable pub set_data : ℕ → Pl011Peripherals
  set_data v = record r { log = to_data r.polls v ∷ r.log }

  unfoldable pub set_integer_baud_rate : ℕ → Pl011Peripherals
  set_integer_baud_rate v = record r { integer_baud_rate = v; log = to_integer_baud_rate v ∷ r.log }

  unfoldable pub set_fractional_baud_rate : ℕ → Pl011Peripherals
  set_fractional_baud_rate v = record r {
    fractional_baud_rate = v;
    log = to_fractional_baud_rate v ∷ r.log;
  }

  unfoldable pub set_line_control : ℕ → Pl011Peripherals
  set_line_control v = record r { line_control = v; log = to_line_control v ∷ r.log }

  unfoldable pub set_control : ℕ → Pl011Peripherals
  set_control v = record r { control = v; log = to_control v ∷ r.log }

  unfoldable pub set_interrupt_clear : ℕ → Pl011Peripherals
  set_interrupt_clear v = record r { log = to_interrupt_clear v ∷ r.log }

-- A method: the registers as they are at its end, also after a panic.
abbrev pub Action : Type 0 → Type 0
Action A = Pl011Peripherals → Pl011Peripherals × Outcome ⊥ A

-- The crate, and the flags at each read.
module _ (crate : RegisterCrate) (flags : ℕ → ℕ) where
  unfoldable pub flush : ℕ → Action (Unit {0})
  flush zero r = (r, out_of_fuel)
  flush (suc fuel) r = elim (crate.matches_all busy (flags r.polls)) [
    | true ↦ flush fuel (poll r)
    | false ↦ (poll r, ok tt)
  ]

  unfoldable pub disabled : Pl011Peripherals → Pl011Peripherals
  unfolding set_control set_interrupt_clear set_line_control
  disabled r =
      let off = set_control r (crate.modify (uarten 0 ∷ []) r.control) in
      let cleared = set_interrupt_clear off (crate.write (icr_all ∷ [])) in
      set_line_control cleared (crate.modify (fen 0 ∷ []) cleared.line_control)

  -- The end of `init`, with the divisor.
  unfoldable pub start : Divisor → Pl011Peripherals → Pl011Peripherals
  unfolding set_integer_baud_rate set_fractional_baud_rate set_line_control set_control
  start d r =
      let whole = set_integer_baud_rate r d.divisor_i in
      let both = set_fractional_baud_rate whole d.divisor_f in
      let line = set_line_control both (crate.write (wlen_bit8 ∷ fen 1 ∷ [])) in
      set_control line (crate.write (uarten 1 ∷ txe ∷ rxe ∷ []))

  -- What `init` does once the UART is disabled.
  unfoldable pub configure : UartNum → ℕ → Action (Unit {0})
  unfolding divisor start uart_clk
  configure uart_kind baudrate r =
      if ltb 368_6400 (uart_clk uart_kind)
      then elim (divisor uart_kind baudrate) [ none ↦ (r, panicked) | some d ↦ (start d r, ok tt) ]
      else (r, panicked)

  unfoldable pub init : ℕ → UartNum → ℕ → Action (Unit {0})
  unfolding flush disabled configure
  init fuel uart_kind baudrate r =
      flush fuel r >>? λ r1 _. configure uart_kind baudrate (disabled r1)

  -- A round of the loop of `write` for each character: it waits for room, then sends.
  unfoldable pub write_char : ℕ → ℕ → Action (Unit {0})
  unfolding set_data
  write_char zero c r = (r, out_of_fuel)
  write_char (suc fuel) c r = elim (crate.is_set txff (flags r.polls)) [
    | true ↦ write_char fuel c (poll r)
    | false ↦ (set_data (poll r) c, ok tt)
  ]

  -- `write`; the fuel is that of one character.
  unfoldable pub write : ℕ → List ℕ → Action (Unit {0})
  unfolding write_char
  write fuel [] r = (r, ok tt)
  write fuel (c ∷ cs) r = write_char fuel c r >>? λ r1 _. write fuel cs r1
