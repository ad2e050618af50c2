-- ===== src/Bootloader/Pl011/Discipline.antt =====
-- The order of the writes of bootloader/src/interfaces/pl011.rs: what a write needs of the ones before.
use rpi5_baremetal.Base.{ℕ, ◌-◌, ◌<◌, ◌≡◌, List, [], ◌∷◌, false, ok, ◌>>?◌}
use rpi5_baremetal.Bootloader.Registers.{bits, RegisterCrate}
use rpi5_baremetal.Bootloader.Pl011.{
  UartNum, Access, to_data, to_integer_baud_rate, to_fractional_baud_rate, to_line_control,
  to_control, to_interrupt_clear, Pl011Peripherals, txff, Action, init, write,
}

-- The control register after the writes of a log, from its value before them.
unfoldable pub control_of : ℕ → List Access → ℕ
control_of c [] = c
control_of c (to_control v ∷ older) = v
control_of c (to_data p v ∷ older) = control_of c older
control_of c (to_integer_baud_rate v ∷ older) = control_of c older
control_of c (to_fractional_baud_rate v ∷ older) = control_of c older
control_of c (to_line_control v ∷ older) = control_of c older
control_of c (to_interrupt_clear v ∷ older) = control_of c older

module _ (crate : RegisterCrate) (flags : ℕ → ℕ) where
  -- The line and the baud rate are changed while the UART is disabled, and a character is sent where
  -- the last read of the flags has shown room for it.
  abbrev pub Guarded : ℕ → Access → Type 0
  Guarded control (to_data polls v) = (0 < polls) × (crate.is_set txff (flags (polls - 1)) ≡ false)
  Guarded control (to_integer_baud_rate v) = bits 0 1 control ≡ 0
  Guarded control (to_fractional_baud_rate v) = bits 0 1 control ≡ 0
  Guarded control (to_line_control v) = bits 0 1 control ≡ 0
  Guarded control (to_control v) = Unit
  Guarded control (to_interrupt_clear v) = Unit

  abbrev pub Disciplined : ℕ → List Access → Type 0
  Disciplined c [] = Unit
  Disciplined c (a ∷ older) = Guarded (control_of c older) a × Disciplined c older

  record Logged (c : ℕ) (r : Pl011Peripherals) : Type 0 where
    control : control_of c r.log ≡ r.control
    disciplined : Disciplined c r.log

  module _ (c : ℕ) where
    -- Between `disabled` and the end of `init`.
    record Off (r : Pl011Peripherals) : Type 0 where
      logged : Logged c r
      off : bits 0 1 r.control ≡ 0

-- A call of one of the methods that change registers.
pub data Call : Type 0 where
  call_init : (uart_kind : UartNum) (baudrate : ℕ) → Call
  call_write : (chars : List ℕ) → Call

module _ (crate : RegisterCrate) (flags : ℕ → ℕ) (fuel : ℕ) where
  unfoldable pub call : Call → Action (Unit {0})
  call (call_init uart_kind baudrate) = init crate flags fuel uart_kind baudrate
  call (call_write chars) = write crate flags fuel chars

  -- One call after the other, up to one that does not return.
  unfoldable pub calls : List Call → Action (Unit {0})
  unfolding call
  calls [] r = (r, ok tt)
  calls (k ∷ ks) r = call k r >>? λ r1 _. calls ks r1
