-- ===== src/Bootloader/Boot/Entry.antt =====
-- The assembly of bootloader/src/main.rs in front of `main`: `_start`, which sets the stack pointer, and
-- `clear_bss`, which fills the block of the uninitialised data with zeros.
pub mod Cleared
use rpi5_baremetal.Base.{
  ℕ, zero, suc, ◌+◌, ◌%◌, ◌^◌, ◌&&◌, ◌==◌, leb, ltb, if◌then◌else◌, ok, out_of_fuel,
}
use rpi5_baremetal.Dtb.BigEndian.{Memory}
use rpi5_baremetal.Bootloader.SysTimer.{OrPanic}

-- The symbols of the linker script.
pub record Symbols : Type 0 where
  pub bss_start : ℕ
  pub bss_end : ℕ
  pub stack_top : ℕ

-- The registers that the code uses.
pub record Cpu : Type 0 where
  pub x0 : ℕ
  pub x1 : ℕ
  pub sp : ℕ
  pub memory : Memory

-- `str xzr, [x0], #8`: eight bytes at `x0` become zero, and `x0` goes on in its 64 bits.
unfoldable pub str_xzr : Cpu → Cpu
str_xzr c = record c {
  x0 = (c.x0 + 8) % 2 ^ 64;
  memory = λ i. if leb c.x0 i && ltb i (c.x0 + 8) then 0 else c.memory i;
}

-- `clear_bss_loop`
unfoldable pub clear_bss_loop : ℕ → Cpu → OrPanic Cpu
unfolding str_xzr
clear_bss_loop zero c = out_of_fuel
clear_bss_loop (suc fuel) c =
    let rest = clear_bss_loop fuel (str_xzr c) in if c.x0 == c.x1 then ok c else rest

-- `clear_bss`
unfoldable pub clear_bss : Symbols → ℕ → Cpu → OrPanic Cpu
unfolding clear_bss_loop
clear_bss symbols fuel c =
    clear_bss_loop fuel (record c { x0 = symbols.bss_start; x1 = symbols.bss_end })

-- `_start`, up to the call of `main`.
unfoldable pub start : Symbols → ℕ → Cpu → OrPanic Cpu
unfolding clear_bss
start symbols fuel c =
    clear_bss symbols fuel (record c { x0 = symbols.stack_top; sp = symbols.stack_top })
