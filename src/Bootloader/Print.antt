-- ===== src/Bootloader/Print.antt =====
-- bootloader/src/print.rs: `_print` over the two cells behind spin locks. A core runs alone: a lock
-- that is taken is never given back, and `lock` spins for ever. `core::fmt` is a parameter: the
-- pieces of text that it passes to `write_str`, which never fails.
pub mod Cores
pub mod Output
use rpi5_baremetal.Base.{
  ℕ, Option, none, some, List, [], ◌∷◌, true, false, Outcome, ok, out_of_fuel, ◌>>?◌,
}
use rpi5_baremetal.Mutex.SpinLock.{SpinLock, lock_round, drop, deref_mut}
use rpi5_baremetal.Bootloader.Board.{Hardware, Action, uart_write}

-- `PL011_UART_ADDR` of main.rs.
abbrev pub pl011_uart_addr : ℕ
pl011_uart_addr = 0x10_7d00_1000

-- `lock`, on a core that runs alone.
unfoldable pub lock : SpinLock (Option ℕ) → Outcome ⊥ (SpinLock (Option ℕ))
unfolding lock_round
lock l = elim l.locked [ true ↦ out_of_fuel | false ↦ ok (lock_round false l).0 ]

-- `get_or_insert_with`
abbrev pub or_insert : Option ℕ → ℕ → ℕ
or_insert none a = a
or_insert (some b) a = b

module _ (hw : Hardware) where
  -- `write_fmt`: each piece by `write_str`.
  unfoldable pub write_fmt : ℕ → List (List ℕ) → Action (Unit {0})
  unfolding uart_write
  write_fmt a [] b = (b, ok tt)
  write_fmt a (piece ∷ pieces) b = uart_write hw a piece b >>? λ b1 _. write_fmt a pieces b1

  -- `if let Some(uart) = …`
  unfoldable pub write_if : Option ℕ → List (List ℕ) → Action (Unit {0})
  unfolding write_fmt
  write_if none pieces b = (b, ok tt)
  write_if (some a) pieces b = write_fmt a pieces b

  unfoldable pub print : List (List ℕ) → Action (Unit {0})
  unfolding lock write_fmt write_if drop deref_mut
  print pieces b = (b, lock b.debug_uart) >>? λ b1 l.
      (let a = or_insert l.value pl011_uart_addr in
        write_fmt a pieces (record b1 { debug_uart = deref_mut (some a) l }))
      >>? λ b2 _. (b2, lock b2.rp1_uart0) >>? λ b3 l'.
          write_if l'.value pieces (record b3 { rp1_uart0 = l' }) >>? λ b4 _.
          (record b4 { debug_uart = drop b4.debug_uart; rp1_uart0 = drop b4.rp1_uart0 }, ok tt)
