-- ===== src/Bootloader/Boot/Discovery.antt =====
-- The search for the debug UART at the start of `main` of bootloader/src/main.rs.
pub mod InTree
use rpi5_baremetal.Base.{ℕ, ◌≡◌, refl, ap, ◌∙◌, Option, none, some, List, [], ◌∷◌, ok, ◌>>=◌}
use rpi5_baremetal.Dtb.BigEndian.{Memory, Result}
use rpi5_baremetal.Dtb.Header.{DtbHeader}
use rpi5_baremetal.Dtb.Header
use rpi5_baremetal.Dtb.AddressIter.{Callback, continue}
use rpi5_baremetal.Dtb.Parser.{find_node}
use rpi5_baremetal.Dtb.Naturality.{on_state, find_node-on_state}
use rpi5_baremetal.Bootloader.Boot.{set_once, unwrap, unwrap_some, uart_search, find_debug_uart}

-- A callback that keeps every address, the last first.
abbrev pub keep_all : Callback (List ℕ)
keep_all s (address, size) = (address ∷ s, continue)

-- The address that came first.
unfoldable pub earliest : List ℕ → Option ℕ
earliest [] = none
earliest (a ∷ later) = elim (earliest later) [ none ↦ some a | some first ↦ some first ]

set_once-earliest :
    (s : List ℕ) (a : ℕ × ℕ) → set_once (earliest s) a ≡ on_state earliest (keep_all s a)
unfolding earliest
set_once-earliest s (address, size) = kept (earliest s)
  where
    kept :
        (o : Option ℕ)
        → ◌≡◌ {A = Option ℕ × _}
            (set_once o (address, size))
            (elim o [ none ↦ some address | some first ↦ some first ], continue)
    kept none = refl
    kept (some first) = refl

-- If the header is read, the address of the debug UART is the first one that a search for its name
-- reports; the program panics if the search fails, or if it reports none.
pub find_debug_uart-earliest :
    (m : Memory) (limit rounds fuel : ℕ) (header : DtbHeader) (addresses : List ℕ)
    (result : Result (Unit {0}))
    → Header.new m 0x2000_0000 ≡ ok header
    → find_node (uart_search m limit rounds header) keep_all fuel [] ≡ (addresses, result)
    → find_debug_uart m limit rounds fuel
      ≡ (unwrap result >>= λ _. unwrap_some (earliest addresses))
unfolding find_debug_uart earliest
find_debug_uart-earliest m limit rounds fuel header addresses result new found =
    let same =
      find_node-on_state earliest keep_all set_once set_once-earliest
        (uart_search m limit rounds header) fuel []
      ∙ ap (on_state earliest) found in
    rw (new, find_debug_uart, unwrap) (ap (λ x. unwrap x.1 >>= λ _. unwrap_some x.0) same)
