-- ===== src/Dtb/ItWorks.antt =====
-- The test `it_works` of dtb/src/lib.rs, on the file that it reads.
pub mod Passes
use rpi5_baremetal.Base.{
  ℕ, ◌+◌, ◌==◌, ◌&&◌, not, Bool, true, false, Option, none, some, List, [], ◌∷◌, codes,
  if◌then◌else◌, ok, err, panicked, out_of_fuel, ◌>>=◌,
}
use rpi5_baremetal.Dtb.BigEndian.{Memory, Result}
use rpi5_baremetal.Dtb.Header.{DtbHeader}
use rpi5_baremetal.Dtb.Header
use rpi5_baremetal.Dtb.AddressIter.{Callback, continue, break}
use rpi5_baremetal.Dtb.Parser.{Search, find_node}

-- `(PL011_DEBUG_UART_ADDRESS, PL011_DEBUG_UART_SIZE)`, `(MEMORY_ADDRESS, MEMORY_SIZE)`
abbrev pub debug_uart : ℕ × ℕ
debug_uart = (0x10_7d00_1000, 0x200)

abbrev pub memory_block : ℕ × ℕ
memory_block = (0x0, 0x2800_0000)

-- `counter`, and whether an assertion of the callback has failed.
pub record Checks : Type 0 where
  pub counter : ℕ
  pub failed : Bool

abbrev pub fresh : Checks
fresh = record { counter = 0; failed = false }

-- The callback of the first two searches. An assertion that fails ends the search, and the test.
unfoldable pub expects : ℕ × ℕ → Callback Checks
expects want s a =
    if a.0 == want.0 && a.1 == want.1
    then (record s { counter = s.counter + 1 }, continue)
    else (record s { failed = true }, break)

-- The callback of the third one.
unfoldable pub counts : Callback Checks
counts s a = (record s { counter = s.counter + 1 }, continue)

-- `unwrap`
unfoldable pub unwrap : {A : Type 0} → Result A → Result A
unwrap (ok a) = ok a
unwrap (err e) = panicked
unwrap panicked = panicked
unwrap out_of_fuel = out_of_fuel

-- Behind a search: `unwrap()` and `assert_eq!(counter, …)`.
unfoldable pub searched : ℕ → Checks × Result (Unit {0}) → Result (Unit {0})
unfolding unwrap
searched n (s, result) =
    unwrap result >>= λ _. if not s.failed && s.counter == n then ok tt else panicked

-- The three calls of `find_node`.
abbrev pub search :
    Memory
    → (limit rounds : ℕ) → DtbHeader
    → (device_name compatible_name : Option (List ℕ)) → Search
search m limit rounds header device_name compatible_name = record {
  memory = m;
  limit = limit;
  rounds = rounds;
  header = header;
  query = record { device_name = device_name; compatible_name = compatible_name };
}

unfoldable pub it_works : (limit rounds fuel : ℕ) → Memory → ℕ → Result (Unit {0})
unfolding unwrap searched
it_works limit rounds fuel m a = unwrap (Header.new m a) >>= λ header.
    let find = search m limit rounds header in
    searched 1 (find_node (find none (some (codes "arm,pl011"))) (expects debug_uart) fuel fresh)
    >>= λ _.
        searched 1 (find_node (find (some (codes "memory")) none) (expects memory_block) fuel fresh)
        >>= λ _. searched 4 (find_node (find none (some (codes "arm,gic-400"))) counts fuel fresh)
