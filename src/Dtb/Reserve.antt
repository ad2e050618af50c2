-- ===== src/Dtb/Reserve.antt =====
-- `FdtReserveEntry` of dtb/src/lib.rs: an entry of the memory reservation block, by its address.
pub mod Entries
use rpi5_baremetal.Base.{ℕ, ◌+◌, ◌*◌, ◌^◌}
use rpi5_baremetal.Dtb.BigEndian.{Memory}

-- `u64::from_be` of the two words that a little-endian machine loads at the address.
unfoldable pub read_u64 : Memory → ℕ → ℕ
read_u64 m a =
    m a * 2 ^ 56
    + m (a + 1) * 2 ^ 48
    + m (a + 2) * 2 ^ 40
    + m (a + 3) * 2 ^ 32
    + m (a + 4) * 2 ^ 24
    + m (a + 5) * 2 ^ 16
    + m (a + 6) * 2 ^ 8
    + m (a + 7)

unfoldable pub get_address : Memory → ℕ → ℕ
unfolding read_u64
get_address m entry = read_u64 m entry

unfoldable pub get_size : Memory → ℕ → ℕ
unfolding read_u64
get_size m entry = read_u64 m (entry + 8)
