-- ===== src/Dtb/Header.antt =====
-- `Dtb` of dtb/src/lib.rs: the header of the blob, checked by `new`, and the blocks it points to.
pub mod Blocks
use rpi5_baremetal.Base.{ℕ, ◌+◌, ◌==◌, ltb, if◌then◌else◌, not, ok, err}
use rpi5_baremetal.Dtb.BigEndian.{Memory, Result, invalid_magic, not_compatible, read_u32_from_ptr}

-- The fields of `FtdHeader` that the code reads, each at its offset from the header's address.
unfoldable pub magic : Memory → ℕ → ℕ
magic m a = read_u32_from_ptr m a

unfoldable pub off_dt_struct : Memory → ℕ → ℕ
off_dt_struct m a = read_u32_from_ptr m (a + 8)

unfoldable pub off_dt_strings : Memory → ℕ → ℕ
off_dt_strings m a = read_u32_from_ptr m (a + 12)

unfoldable pub off_mem_rsvmap : Memory → ℕ → ℕ
off_mem_rsvmap m a = read_u32_from_ptr m (a + 16)

unfoldable pub last_comp_version : Memory → ℕ → ℕ
last_comp_version m a = read_u32_from_ptr m (a + 24)

unfoldable pub size_dt_strings : Memory → ℕ → ℕ
size_dt_strings m a = read_u32_from_ptr m (a + 32)

unfoldable pub size_dt_struct : Memory → ℕ → ℕ
size_dt_struct m a = read_u32_from_ptr m (a + 36)

abbrev pub dtb_version : ℕ
dtb_version = 17

abbrev pub dtb_header_magic : ℕ
dtb_header_magic = 0xd00d_feed

pub record DtbHeader : Type 0 where
  pub address : ℕ

-- `Dtb::new`, which `DtbParser::init` calls.
unfoldable pub new : Memory → ℕ → Result DtbHeader
unfolding magic last_comp_version
new m a =
    if not (magic m a == dtb_header_magic)
    then err invalid_magic
    else if ltb dtb_version (last_comp_version m a)
    then err not_compatible
    else ok (record { address = a })

unfoldable pub get_struct_start_address : Memory → DtbHeader → ℕ
unfolding off_dt_struct
get_struct_start_address m d = d.address + off_dt_struct m d.address

unfoldable pub get_struct_end_address : Memory → DtbHeader → ℕ
unfolding size_dt_struct
get_struct_end_address m d = get_struct_start_address m d + size_dt_struct m d.address

unfoldable pub get_string_start_address : Memory → DtbHeader → ℕ
unfolding off_dt_strings
get_string_start_address m d = d.address + off_dt_strings m d.address

unfoldable pub get_string_end_address : Memory → DtbHeader → ℕ
unfolding size_dt_strings
get_string_end_address m d = get_string_start_address m d + size_dt_strings m d.address

unfoldable pub get_memory_reservation_start_address : Memory → DtbHeader → ℕ
unfolding off_mem_rsvmap
get_memory_reservation_start_address m d = d.address + off_mem_rsvmap m d.address
