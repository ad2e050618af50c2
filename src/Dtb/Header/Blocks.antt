-- ===== src/Dtb/Header/Blocks.antt =====
-- The header of dtb/src/lib.rs as the format of the blob lays it out: ten big-endian words.
use rpi5_baremetal.Base.{ℕ, ◌+◌, ◌^◌, ◌≤◌, ◌<◌, ◌≡◌, ◌↔◌, List, ok, arith}
use rpi5_baremetal.Dtb.BigEndian.{Memory}
use rpi5_baremetal.Dtb.Layout.Bytes.{word, At, At-word, At-behind, At-move}
use rpi5_baremetal.Dtb.Header.{
  magic, off_dt_struct, off_dt_strings, off_mem_rsvmap, last_comp_version, size_dt_strings,
  size_dt_struct, DtbHeader, new, get_struct_start_address, get_struct_end_address,
  get_string_start_address, get_string_end_address, get_memory_reservation_start_address,
}

-- The words of the header, in their order.
pub record Fields : Type 0 where
  pub magic : ℕ
  pub total_size : ℕ
  pub off_dt_struct : ℕ
  pub off_dt_strings : ℕ
  pub off_mem_rsvmap : ℕ
  pub version : ℕ
  pub last_comp_version : ℕ
  pub boot_cpuid_phys : ℕ
  pub size_dt_strings : ℕ
  pub size_dt_struct : ℕ

abbrev pub enc_header : Fields → List ℕ → List ℕ
enc_header h rest = word h.magic (
    word h.total_size (
      word h.off_dt_struct (
        word h.off_dt_strings (
          word h.off_mem_rsvmap (
            word h.version (
              word h.last_comp_version
                (word h.boot_cpuid_phys (word h.size_dt_strings (word h.size_dt_struct rest)))))))))

-- Each field that is read fits its word.
pub record AreWords (h : Fields) : Type 0 where
  pub magic : h.magic < 2 ^ 32
  pub off_dt_struct : h.off_dt_struct < 2 ^ 32
  pub off_dt_strings : h.off_dt_strings < 2 ^ 32
  pub off_mem_rsvmap : h.off_mem_rsvmap < 2 ^ 32
  pub last_comp_version : h.last_comp_version < 2 ^ 32
  pub size_dt_strings : h.size_dt_strings < 2 ^ 32
  pub size_dt_struct : h.size_dt_struct < 2 ^ 32

-- The blocks are where the header at `p` says.
pub record Blocks (m : Memory) (p : ℕ) (h : Fields) : Type 0 where
  pub struct_start : get_struct_start_address m (record { address = p }) ≡ p + h.off_dt_struct
  pub struct_end :
      get_struct_end_address m (record { address = p }) ≡ p + h.off_dt_struct + h.size_dt_struct
  pub string_start : get_string_start_address m (record { address = p }) ≡ p + h.off_dt_strings
  pub string_end :
      get_string_end_address m (record { address = p }) ≡ p + h.off_dt_strings + h.size_dt_strings
  pub reservation_start :
      get_memory_reservation_start_address m (record { address = p }) ≡ p + h.off_mem_rsvmap

module _ {m : Memory} {p : ℕ} (h : Fields) (rest : List ℕ) (fits : AreWords h)
    (held : At m p (enc_header h rest)) where
  read_magic : magic m p ≡ h.magic
  unfolding magic
  read_magic = At-word fits.magic held

  read_off_dt_struct : off_dt_struct m p ≡ h.off_dt_struct
  unfolding off_dt_struct
  read_off_dt_struct =
      At-word fits.off_dt_struct (At-move (omega arith) (At-behind (At-behind held)))

  read_off_dt_strings : off_dt_strings m p ≡ h.off_dt_strings
  unfolding off_dt_strings
  read_off_dt_strings =
      At-word fits.off_dt_strings (At-move (omega arith) (At-behind (At-behind (At-behind held))))

  -- What stands behind the first four words.
  behind_four : At m (p + 16) (
      word h.off_mem_rsvmap (
        word h.version (
          word h.last_comp_version
            (word h.boot_cpuid_phys (word h.size_dt_strings (word h.size_dt_struct rest))))))
  behind_four = At-move (omega arith) (At-behind (At-behind (At-behind (At-behind held))))

  read_off_mem_rsvmap : off_mem_rsvmap m p ≡ h.off_mem_rsvmap
  unfolding off_mem_rsvmap
  read_off_mem_rsvmap = At-word fits.off_mem_rsvmap behind_four

  read_last_comp_version : last_comp_version m p ≡ h.last_comp_version
  unfolding last_comp_version
  read_last_comp_version =
      At-word fits.last_comp_version (At-move (omega arith) (At-behind (At-behind behind_four)))

  behind_eight : At m (p + 32) (word h.size_dt_strings (word h.size_dt_struct rest))
  behind_eight = At-move (omega arith) (At-behind (At-behind (At-behind (At-behind behind_four))))

  read_size_dt_strings : size_dt_strings m p ≡ h.size_dt_strings
  unfolding size_dt_strings
  read_size_dt_strings = At-word fits.size_dt_strings behind_eight

  read_size_dt_struct : size_dt_struct m p ≡ h.size_dt_struct
  unfolding size_dt_struct
  read_size_dt_struct = At-word fits.size_dt_struct (At-move (omega arith) (At-behind behind_eight))

  -- Where memory holds a header whose fields fit their words, `Dtb::new` takes it exactly when it has
  -- the magic number and is compatible with version 17 or an earlier one, and keeps its address.
  pub new_iff :
      (d : DtbHeader)
      → (new m p ≡ ok d) ↔ ((h.magic ≡ 0xd00d_feed) × (h.last_comp_version ≤ 17) × (d.address ≡ p))
  unfolding new
  new_iff d = ground (arith, read_magic, read_last_comp_version)

  -- Where memory holds a header whose fields fit their words, each block starts, and ends, where the
  -- offset and the size in the header say.
  pub enc_header-Blocks : Blocks m p h
  unfolding get_struct_start_address get_struct_end_address get_string_start_address
      get_string_end_address get_memory_reservation_start_address
  enc_header-Blocks = record {
    struct_start = omega (arith, read_off_dt_struct);
    struct_end = omega (arith, read_off_dt_struct, read_size_dt_struct);
    string_start = omega (arith, read_off_dt_strings);
    string_end = omega (arith, read_off_dt_strings, read_size_dt_strings);
    reservation_start = omega (arith, read_off_mem_rsvmap);
  }

  -- Where memory holds a header whose fields fit their words, `Dtb::new` takes it exactly when it has
  -- the magic number and is compatible with version 17 or an earlier one, and keeps its address. Each
  -- block then starts, and ends, where the offset and the size in the header say.
  pub enc_header-read :
      ((d : DtbHeader)
        → (new m p ≡ ok d)
          ↔ ((h.magic ≡ 0xd00d_feed) × (h.last_comp_version ≤ 17) × (d.address ≡ p)))
      × Blocks m p h
  enc_header-read = (new_iff, enc_header-Blocks)
