-- ===== src/Dtb/BigEndian.antt =====
-- The module `big_endian` of dtb/src/lib.rs: reads of big-endian words, strings and the header
-- from memory, which is a byte at each address.
use rpi5_baremetal.Base.{
  ℕ, zero, suc, ◌+◌, ◌*◌, ◌%◌, ◌^◌, Option, none, some, List, [], ◌∷◌, ◌==◌, if◌then◌else◌, Outcome,
  ok, err, out_of_fuel,
}
use rpi5_baremetal.Dtb.Utf8.{is_utf8}
use mathlib.Core.Option

abbrev pub Memory : Type 0
Memory = ℕ → ℕ

-- The error texts of the parser.
pub data DtbError : Type 0 where
  invalid_magic : DtbError
  not_compatible : DtbError  -- "this dtb is not compatible with the version 17"
  not_a_str : DtbError  -- "failed to convert &Cstr to &str"
  over_flow : DtbError  -- "over flow"
  too_small : DtbError
  reg_at_root : DtbError  -- "'reg' property should not be located at the root node"
  invalid_size : DtbError
  cells_overflow : DtbError  -- "address or size cells overflow usize"
  ranges_overflow : DtbError  -- "ranges size overflow"
  reg_is_none : DtbError  -- "reg property is none"
  both_or_neither : DtbError  -- "device name and compatible name cannot be searched for …"
  not_begin_node : DtbError  -- "pointer is not begin node"
  unexpected_token : DtbError  -- "Unexpected token inside node"
  unknown_token : DtbError  -- "find an unknown or unexpected token while parsing the DTB"
  not_at_end : DtbError  -- "failed to parse all of the dtb node"

abbrev pub Result {ℓ} : Type ℓ → Type ℓ
Result A = Outcome DtbError A

-- `u32::from_be` of the word that a little-endian machine loads at the address.
unfoldable pub read_u32_from_ptr : Memory → ℕ → ℕ
read_u32_from_ptr m a = m a * 2 ^ 24 + m (a + 1) * 2 ^ 16 + m (a + 2) * 2 ^ 8 + m (a + 3)

-- `CStr::from_ptr`: the bytes up to the first NUL, which is looked for in `limit` bytes.
unfoldable pub c_str : ℕ → Memory → ℕ → Option (List ℕ)
c_str zero m a = none
c_str (suc limit) m a =
    let rest = c_str limit m (a + 1) in if m a == 0 then some [] else Option.map (λ s. m a ∷ s) rest

-- `to_str` of what `CStr::from_ptr` found.
unfoldable pub to_str : Option (List ℕ) → Result (List ℕ)
to_str none = out_of_fuel
to_str (some s) = if is_utf8 s then ok s else err not_a_str

unfoldable pub read_char_str : ℕ → Memory → ℕ → Result (List ℕ)
unfolding to_str
read_char_str limit m a = to_str (c_str limit m a)

pub record Regs : Type 0 where
  pub value : ℕ
  pub consumed : ℕ

-- The loop of `read_regs`. The shift drops what leaves the 64 bits of a `usize`.
unfoldable pub read_regs_loop : Memory → ℕ → ℕ → Regs → Regs
read_regs_loop m a zero r = r
read_regs_loop m a (suc size) r = read_regs_loop m a size (record {
  value = r.value * 2 ^ 32 % 2 ^ 64 + read_u32_from_ptr m (a + r.consumed);
  consumed = r.consumed + 4;
})

-- It always returns `Ok`.
unfoldable pub read_regs : Memory → ℕ → ℕ → Regs
unfolding read_regs_loop
read_regs m a size = read_regs_loop m a size (record { value = 0; consumed = 0 })

-- `FdtProperty`, at the address behind an FDT_PROP token.
unfoldable pub get_property_len : Memory → ℕ → ℕ
get_property_len m a = read_u32_from_ptr m a

unfoldable pub get_name_offset : Memory → ℕ → ℕ
get_name_offset m a = read_u32_from_ptr m (a + 4)
