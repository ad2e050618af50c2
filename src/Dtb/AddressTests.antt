-- ===== src/Dtb/AddressTests.antt =====
-- The header, reads and translations of dtb/src/lib.rs on a few words in memory.
use rpi5_baremetal.Base.{
  ℕ, ◌+◌, ◌-◌, ◌*◌, ◌%◌, ◌^◌, ◌≤◌, ◌<◌, ◌≡◌, ◌≢◌, ◌↔◌, refl, none, some, List, [], ◌∷◌, ok,
  out_of_fuel, arith,
}
use rpi5_baremetal.Dtb.Reserve.Entries.{ReserveEntry, enc_entries, IsRead, reserve_entry-IsRead}
use rpi5_baremetal.Dtb.Samples.{holding, holding-IsBytes, words, collect, holding-At}
use rpi5_baremetal.Dtb.BigEndian.{Memory, read_u32_from_ptr, read_regs_loop, read_regs}
use rpi5_baremetal.Dtb.Regs.{IsBytes, cells_value, read_regs-value}
use rpi5_baremetal.Dtb.DeviceNode.{SimpleDeviceNode, match_name}
use rpi5_baremetal.Dtb.Address.{
  Round, rebase, add_usize, sub_usize, through_range, through, read_round_internal,
  calculate_address_internal,
}
use rpi5_baremetal.Dtb.Address.Translate.{
  through_range_iff, Climbs, to_parent, at_root, calculate_address_internal-Climbs,
}
use rpi5_baremetal.Dtb.Address.Shift.{empty_ranges-ne}
use rpi5_baremetal.Dtb.AddressIter.{visit}
use rpi5_baremetal.Dtb.Parser.{Search}
use rpi5_baremetal.Dtb.Header
use rpi5_baremetal.Dtb.Header.Blocks.{Fields, AreWords, Blocks, enc_header, enc_header-read}
use rpi5_baremetal.Dtb.AddressIter.Entries.{
  Entries, done, entry, run_all, visit-Entries, visit-stuck,
}

-- `ranges` of one entry at 0, and `reg` of two at 12.
unfoldable bytes : List ℕ
bytes = words (1 ∷ 0x100 ∷ 0x80 ∷ 5 ∷ 2 ∷ 0x11 ∷ 4 ∷ []) []

abbrev m : Memory
m = holding bytes

m-IsBytes : IsBytes m
unfolding bytes
m-IsBytes = holding-IsBytes bytes (ground arith)

read_regs-value_example :
    ((read_regs m 0 3).value ≡ cells_value m 0 3 % 2 ^ 64) × ((read_regs m 0 3).consumed ≡ 4 * 3)
read_regs-value_example = read_regs-value m 0 3 m-IsBytes

abbrev bus : Round
bus = record { child_address = 1; parent_address = 0x100; parent_len = 0x80 }

through_range_iff_example : (through_range bus (5, 2) ≡ ok (0x104, 2)) ↔ (
    (1 + 0x80 < 2 ^ 64)
    × (5 + 2 ≤ 1 + 0x80)
    × (1 ≤ 5)
    × (0x104 < 2 ^ 64)
    × (0x104 + 1 ≡ 5 + 0x100)
    × (◌≡◌ {A = ℕ} 2 2))
through_range_iff_example = through_range_iff bus 5 2 0x104 2

abbrev one_cell : SimpleDeviceNode
one_cell = record { address_cells = 1; size_cells = 1; reg = none; ranges = none }

abbrev bridge : SimpleDeviceNode
bridge = record { address_cells = 1; size_cells = 1; reg = none; ranges = some 0 }

abbrev device : SimpleDeviceNode
device = record { address_cells = 1; size_cells = 1; reg = some (12, 16); ranges = none }

bridge_level : read_round_internal m (one_cell ∷ []) bridge ≡ ok (some bus)
unfolding bytes read_round_internal read_regs read_regs_loop read_u32_from_ptr
bridge_level = refl

abbrev up : List SimpleDeviceNode
up = bridge ∷ one_cell ∷ []

climb : (a len : ℕ) → 1 ≤ a → a + len ≤ 0x81 → Climbs m len up device a (0x100 + (a - 1))
unfolding read_round_internal
climb a len above below = to_parent {r = none} refl tt (
    to_parent {r = some bus} bridge_level
      (record { above = above; below = below; child_fits = omega arith; parent_fits = omega arith })
      (at_root {r = none} refl tt))

translated :
    (a len : ℕ)
    → 1 ≤ a
    → a + len ≤ 0x81
    → calculate_address_internal m up device (a, len) ≡ ok (0x100 + (a - 1), len)
translated a len above below = calculate_address_internal-Climbs (climb a len above below)

calculate_address_internal-Climbs_example :
    calculate_address_internal m up device (5, 2) ≡ ok (0x104, 2)
calculate_address_internal-Climbs_example =
    calculate_address_internal-Climbs (climb 5 2 (omega arith) (omega arith))

two-Entries : Entries m bridge (one_cell ∷ []) device 12 16 0 ((0x104, 2) ∷ (0x110, 4) ∷ [])
unfolding bytes read_regs read_regs_loop read_u32_from_ptr
two-Entries =
    entry (translated 5 2 (omega arith) (omega arith))
      (entry (translated 0x11 4 (omega arith) (omega arith)) (done refl))

visit-Entries_example : visit m up device 3 collect (some 16) [] ≡ (
  (run_all collect ((0x104, 2) ∷ (0x110, 4) ∷ []) []).0,
  ok (run_all collect ((0x104, 2) ∷ (0x110, 4) ∷ []) []).1,
)
visit-Entries_example =
    visit-Entries m bridge (one_cell ∷ []) device 12 16 refl (omega arith) (omega arith) collect 3 0
      16 [] (omega arith) two-Entries (omega arith) (omega arith)

abbrev search : Search
search = record {
  memory = m;
  limit = 8;
  rounds = 3;
  header = record { address = 0 };
  query = record { device_name = none; compatible_name = none };
}

-- The header of a blob.
abbrev fields : Fields
fields = record {
  magic = 0xd00d_feed;
  total_size = 127;
  off_dt_struct = 40;
  off_dt_strings = 112;
  off_mem_rsvmap = 0;
  version = 17;
  last_comp_version = 16;
  boot_cpuid_phys = 0;
  size_dt_strings = 15;
  size_dt_struct = 72;
}

fields-AreWords : AreWords fields
fields-AreWords = record {
  magic = omega arith;
  off_dt_struct = omega arith;
  off_dt_strings = omega arith;
  off_mem_rsvmap = omega arith;
  last_comp_version = omega arith;
  size_dt_strings = omega arith;
  size_dt_struct = omega arith;
}

enc_header-read_example :
    ((d : Header.DtbHeader)
      → (Header.new (holding (enc_header fields [])) 0 ≡ ok d)
        ↔ ((fields.magic ≡ 0xd00d_feed) × (fields.last_comp_version ≤ 17) × (d.address ≡ 0)))
    × Blocks (holding (enc_header fields [])) 0 fields
enc_header-read_example =
    enc_header-read fields [] fields-AreWords (holding-At [] (enc_header fields []))

-- The memory of the kernel, and the entry that ends the block.
abbrev reserved : List ReserveEntry
reserved =
    record { address = 0x1_0000_0000; size = 0x8_0000 } ∷ record { address = 0; size = 0 } ∷ []

last_reserved :
    IsRead (holding (enc_entries reserved [])) (0 + 16 * 1) (record { address = 0; size = 0 })
last_reserved =
    reserve_entry-IsRead reserved [] 1 (record { address = 0; size = 0 })
      ((omega arith, omega arith), ((omega arith, omega arith), tt))
      (holding-At [] (enc_entries reserved [])) refl

-- No cells at all.
abbrev no_cells : SimpleDeviceNode
no_cells = record { address_cells = 0; size_cells = 0; reg = none; ranges = none }

visit-stuck_example : (visit m (no_cells ∷ []) device 100 collect (some 16) []).1 ≡ out_of_fuel
unfolding calculate_address_internal read_round_internal through
visit-stuck_example =
    visit-stuck m no_cells [] device 12 16 refl (omega arith) (omega arith) collect 100 16 _ []
      (λ _ _. refl) refl (omega arith) (omega arith) refl

-- An empty `ranges` with the node `m` of the name "\1" behind it.
abbrev behind : List ℕ
behind = words (1 ∷ 0x100_0000 ∷ 0x80 ∷ []) []

empty_ranges-ne_example : ◌≢◌ {A = ℕ} 0x100_0004 5
unfolding match_name calculate_address_internal read_round_internal through through_range rebase
    add_usize sub_usize read_regs read_regs_loop read_u32_from_ptr
empty_ranges-ne_example =
    empty_ranges-ne (holding behind) 8 (record { device_name = none; compatible_name = none })
      one_cell one_cell 0 1 5 2 0x100_0004 2 _ _ refl (holding-At [] behind) (omega arith) refl refl
      refl refl
