-- ===== src/Bootloader/DiscoveryTests.antt =====
-- The search for the debug UART of bootloader/src/main.rs in a small blob.
use rpi5_baremetal.Base.{
  ℕ, ◌+◌, ◌-◌, ◌≡◌, refl, ap, ◌∙◌, ◌>>=◌, List, [], ◌∷◌, ◌++◌, str_eq, ok, arith,
}
use rpi5_baremetal.Dtb.BigEndian.{
  read_u32_from_ptr, c_str, to_str, read_char_str, read_regs_loop, read_regs, get_name_offset,
  get_property_len,
}
use rpi5_baremetal.Dtb.Header.{
  off_dt_strings, off_dt_struct, size_dt_struct, get_struct_start_address, get_struct_end_address,
  get_string_start_address, magic, last_comp_version,
}
use rpi5_baremetal.Dtb.Header
use rpi5_baremetal.Dtb.CharStrings.{advance, next, any_string}
use rpi5_baremetal.Dtb.DeviceNode.{
  prop_name, match_name, compatible_arm, device_name_arm, reg_arm, next_multiple_of_4, too_short,
  skip_value, parse_prop,
}
use rpi5_baremetal.Dtb.Address.{
  add_usize, sub_usize, rebase, through_range, through, read_reg_internal, read_round_internal,
  calculate_address_internal,
}
use rpi5_baremetal.Dtb.AddressIter.{
  ok_or_none, stride, take_from, get_or_insert, next_item, next_internal, visit,
}
use rpi5_baremetal.Dtb.Token.{token_of, is_nop, get_types, skip_nop, name_step}
use rpi5_baremetal.Dtb.Parser.{
  string_start, is_some, at_end, not_one_name, read_prop, read_props, open_node, report,
  find_node_recursive, find_node,
}
use rpi5_baremetal.Dtb.Utf8.{is_utf8}
use rpi5_baremetal.Dtb.Layout.{enc_item, enc_items, enc_node}
use rpi5_baremetal.Dtb.Layout.{size, Fits, FitsNodes, FitsItem}
use rpi5_baremetal.Dtb.Layout.Bytes.{At}
use rpi5_baremetal.Dtb.Header.Blocks.{Fields}
use rpi5_baremetal.Dtb.Walk.Correct.{InMemory}
use rpi5_baremetal.Dtb.Samples.{holding, words, strings, holding-behind, holding-Holds}
use rpi5_baremetal.Bootloader.Boot.{unwrap, unwrap_some, uart_search, find_debug_uart}
use rpi5_baremetal.Bootloader.Boot.Discovery.{keep_all, earliest, find_debug_uart-earliest}
use rpi5_baremetal.Bootloader.Boot.Discovery.InTree.{
  at_boot, HoldsTree, reported, find_debug_uart-walk,
}
use rpi5_baremetal.Bootloader.BootSamples.{tree, blob, memory}

header_read : Header.new memory 0x2000_0000 ≡ ok (record { address = 0x2000_0000 })
unfolding blob Header.new enc_node magic last_comp_version read_u32_from_ptr enc_items enc_item
header_read = refl

uart_found :
    find_node (uart_search memory 64 8 (record { address = 0x2000_0000 })) keep_all 64 []
    ≡ (0x1_7d00_1000 ∷ [], ok tt)
unfolding find_node blob not_one_name skip_nop get_struct_start_address read_u32_from_ptr
    get_struct_end_address get_types open_node read_char_str c_str is_utf8 read_props enc_items
    enc_item report read_prop parse_prop string_start str_eq add_usize calculate_address_internal
    read_reg_internal read_round_internal rebase sub_usize through through_range get_or_insert
    next_internal next_item ok_or_none stride take_from visit get_name_offset get_property_len
    read_regs read_regs_loop to_str advance any_string next compatible_arm device_name_arm
    match_name next_multiple_of_4 prop_name reg_arm skip_value too_short get_string_start_address
    off_dt_strings off_dt_struct size_dt_struct enc_node at_end find_node_recursive is_some is_nop
    name_step token_of
uart_found = refl

pub uart_address : find_debug_uart memory 64 8 64 ≡ ok 0x1_7d00_1000
unfolding unwrap unwrap_some earliest
uart_address =
    find_debug_uart-earliest memory 64 8 64 (record { address = 0x2000_0000 }) (0x1_7d00_1000 ∷ [])
      (ok tt) header_read uart_found

abbrev fields : Fields
fields = record {
  magic = 0xd00d_feed;
  total_size = 135;
  off_dt_struct = 40;
  off_dt_strings = 120;
  off_mem_rsvmap = 0;
  version = 17;
  last_comp_version = 16;
  boot_cpuid_phys = 0;
  size_dt_strings = 15;
  size_dt_struct = 80;
}

abbrev head : List ℕ
head = words (0xd00d_feed ∷ 135 ∷ 40 ∷ 120 ∷ 0 ∷ 17 ∷ 16 ∷ 0 ∷ 15 ∷ 80 ∷ []) []

abbrev body : List ℕ
unfolding enc_node
body = enc_node tree (0 ∷ 0 ∷ 0 ∷ 9 ∷ strings)

-- The memory behind the fixed address.
behind_base : (i j : ℕ) → i ≡ j + 0x2000_0000 → memory i ≡ holding blob j
behind_base i j e = ap (holding blob) {x = i - 0x2000_0000} {y = j} (omega arith)

blob_held : At memory 0x2000_0000 (head ++ body)
unfolding enc_node blob body
blob_held = record {
  holds = holding-Holds blob memory 0x2000_0000 (λ i. behind_base (i + 0x2000_0000) i refl);
}

body_held : At memory (0x2000_0000 + 40) body
unfolding enc_node blob body
body_held = record {
  holds = holding-Holds body memory (0x2000_0000 + 40) (λ i.
      behind_base (i + (0x2000_0000 + 40)) (i + 40) (omega arith) ∙ holding-behind head body i);
}

tree-InMemory : InMemory (uart_search memory 64 8 at_boot) keep_all tree
unfolding Fits FitsNodes FitsItem blob string_start get_string_start_address off_dt_strings
    read_u32_from_ptr c_str is_utf8 name_step enc_items enc_item enc_node
tree-InMemory = (
  tt,
  omega arith,
  refl,
  (tt, tt),
  tt,
  (
    (
      (omega arith, tt),
      omega arith,
      refl,
      ((omega arith, omega arith, refl, refl), ((omega arith, omega arith, refl, refl), tt)),
      tt,
      tt,
    ),
    tt,
  ),
)

memory-HoldsTree : HoldsTree memory 64 8 fields body 0 tree strings
unfolding enc_node blob body
memory-HoldsTree = record {
  header = blob_held;
  words = record {
    magic = omega arith;
    off_dt_struct = omega arith;
    off_dt_strings = omega arith;
    off_mem_rsvmap = omega arith;
    last_comp_version = omega arith;
    size_dt_strings = omega arith;
    size_dt_struct = omega arith;
  };
  magic = refl;
  compatible = omega arith;
  tree = body_held;
  within = omega arith;
  fits = tree-InMemory;
}

find_debug_uart-walk_example : find_debug_uart memory 64 8 64 ≡ (
    unwrap (reported memory 64 8 fields 0 tree).1 >>= λ _.
    unwrap_some (earliest (reported memory 64 8 fields 0 tree).0))
unfolding size
find_debug_uart-walk_example = find_debug_uart-walk memory-HoldsTree 64 (omega arith) (omega arith)
