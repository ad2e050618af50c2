-- ===== src/Dtb/Tests.antt =====
-- The parser of dtb/src/lib.rs on the sample blob.
use rpi5_baremetal.Base.{
  ℕ, ◌<◌, ◌≡◌, List, All, ◌==◌, if◌then◌else◌, refl, [], ◌∷◌, codes, str_eq, ok, err, arith,
}
use rpi5_baremetal.Dtb.Samples.{
  tree, strings, head, body, by_compatible, collect, first, holding-At,
}
use rpi5_baremetal.Dtb.BigEndian.{
  not_at_end, read_u32_from_ptr, c_str, to_str, read_char_str, read_regs_loop, read_regs,
  get_name_offset, get_property_len,
}
use rpi5_baremetal.Dtb.Header.{
  off_dt_strings, off_dt_struct, size_dt_struct, get_struct_start_address, get_struct_end_address,
  get_string_start_address,
}
use rpi5_baremetal.Dtb.CharStrings.{advance, next, any_string}
use rpi5_baremetal.Dtb.DeviceNode.{
  prop_name, match_name, compatible_arm, device_name_arm, reg_arm, next_multiple_of_4, too_short,
  skip_value, parse_prop,
}
use rpi5_baremetal.Dtb.Address.{
  add_usize, sub_usize, rebase, through_range, through, read_reg_internal, read_round_internal,
  calculate_address_internal,
}
use rpi5_baremetal.Dtb.AddressIter.{
  Callback, continue, break, ok_or_none, stride, take_from, get_or_insert, next_item, next_internal,
  visit,
}
use rpi5_baremetal.Dtb.Break.Walks.{find_node-ok}
use rpi5_baremetal.Dtb.Token.{token_of, is_nop, get_types, skip_nop, name_step}
use rpi5_baremetal.Dtb.Parser.{
  Search, string_start, is_some, at_end, not_one_name, read_prop, read_props, open_node, report,
  find_node_recursive, find_node,
}
use rpi5_baremetal.Dtb.Utf8.{is_utf8}
use rpi5_baremetal.Dtb.Layout.{enc_item, enc_items, enc_node, size, Fits, FitsNodes, FitsItem}
use rpi5_baremetal.Dtb.Walk.{walk_node}
use rpi5_baremetal.Dtb.Walk.Correct.{InMemory}
use rpi5_baremetal.Dtb.Walk.Find.{walk_result, find_node-walk}

abbrev env : Search
env = by_compatible (codes "p")

finds_uart : find_node env collect 64 [] ≡ ((0x1_7d00_1000, 0x200) ∷ [], ok tt)
unfolding find_node body not_one_name skip_nop get_struct_start_address read_u32_from_ptr
    get_struct_end_address get_types open_node read_char_str c_str is_utf8 read_props enc_items
    enc_item report read_prop parse_prop string_start str_eq add_usize calculate_address_internal
    read_reg_internal read_round_internal rebase sub_usize through through_range get_or_insert
    next_internal next_item ok_or_none stride take_from visit get_name_offset get_property_len
    read_regs read_regs_loop to_str advance any_string next compatible_arm device_name_arm
    match_name next_multiple_of_4 prop_name reg_arm skip_value too_short get_string_start_address
    off_dt_strings off_dt_struct size_dt_struct enc_node at_end find_node_recursive is_some is_nop
    name_step token_of
finds_uart = refl

-- The callback that breaks off has its address, and the search reports an error.
breaks_off : find_node env first 64 [] ≡ ((0x1_7d00_1000, 0x200) ∷ [], err not_at_end)
unfolding find_node body not_one_name skip_nop get_struct_start_address read_u32_from_ptr
    get_struct_end_address get_types open_node read_char_str c_str is_utf8 read_props enc_items
    enc_item report read_prop parse_prop string_start str_eq add_usize calculate_address_internal
    read_reg_internal read_round_internal rebase sub_usize through through_range get_or_insert
    next_internal next_item ok_or_none stride take_from visit get_name_offset get_property_len
    read_regs read_regs_loop to_str advance any_string next compatible_arm device_name_arm
    match_name next_multiple_of_4 prop_name reg_arm skip_value too_short get_string_start_address
    off_dt_strings off_dt_struct size_dt_struct enc_node at_end find_node_recursive is_some is_nop
    name_step token_of
breaks_off = refl

tree-InMemory : InMemory env collect tree
unfolding Fits FitsNodes FitsItem string_start get_string_start_address off_dt_strings
    read_u32_from_ptr c_str is_utf8 body name_step enc_items enc_item
tree-InMemory = (
  tt,
  omega arith,
  refl,
  (tt, tt),
  tt,
  (
    (
      (omega arith, tt),
      omega arith,
      refl,
      ((omega arith, omega arith, refl, refl), ((omega arith, omega arith, refl, refl), tt)),
      tt,
      tt,
    ),
    tt,
  ),
)

find_node-walk_example :
    find_node env collect 64 [] ≡ walk_result (walk_node env collect [] 40 tree [])
unfolding get_struct_start_address get_struct_end_address body size not_one_name read_u32_from_ptr
find_node-walk_example =
    find_node-walk env collect tree 0 64 [] strings refl (holding-At head body) (omega arith)
      tree-InMemory (omega arith) (omega arith)

-- A callback that breaks off at a block of no bytes.
abbrev until_empty : Callback (List (ℕ × ℕ))
until_empty s a = (a ∷ s, if a.1 == 0 then break else continue)

goes_on : find_node env until_empty 64 [] ≡ ((0x1_7d00_1000, 0x200) ∷ [], ok tt)
unfolding find_node body not_one_name skip_nop get_struct_start_address read_u32_from_ptr
    get_struct_end_address get_types open_node read_char_str c_str is_utf8 read_props enc_items
    enc_item report read_prop parse_prop string_start str_eq add_usize calculate_address_internal
    read_reg_internal read_round_internal rebase sub_usize through through_range get_or_insert
    next_internal next_item ok_or_none stride take_from visit get_name_offset get_property_len
    read_regs read_regs_loop to_str advance any_string next compatible_arm device_name_arm
    match_name next_multiple_of_4 prop_name reg_arm skip_value too_short get_string_start_address
    off_dt_strings off_dt_struct size_dt_struct enc_node at_end find_node_recursive is_some is_nop
    name_step token_of
goes_on = refl

abbrev HaveBytes : List (ℕ × ℕ) → Type 0
HaveBytes = All (λ a. 0 < a.1)

find_node-ok_example : HaveBytes ((0x1_7d00_1000, 0x200) ∷ [])
find_node-ok_example =
    find_node-ok env until_empty HaveBytes (λ s a above go_on. ground arith) 64 []
      ((0x1_7d00_1000, 0x200) ∷ []) tt goes_on
