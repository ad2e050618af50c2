-- ===== src/Dtb/DeviceNode.antt =====
-- `SimpleDeviceNode` of dtb/src/lib.rs: what is kept of a node, its properties and its addresses.
use rpi5_baremetal.Base.{
  ℕ, ◌+◌, ◌*◌, ◌/◌, ◌^◌, Bool, false, Option, none, some, List, [], ◌∷◌, ltb, ◌==◌, if◌then◌else◌,
  codes, str_eq, ok, err, panicked, ◌>>=◌,
}
use rpi5_baremetal.Dtb.BigEndian.{
  Memory, Result, reg_at_root, invalid_size, read_u32_from_ptr, read_char_str, get_property_len,
  get_name_offset,
}
use rpi5_baremetal.Dtb.CharStrings.{any_string}

-- The field `parent` is the head of the list of ancestors that every function takes: the parser
-- borrows it, and it does not change while the node is read.
pub record SimpleDeviceNode : Type 0 where
  pub address_cells : ℕ
  pub size_cells : ℕ
  pub reg : Option (ℕ × ℕ)
  pub ranges : Option ℕ

abbrev pub new : SimpleDeviceNode
new = record { address_cells = 2; size_cells = 1; reg = none; ranges = none }

-- Which arm of the `match name` is taken.
pub data PropName : Type 0 where
  is_address_cells : PropName
  is_size_cells : PropName
  is_compatible : PropName
  is_device_name : PropName
  is_reg : PropName
  is_ranges : PropName
  is_other : PropName

unfoldable pub prop_name : List ℕ → PropName
prop_name s =
    if str_eq s (codes "#address-cells")
    then is_address_cells
    else if str_eq s (codes "#size-cells")
    then is_size_cells
    else if str_eq s (codes "compatible")
    then is_compatible
    else if str_eq s (codes "device_type")
    then is_device_name
    else if str_eq s (codes "reg")
    then is_reg
    else if str_eq s (codes "ranges")
    then is_ranges
    else is_other

-- What an arm yields: the node, the local `result`, and the size that the value must have.
pub record Arm : Type 0 where
  pub node : SimpleDeviceNode
  pub result : Bool
  pub size : Option ℕ

pub record Query : Type 0 where
  pub device_name : Option (List ℕ)
  pub compatible_name : Option (List ℕ)

-- `u32::next_multiple_of(4)`, which panics where the result leaves 32 bits.
unfoldable pub next_multiple_of_4 : ℕ → Result ℕ
next_multiple_of_4 n = let up = (n + 3) / 4 * 4 in if ltb up (2 ^ 32) then ok up else panicked

-- The check behind the `match`: the value must hold the size that the arm asks for.
unfoldable pub too_short : Option ℕ → ℕ → Bool
too_short none len = false
too_short (some s) len = ltb len s

-- Where a value starts, and how long it is.
pub record Value : Type 0 where
  pub address : ℕ
  pub len : ℕ

-- The node after `parse_prop`, the value returned, and the address that it moved.
pub record Parsed : Type 0 where
  pub node : SimpleDeviceNode
  pub result : Bool
  pub address : ℕ

-- The end of `parse_prop`: the size check, and the step over the padded value.
unfoldable pub skip_value : Value → Arm → Result Parsed
unfolding too_short next_multiple_of_4
skip_value v arm =
    if too_short arm.size v.len
    then err invalid_size
    else (next_multiple_of_4 v.len >>= λ step.
        ok (record { node = arm.node; result = arm.result; address = v.address + step }))

module _ (limit : ℕ) (m : Memory) (q : Query) (parents : List SimpleDeviceNode) where
  unfoldable pub compatible_arm : Option (List ℕ) → Value → SimpleDeviceNode → Result Arm
  compatible_arm none v node = ok (record { node = node; result = false; size = none })
  compatible_arm (some name) v node =
      any_string limit m v.len name false (record { pointer = v.address; remain_size = v.len })
      >>= λ result. ok (record { node = node; result = result; size = none })

  unfoldable pub device_name_arm : Option (List ℕ) → Value → SimpleDeviceNode → Result Arm
  device_name_arm none v node = ok (record { node = node; result = false; size = none })
  device_name_arm (some name) v node = read_char_str limit m v.address >>= λ s.
      ok (record { node = node; result = str_eq name s; size = none })

  unfoldable pub reg_arm : List SimpleDeviceNode → Value → SimpleDeviceNode → Result Arm
  reg_arm [] v node = err reg_at_root
  reg_arm (parent ∷ _) v node = ok (record {
    node = record node { reg = some (v.address, v.len) };
    result = false;
    size = some (parent.address_cells * 4 + parent.size_cells * 4);
  })

  -- One arm of the `match name` of `parse_prop`.
  unfoldable pub match_name : PropName → Value → SimpleDeviceNode → Result Arm
  unfolding compatible_arm device_name_arm reg_arm
  match_name is_address_cells v node = ok (record {
    node = record node { address_cells = read_u32_from_ptr m v.address };
    result = false;
    size = some 4;
  })
  match_name is_size_cells v node = ok (record {
    node = record node { size_cells = read_u32_from_ptr m v.address };
    result = false;
    size = some 4;
  })
  match_name is_compatible v node = compatible_arm q.compatible_name v node
  match_name is_device_name v node = device_name_arm q.device_name v node
  match_name is_reg v node = reg_arm parents v node
  match_name is_ranges v node = ok (record {
    node = record node { ranges = some v.address };
    result = false;
    size = if v.len == 0 then some 0 else none;
  })
  match_name is_other v node = ok (record { node = node; result = false; size = none })

  -- `parse_prop`, at the address of an FDT_PROP token.
  unfoldable pub parse_prop : ℕ → ℕ → SimpleDeviceNode → Result Parsed
  unfolding prop_name match_name skip_value
  parse_prop strings address node =
      read_char_str limit m (strings + get_name_offset m (address + 4)) >>= λ name.
      (let v : Value = record { address = address + 12; len = get_property_len m (address + 4) } in
        match_name (prop_name name) v node >>= λ arm. skip_value v arm)
