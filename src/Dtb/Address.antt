-- ===== src/Dtb/Address.antt =====
-- How `SimpleDeviceNode` of dtb/src/lib.rs reads `reg` and `ranges`, and translates an address from
-- the bus of a node to that of the root.
pub mod Translate
pub mod Shift
use rpi5_baremetal.Base.{
  ℕ, ◌+◌, ◌-◌, ◌^◌, ◌||◌, Option, none, some, List, [], ◌∷◌, ltb, if◌then◌else◌, ok, err, panicked,
  ◌>>=◌,
}
use rpi5_baremetal.Dtb.BigEndian.{Memory, Result, cells_overflow, ranges_overflow, read_regs}
use rpi5_baremetal.Dtb.DeviceNode.{SimpleDeviceNode}

-- `read_reg_internal`: the entry of `reg` at the offset, as an address and a length.
unfoldable pub read_reg_internal :
    Memory → List SimpleDeviceNode → SimpleDeviceNode → ℕ → Result (Option (ℕ × ℕ))
read_reg_internal m parents node offset = elim node.reg [
  | none ↦ ok none
  | some reg ↦ elim parents [
    | [] ↦ panicked
    | parent ∷ _ ↦
        if ltb 2 parent.address_cells || ltb 2 parent.size_cells
        then err cells_overflow
        else (let address = read_regs m (reg.0 + offset) parent.address_cells in
            let len = read_regs m (reg.0 + offset + address.consumed) parent.size_cells in
            ok (some (address.value, len.value)))
  ]
]

-- An entry of `ranges`.
pub record Round : Type 0 where
  pub child_address : ℕ
  pub parent_address : ℕ
  pub parent_len : ℕ

-- `read_round_internal`: the first entry of `ranges`.
unfoldable pub read_round_internal :
    Memory → List SimpleDeviceNode → SimpleDeviceNode → Result (Option Round)
read_round_internal m parents node = elim node.ranges [
  | none ↦ ok none
  | some r ↦ elim parents [
    | [] ↦ panicked
    | parent ∷ _ ↦
        let child = read_regs m r node.address_cells in
        let up = read_regs m (r + child.consumed) parent.address_cells in
        let len = read_regs m (r + child.consumed + up.consumed) node.size_cells in
        ok (
          some (record {
            child_address = child.value;
            parent_address = up.value;
            parent_len = len.value;
          }))
  ]
]

-- `a + b` and `a - b` on `usize`, which panic on overflow: the build that `xtask` makes and moves
-- to `build` is the debug build.
unfoldable pub add_usize : ℕ → ℕ → Result ℕ
add_usize a b = if ltb (a + b) (2 ^ 64) then ok (a + b) else panicked

unfoldable pub sub_usize : ℕ → ℕ → Result ℕ
sub_usize a b = if ltb a b then panicked else ok (a - b)

-- `(address.0 - parent.0 + parent.1, address.1)`.
unfoldable pub rebase : Round → ℕ × ℕ → Result (ℕ × ℕ)
unfolding add_usize sub_usize
rebase r (address, len) = do
  offset ← sub_usize address r.child_address
  up ← add_usize offset r.parent_address
  ok (up, len)

-- One level of `calculate_address_internal` at a node with `ranges`: the check, then the new base.
unfoldable pub through_range : Round → ℕ × ℕ → Result (ℕ × ℕ)
unfolding add_usize rebase
through_range r (address, len) = do
  range_end ← add_usize r.child_address r.parent_len
  address_end ← add_usize address len
  if ltb range_end address_end then err ranges_overflow else rebase r (address, len)

-- The `unwrap` of what `read_round_internal` returns; `none` is a node with no `ranges`.
unfoldable pub through : Option Round → ℕ × ℕ → Result (ℕ × ℕ)
unfolding through_range
through none address = ok address
through (some r) address = through_range r address

-- `calculate_address_internal`: up through the ancestors, the root last.
unfoldable pub calculate_address_internal :
    Memory → List SimpleDeviceNode → SimpleDeviceNode → ℕ × ℕ → Result (ℕ × ℕ)
unfolding read_round_internal through
calculate_address_internal m [] node address =
    read_round_internal m [] node >>= λ r. through r address
calculate_address_internal m (parent ∷ parents) node address =
    read_round_internal m (parent ∷ parents) node >>= λ r.
    through r address >>= λ up. calculate_address_internal m parents parent up
