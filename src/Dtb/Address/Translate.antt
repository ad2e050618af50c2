-- ===== src/Dtb/Address/Translate.antt =====
-- The translation of `calculate_address_internal` of dtb/src/lib.rs, as a map between windows.
use rpi5_baremetal.Base.{
  ℕ, ◌+◌, ◌-◌, ◌^◌, ◌≤◌, ◌<◌, ◌≡◌, ◌↔◌, refl, none, some, Option, List, [], ◌∷◌, ok, panicked,
  arith,
}
use rpi5_baremetal.Dtb.BigEndian.{Memory}
use rpi5_baremetal.Dtb.DeviceNode.{SimpleDeviceNode}
use rpi5_baremetal.Dtb.Address.{
  Round, through_range, through, read_round_internal, calculate_address_internal,
}

-- The addresses `[address, address + len)` lie in the window of the range, seen from the child,
-- and the window lies in 64 bits on both sides.
pub record InWindow (r : Round) (address len : ℕ) : Type 0 where
  pub above : r.child_address ≤ address
  pub below : address + len ≤ r.child_address + r.parent_len
  pub child_fits : r.child_address + r.parent_len < 2 ^ 64
  pub parent_fits : r.parent_address + r.parent_len < 2 ^ 64

-- In the window, the block keeps its distance from the start of the window, and its length.
pub through_range-InWindow :
    (r : Round) (address len : ℕ)
    → InWindow r address len
    → through_range r (address, len) ≡ ok (r.parent_address + (address - r.child_address), len)
unfolding through_range
through_range-InWindow r address len w = ground arith

-- The translation by a range succeeds, with an address and a length, exactly when the end of the
-- block is at or below that of the window, the block does not start below the window, the sums
-- stay in 64 bits, and the result is the block moved by the distance of the two windows.
pub through_range_iff :
    (r : Round) (address len up up_len : ℕ)
    → (through_range r (address, len) ≡ ok (up, up_len)) ↔ (
        (r.child_address + r.parent_len < 2 ^ 64)
        × (address + len ≤ r.child_address + r.parent_len)
        × (r.child_address ≤ address)
        × (up < 2 ^ 64)
        × (up + r.child_address ≡ address + r.parent_address)
        × (up_len ≡ len))
unfolding through_range
through_range_iff r address len up up_len = ground arith

-- For a block that starts below the window and ends in it or before it, where the window ends
-- within 64 bits, the translation gives no error: the subtraction panics.
pub through_range-below :
    (r : Round) (address len : ℕ)
    → r.child_address + r.parent_len < 2 ^ 64
    → address + len ≤ r.child_address + r.parent_len
    → address < r.child_address
    → through_range r (address, len) ≡ panicked
unfolding through_range
through_range-below r address len fits below short = ground arith

-- What one level does to an address, and what it asks of a block.
abbrev pub level : Option Round → ℕ → ℕ
level none address = address
level (some r) address = r.parent_address + (address - r.child_address)

abbrev pub Admits : Option Round → ℕ → ℕ → Type 0
Admits none address len = Unit
Admits (some r) address len = InWindow r address len

-- A block of `len` bytes lies in the window of every level from the node up to the root, where
-- `address` becomes `up`.
pub data Climbs (m : Memory) (len : ℕ)
    : List SimpleDeviceNode → SimpleDeviceNode → ℕ → ℕ → Type 0 where
  at_root :
      {node : SimpleDeviceNode} {r : Option Round} {address : ℕ}
      → read_round_internal m [] node ≡ ok r
      → Admits r address len
      → Climbs m len [] node address (level r address)
  to_parent :
      {parent node : SimpleDeviceNode} {parents : List SimpleDeviceNode} {r : Option Round}
      {address up : ℕ}
      → read_round_internal m (parent ∷ parents) node ≡ ok r
      → Admits r address len
      → Climbs m len parents parent (level r address) up
      → Climbs m len (parent ∷ parents) node address up

through-Admits :
    (r : Option Round) (address len : ℕ)
    → Admits r address len
    → through r (address, len) ≡ ok (level r address, len)
unfolding through
through-Admits none address len w = refl
through-Admits (some r) address len w = through_range-InWindow r address len w

-- If a block lies in the window of `ranges` of each level up to the root,
-- `calculate_address_internal` succeeds: the address is translated by one window after the other,
-- and the length is kept.
pub calculate_address_internal-Climbs :
    {m : Memory} {len : ℕ} {parents : List SimpleDeviceNode} {node : SimpleDeviceNode}
    {address up : ℕ}
    → Climbs m len parents node address up
    → calculate_address_internal m parents node (address, len) ≡ ok (up, len)
unfolding calculate_address_internal
calculate_address_internal-Climbs {len} (at_root {r = r} {address = a} e w) =
    rw (e, through-Admits r a len w)
calculate_address_internal-Climbs {len} (to_parent {r = r} {address = a} e w c) =
    rw (e, through-Admits r a len w) (calculate_address_internal-Climbs c)
