-- ===== src/Dtb/AddressIter.antt =====
-- `DeviceAddressIter` of dtb/src/lib.rs, and the loop of `find_node_recursive` that runs it.
pub mod Entries
pub mod Reports
use rpi5_baremetal.Base.{
  ℕ, zero, suc, ◌+◌, ◌-◌, ◌*◌, Option, none, some, List, [], ◌∷◌, ltb, ◌==◌, if◌then◌else◌, ok, err,
  panicked, out_of_fuel, ◌>>=◌,
}
use rpi5_baremetal.Dtb.BigEndian.{Memory, Result, reg_is_none}
use rpi5_baremetal.Dtb.DeviceNode.{SimpleDeviceNode}
use rpi5_baremetal.Dtb.Address.{read_reg_internal, calculate_address_internal}

-- `core::ops::ControlFlow<()>`
pub data ControlFlow : Type 0 where
  continue : ControlFlow
  break : ControlFlow

-- The closure that `find_node` is given: it may change what it has captured.
abbrev pub Callback : Type 0 → Type 0
Callback S = S → ℕ × ℕ → S × ControlFlow

-- `ok_or("reg property is none")`
unfoldable pub ok_or_none {ℓ} : {A : Type ℓ} → Option A → Result A
ok_or_none none = err reg_is_none
ok_or_none (some a) = ok a

-- An address with its length, and what remains of `reg` behind it.
pub record Item : Type 0 where
  pub result : ℕ × ℕ
  pub remain : ℕ

-- The size of one entry of `reg`; the `unwrap` panics at the root. `read_reg_internal` has refused
-- cells above 2 before, so the arithmetic on `u32` does not overflow.
unfoldable pub stride : List SimpleDeviceNode → Result ℕ
stride [] = panicked
stride (parent ∷ _) = ok ((parent.address_cells + parent.size_cells) * 4)

-- `*remain -= …` on `u32`, which panics where it would go below zero.
unfoldable pub take_from : ℕ → ℕ → Result ℕ
take_from remain step = if ltb remain step then panicked else ok (remain - step)

-- `get_or_insert(size)`
unfoldable pub get_or_insert : Option ℕ → ℕ → ℕ
get_or_insert none size = size
get_or_insert (some remain) size = remain

module _ (m : Memory) (parents : List SimpleDeviceNode) (node : SimpleDeviceNode) where
  -- The body of `next_internal`, once `remain` is known not to be 0.
  unfoldable pub next_item : ℕ → ℕ → Result Item
  unfolding ok_or_none stride take_from
  next_item size remain = do
    entry ← read_reg_internal m parents node (size - remain)
    entry' ← ok_or_none entry
    result ← calculate_address_internal m parents node entry'
    step ← stride parents
    remain' ← take_from remain step
    ok (record { result = result; remain = remain' })

  -- `next_internal`; the second argument is the field `remain`.
  unfoldable pub next_internal : Option ℕ → Result (Option Item)
  unfolding next_item ok_or_none get_or_insert
  next_internal remain = ok_or_none node.reg >>= λ reg.
      (let now = get_or_insert remain reg.1 in
        if now == 0 then ok none else (next_item reg.1 now >>= λ item. ok (some item)))

  -- `for address in DeviceAddressIter::new(&prop) { if f(address?).is_break() … }`
  unfoldable pub visit : {S : Type 0} → ℕ → Callback S → Option ℕ → S → S × Result ControlFlow
  unfolding next_internal
  visit zero f remain s = (s, out_of_fuel)
  visit (suc fuel) f remain s = elim (next_internal remain) [
    | ok none ↦ (s, ok continue)
    | ok (some item) ↦ elim ((f s item.result).1) [
      | break ↦ ((f s item.result).0, ok break)
      | continue ↦ visit fuel f (some item.remain) (f s item.result).0
    ]
    | err e ↦ (s, err e)
    | panicked ↦ (s, panicked)
    | out_of_fuel ↦ (s, out_of_fuel)
  ]
