-- ===== src/Dtb/Ends/Items.antt =====
-- An item of the iterator of dtb/src/lib.rs over a `reg`, and what remains behind it.
use rpi5_baremetal.Base.{
  ℕ, ◌+◌, ◌≡◌, ◌==◌, ◌||◌, refl, ap, sym, ◌∙◌, inl, inr, Bool-cases, Option, none, some, List, [],
  ◌∷◌, ltb, ok, err, >>=-eq-ok, arith,
}
use rpi5_baremetal.Dtb.BigEndian.{Memory, reg_is_none}
use rpi5_baremetal.Dtb.DeviceNode.{SimpleDeviceNode}
use rpi5_baremetal.Dtb.Address.{
  Round, add_usize, sub_usize, rebase, through_range, through, read_reg_internal,
  read_round_internal, calculate_address_internal,
}
use rpi5_baremetal.Dtb.AddressIter.{
  Item, ok_or_none, stride, take_from, get_or_insert, next_item, next_internal,
}
use rpi5_baremetal.Dtb.Ends.{Ends, >>=-Ends}

add_usize-Ends : (a b : ℕ) → Ends (add_usize a b)
unfolding add_usize
add_usize-Ends a b h = ground arith

sub_usize-Ends : (a b : ℕ) → Ends (sub_usize a b)
unfolding sub_usize
sub_usize-Ends a b h = ground arith

rebase-Ends : (r : Round) (a : ℕ × ℕ) → Ends (rebase r a)
unfolding rebase
rebase-Ends r (address, len) =
    >>=-Ends (sub_usize address r.child_address) (sub_usize-Ends address r.child_address)
      (λ offset _.
        >>=-Ends (add_usize offset r.parent_address) (add_usize-Ends offset r.parent_address)
          (λ up _ h. cc h))

through_range-Ends : (r : Round) (a : ℕ × ℕ) → Ends (through_range r a)
unfolding through_range
through_range-Ends r (address, len) =
    >>=-Ends (add_usize r.child_address r.parent_len) (add_usize-Ends r.child_address r.parent_len)
      (λ range_end _.
        >>=-Ends (add_usize address len) (add_usize-Ends address len) (λ address_end _.
          elim (Bool-cases (ltb range_end address_end)) [
            | inl over ↦ rw over (λ h. cc h)
            | inr inside ↦ rw inside (rebase-Ends r (address, len))
          ]))

through-Ends : (r : Option Round) (a : ℕ × ℕ) → Ends (through r a)
unfolding through
through-Ends none a = λ h. cc h
through-Ends (some r) a = through_range-Ends r a

ok_or_none-Ends : {A : Type 0} (x : Option A) → Ends (ok_or_none x)
unfolding ok_or_none
ok_or_none-Ends none h = cc h
ok_or_none-Ends (some a) h = cc h

stride-Ends : (parents : List SimpleDeviceNode) → Ends (stride parents)
unfolding stride
stride-Ends [] h = cc h
stride-Ends (parent ∷ parents) h = cc h

take_from-Ends : (remain step : ℕ) → Ends (take_from remain step)
unfolding take_from
take_from-Ends remain step h = ground arith

take_from-eq : (remain step left : ℕ) → take_from remain step ≡ ok left → left + step ≡ remain
unfolding take_from
take_from-eq remain step left h = ground arith

module _ (m : Memory) where
  reg-Ends :
      (parents : List SimpleDeviceNode) (node : SimpleDeviceNode) (offset : ℕ)
      (reg : Option (ℕ × ℕ))
      → node.reg ≡ reg
      → Ends (read_reg_internal m parents node offset)
  unfolding read_reg_internal
  reg-Ends parents node offset none e = rw e (λ h. cc h)
  reg-Ends [] node offset (some reg) e = rw e (λ h. cc h)
  reg-Ends (parent ∷ parents) node offset (some reg) e =
      elim (Bool-cases (ltb 2 parent.address_cells || ltb 2 parent.size_cells)) [
        | inl wide ↦ rw (e, wide) (λ h. cc h)
        | inr small ↦ rw (e, small) (λ h. cc h)
      ]

  ranges-Ends :
      (parents : List SimpleDeviceNode) (node : SimpleDeviceNode) (ranges : Option ℕ)
      → node.ranges ≡ ranges
      → Ends (read_round_internal m parents node)
  unfolding read_round_internal
  ranges-Ends parents node none e = rw e (λ h. cc h)
  ranges-Ends [] node (some r) e = rw e (λ h. cc h)
  ranges-Ends (parent ∷ parents) node (some r) e = rw e (λ h. cc h)

  calculate_address_internal-Ends :
      (parents : List SimpleDeviceNode) (node : SimpleDeviceNode) (a : ℕ × ℕ)
      → Ends (calculate_address_internal m parents node a)
  unfolding calculate_address_internal
  calculate_address_internal-Ends [] node a =
      >>=-Ends (read_round_internal m [] node) (ranges-Ends [] node node.ranges refl)
        (λ r _. through-Ends r a)
  calculate_address_internal-Ends (parent ∷ parents) node a =
      >>=-Ends (read_round_internal m (parent ∷ parents) node)
        (ranges-Ends (parent ∷ parents) node node.ranges refl)
        (λ r _.
          >>=-Ends (through r a) (through-Ends r a)
            (λ up _. calculate_address_internal-Ends parents parent up))

  module _ (parents : List SimpleDeviceNode) (node : SimpleDeviceNode) where
    next_item-Ends : (size remain : ℕ) → Ends (next_item m parents node size remain)
    unfolding next_item
    next_item-Ends size remain =
        >>=-Ends (read_reg_internal m parents node _) (reg-Ends parents node _ node.reg refl)
          (λ entry _. >>=-Ends (ok_or_none entry) (ok_or_none-Ends entry) (λ entry' _.
            >>=-Ends (calculate_address_internal m parents node entry')
              (calculate_address_internal-Ends parents node entry')
              (λ result _. >>=-Ends (stride parents) (stride-Ends parents) (λ step _.
                >>=-Ends (take_from remain step) (take_from-Ends remain step) (λ left _ h. cc h)))))

    -- An item takes a step off what remains.
    next_item-remain :
        (size remain : ℕ) (item : Item)
        → next_item m parents node size remain ≡ ok item
        → (step : ℕ) × (stride parents ≡ ok step) × (item.remain + step ≡ remain)
    unfolding next_item
    next_item-remain size remain item h =
        let (entry, _, h1) = >>=-eq-ok (read_reg_internal m parents node _) _ h in
        let (entry', _, h2) = >>=-eq-ok (ok_or_none entry) _ h1 in
        let (result, _, h3) = >>=-eq-ok (calculate_address_internal m parents node entry') _ h2 in
        let (step, stepped, h4) = >>=-eq-ok (stride parents) _ h3 in
        let (left, taken, h5) = >>=-eq-ok (take_from remain step) _ h4 in
        let same : left ≡ item.remain = cc h5 in
        (step, stepped, sym (ap (λ l. l + step) same) ∙ take_from-eq remain step left taken)

    pub next_internal-Ends : (remain : Option ℕ) → Ends (next_internal m parents node remain)
    unfolding next_internal
    next_internal-Ends remain = >>=-Ends (ok_or_none node.reg) (ok_or_none-Ends node.reg) (λ reg _.
        elim (Bool-cases (get_or_insert remain reg.1 == 0)) [
          | inl over ↦ rw over (λ h. cc h)
          | inr more ↦ rw more (
              >>=-Ends (next_item m parents node reg.1 (get_or_insert remain reg.1))
                (next_item-Ends reg.1 (get_or_insert remain reg.1)) (λ item _ h. cc h))
        ])

    pub next_internal-remain :
        (remain : ℕ) (item : Item)
        → next_internal m parents node (some remain) ≡ ok (some item)
        → (step : ℕ) × (stride parents ≡ ok step) × (item.remain + step ≡ remain)
    unfolding next_internal get_or_insert
    next_internal-remain remain item h =
        let (reg, _, h1) = >>=-eq-ok (ok_or_none node.reg) _ h in
        elim (Bool-cases (remain == 0)) [
          | inl over ↦ absurd (cc (rw over at h1))
          | inr more ↦
              let (item', given, h2) =
                >>=-eq-ok (next_item m parents node reg.1 remain) _ (rw more at h1) in
              next_item-remain reg.1 remain item (cc (given, h2))
        ]

    pub next_internal-none :
        (reg : ℕ × ℕ)
        → node.reg ≡ some reg
        → next_internal m parents node none ≡ next_internal m parents node (some reg.1)
    unfolding next_internal get_or_insert ok_or_none
    next_internal-none reg e = rw e refl

    pub no_reg : node.reg ≡ none → next_internal m parents node none ≡ err reg_is_none
    unfolding next_internal ok_or_none
    no_reg e = rw e refl
