-- ===== src/Dtb/Address/Shift.antt =====
-- What every success of `calculate_address_internal` of dtb/src/lib.rs has in common, and what it
-- makes of an empty `ranges`.
use rpi5_baremetal.Base.{
  ℕ, ◌+◌, ◌^◌, ◌≤◌, ◌<◌, ◌≡◌, ◌≢◌, sym, ap, ◌∙◌, none, some, Option, List, [], ◌∷◌, ok, >>=-eq-ok,
  arith,
}
use rpi5_baremetal.Dtb.BigEndian.{Memory, Result, read_u32_from_ptr, read_regs}
use rpi5_baremetal.Dtb.DeviceNode.{SimpleDeviceNode, Query, Arm, is_ranges, match_name}
use native.Mathlib.Nat.{add-zero}
use rpi5_baremetal.Dtb.Layout.Bytes.{At, At-word, At-head, At-behind}
use rpi5_baremetal.Dtb.Address.Translate.{through_range_iff}
use rpi5_baremetal.Dtb.Address.{Round, through, read_round_internal, calculate_address_internal}

-- A level that passes two blocks shifts both by the same distance, and keeps their lengths.
pub record Shifts (a b up_a up_b len len' : ℕ) : Type 0 where
  pub same_shift : up_a + b ≡ up_b + a
  pub same_len : len' ≡ len

through-Shifts :
    (r : Option Round) (a len b len_b : ℕ) {up_a len_a' up_b len_b' : ℕ}
    → through r (a, len) ≡ ok (up_a, len_a')
    → through r (b, len_b) ≡ ok (up_b, len_b')
    → Shifts a b up_a up_b len len_a'
unfolding through
through-Shifts none a len b len_b h k = ground arith
through-Shifts (some r) a len b len_b h k =
    ground (arith, (through_range_iff r a len _ _).0 h, (through_range_iff r b len_b _ _).0 k)

abbrev address_of : Result (ℕ × ℕ) → ℕ
address_of (ok a) = a.0
address_of _ = 0

module _ (m : Memory) where
  -- Two blocks of one node that both translate move by the same distance, and the length of the
  -- first is kept.
  pub calculate_address_internal-Shifts :
      (parents : List SimpleDeviceNode) (node : SimpleDeviceNode) (a len b len_b : ℕ)
      {up_a len_a' up_b len_b' : ℕ}
      → calculate_address_internal m parents node (a, len) ≡ ok (up_a, len_a')
      → calculate_address_internal m parents node (b, len_b) ≡ ok (up_b, len_b')
      → Shifts a b up_a up_b len len_a'
  unfolding calculate_address_internal
  calculate_address_internal-Shifts [] node a len b len_b h k =
      let (r, e, h') = >>=-eq-ok (read_round_internal m [] node) _ h in
      through-Shifts r a len b len_b h' (rw (e, calculate_address_internal) at k)
  calculate_address_internal-Shifts (parent ∷ parents) node a len b len_b h k =
      let (r, e, h') = >>=-eq-ok (read_round_internal m (parent ∷ parents) node) _ h in
      let k' = rw (e, calculate_address_internal) at k in
      let (mid_a, into_a, h2) = >>=-eq-ok (through r (a, len)) _ h' in
      let (mid_b, into_b, k2) = >>=-eq-ok (through r (b, len_b)) _ k' in
      let here = through-Shifts r a len b len_b into_a into_b in
      let above =
        calculate_address_internal-Shifts parents parent mid_a.0 mid_a.1 mid_b.0 mid_b.1 h2 k2 in
      omega (arith, here.same_shift, here.same_len, above.same_shift, above.same_len)

  read_regs-one :
      (a n : ℕ)
      → n ≡ 1
      → ((read_regs m a n).value ≡ read_u32_from_ptr m a) × ((read_regs m a n).consumed ≡ 4)
  unfolding read_regs
  read_regs-one a n e = rw (e, read_regs) (rw add-zero (omega arith), omega arith)

  -- With a node behind it, the first entry of an empty `ranges` is the token and the node's name.
  record Misread (node : SimpleDeviceNode) (parents : List SimpleDeviceNode) : Type 0 where
    round : Round
    is_read : read_round_internal m parents node ≡ ok (some round)
    child_one : round.child_address ≡ 1
    parent_name : 2 ^ 24 ≤ round.parent_address

  misread :
      (root node : SimpleDeviceNode) (parents : List SimpleDeviceNode) (r c : ℕ) (bs : List ℕ)
      → At m r (0 ∷ 0 ∷ 0 ∷ 1 ∷ c ∷ bs)
      → 0 < c
      → node.ranges ≡ some r
      → node.address_cells ≡ 1
      → root.address_cells ≡ 1
      → Misread node (root ∷ parents)
  unfolding read_round_internal read_u32_from_ptr
  misread root node parents r c bs h pos e one one_up =
      let child = read_regs m r node.address_cells in
      let up = read_regs m (r + child.consumed) root.address_cells in
      record {
        round = record {
          child_address = child.value;
          parent_address = up.value;
          parent_len = (read_regs m (r + child.consumed + up.consumed) node.size_cells).value;
        };
        is_read = rw (e, read_round_internal);
        child_one = (read_regs-one r node.address_cells one).0 ∙ At-word (omega arith) h;
        parent_name =
            rw (read_regs-one (r + child.consumed) root.address_cells one_up).0 (
              rw (read_regs-one r node.address_cells one).1 (omega (arith, At-head (At-behind h))));
      }

  -- Above a root with no `ranges` nothing is left to translate.
  at_root_same :
      (root : SimpleDeviceNode) (address : ℕ × ℕ)
      → root.ranges ≡ none
      → calculate_address_internal m [] root address ≡ ok address
  unfolding calculate_address_internal read_round_internal through
  at_root_same root address e = rw (e, read_round_internal)

  -- `ranges` is empty, which says that two buses share their addresses; a node with a name stands
  -- behind it, and the bus and the root, which has no `ranges`, have one cell for an address.
  -- Then an address that translates, after `match_name` has recorded the property, is not
  -- translated to itself: the words behind the property are read as an entry.
  pub empty_ranges-ne :
      (limit : ℕ) (q : Query) (root node : SimpleDeviceNode) (r c a len b len' : ℕ) (bs : List ℕ)
      (arm : Arm)
      → match_name limit m q (root ∷ []) is_ranges (record { address = r; len = 0 }) node ≡ ok arm
      → At m r (0 ∷ 0 ∷ 0 ∷ 1 ∷ c ∷ bs)
      → 0 < c
      → node.address_cells ≡ 1
      → root.address_cells ≡ 1
      → root.ranges ≡ none
      → calculate_address_internal m (root ∷ []) arm.node (a, len) ≡ ok (b, len')
      → b ≢ a
  unfolding match_name calculate_address_internal read_round_internal through
  empty_ranges-ne limit q root node r c a len b len' bs arm parsed h pos one one_up no_ranges ok_b
        same =
      let wrong = misread root arm.node [] r c bs h pos (ground arith) (ground arith) one_up in
      let (mid, into, out) =
        >>=-eq-ok (through (some wrong.round) (a, len)) _
          (rw (wrong.is_read, calculate_address_internal) at ok_b) in
      let shift = (through_range_iff wrong.round a len mid.0 mid.1).0 into in
      let mid_b : mid.0 ≡ b =
        ap (λ x. address_of x) (sym (at_root_same root mid no_ranges) ∙ out) in
      omega (arith, shift.4, wrong.child_one, wrong.parent_name, mid_b)
