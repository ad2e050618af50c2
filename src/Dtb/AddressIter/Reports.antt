-- ===== src/Dtb/AddressIter/Reports.antt =====
-- What `find_node_recursive` of dtb/src/lib.rs reports of a node that was found.
use rpi5_baremetal.Base.{
  ℕ, zero, suc, ◌≤◌, ◌<◌, ◌≡◌, refl, ap, ◌∙◌, true, some, none, List, ◌∷◌, length, ok, arith,
}
use rpi5_baremetal.Dtb.BigEndian.{Memory}
use rpi5_baremetal.Dtb.DeviceNode.{SimpleDeviceNode}
use rpi5_baremetal.Dtb.AddressIter.{Callback, ok_or_none, next_internal, visit}
use rpi5_baremetal.Dtb.AddressIter.Entries.{Entries, step, run_all, visit-Entries}
use rpi5_baremetal.Dtb.Parser.{Props, Search, report}

module _ (m : Memory) (parents : List SimpleDeviceNode) (node : SimpleDeviceNode) (base size : ℕ)
    (reg : node.reg ≡ some (base, size)) where
  next_internal_first : next_internal m parents node none ≡ next_internal m parents node (some size)
  unfolding next_internal
  next_internal_first = rw (ap ok_or_none reg, next_internal) refl

  visit_first :
      {S : Type 0} (f : Callback S) (fuel : ℕ) (s : S)
      → visit m parents node (suc fuel) f none s ≡ visit m parents node (suc fuel) f (some size) s
  unfolding visit
  visit_first f fuel s = rw (next_internal_first, visit) refl

-- A node that was found, with a `reg` that is divided into whole entries, under a parent with at most
-- two cells for an address and for a size, and not none for both: if each entry translates, and the
-- rounds are more than the entries, the node's addresses are reported in their order, up to the first
-- at which the callback breaks off.
pub report-Entries :
    {S : Type 0} (env : Search) (f : Callback S) (parent : SimpleDeviceNode)
    (parents : List SimpleDeviceNode) (props : Props) (base size : ℕ) (l : List (ℕ × ℕ)) (s : S)
    → props.find_in_this_node ≡ true
    → props.node.reg ≡ some (base, size)
    → parent.address_cells ≤ 2
    → parent.size_cells ≤ 2
    → 0 < step env.memory parent parents props.node base size
    → Entries env.memory parent parents props.node base size 0 l
    → length l < env.rounds
    → report env f (parent ∷ parents) props s ≡ ((run_all f l s).0, ok (run_all f l s).1)
unfolding report
report-Entries env f parent parents props base size l s found reg small small' pos entries enough =
    rw found (all env.rounds enough)
  where
    all :
        (rounds : ℕ)
        → length l < rounds
        → visit env.memory (parent ∷ parents) props.node rounds f none s
          ≡ ((run_all f l s).0, ok (run_all f l s).1)
    all zero few = absurd (omega arith)
    all (suc rounds) few =
        visit_first env.memory (parent ∷ parents) props.node base size reg f rounds s
        ∙ visit-Entries env.memory parent parents props.node base size reg small small' f
            (suc rounds) 0 size s pos entries (omega arith) few
