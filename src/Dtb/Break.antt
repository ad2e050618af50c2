-- ===== src/Dtb/Break.antt =====
-- Where the first loop of `find_node_recursive` of dtb/src/lib.rs stops, and so where a search stands
-- that the callback breaks off.
pub mod Walks
use rpi5_baremetal.Base.{
  ◌>>?◌, ℕ, zero, suc, ◌+◌, ◌≡◌, refl, ap, ◌⊎◌, inl, inr, true, false, Bool-cases, List, ◌∷◌,
  Outcome, panicked, out_of_fuel, Option, some, none, ok, err, >>=-eq-ok, arith,
}
use mathlib.Core.Path.{subst}
use rpi5_baremetal.Dtb.BigEndian.{Result, not_at_end, read_char_str}
use rpi5_baremetal.Dtb.DeviceNode.{SimpleDeviceNode}
use rpi5_baremetal.Dtb.AddressIter.{
  ControlFlow, continue, break, Callback, Item, visit, next_internal,
}
use rpi5_baremetal.Dtb.Token.{Token, begin_node, end_node, prop, nop, end, unknown, get_types}
use rpi5_baremetal.Dtb.Parser.{
  Props, Walk, Search, read_prop, read_props, open_node, report, find_node_recursive, read_children,
  at_end, find_node,
}

-- The tokens at which the first loop of `find_node_recursive` stops.
abbrev pub IsNodeToken : Token → Type 0
IsNodeToken t = (t ≡ begin_node) ⊎ (t ≡ end_node)

module _ (env : Search) where
  -- One round of the loop, at a token: `rest` is what the next rounds give.
  read_props_step :
      (t : Token) (fuel : ℕ) (parents : List SimpleDeviceNode) (s : Props) {s' : Props}
      → ((s1 : Props)
          → read_props env fuel parents s1 ≡ ok s'
          → IsNodeToken (get_types env.memory s'.pointer))
      → get_types env.memory s.pointer ≡ t
      → read_props env (suc fuel) parents s ≡ ok s'
      → IsNodeToken (get_types env.memory s'.pointer)
  unfolding read_props
  read_props_step begin_node fuel parents s rest e h = ground arith
  read_props_step end_node fuel parents s rest e h = ground arith
  read_props_step prop fuel parents s rest e h =
      let h' = rw (e, read_props) at h in
      let (s1, _, more) = >>=-eq-ok (read_prop env parents s) _ h' in rest s1 more
  read_props_step nop fuel parents s rest e h = rest _ (rw (e, read_props) at h)
  read_props_step end fuel parents s rest e h = cc (rw (e, read_props) at h)
  read_props_step unknown fuel parents s rest e h = cc (rw (e, read_props) at h)

  read_props-IsNodeToken :
      (fuel : ℕ) (parents : List SimpleDeviceNode) (s : Props) {s' : Props}
      → read_props env fuel parents s ≡ ok s'
      → IsNodeToken (get_types env.memory s'.pointer)
  unfolding read_props
  read_props-IsNodeToken zero parents s h = cc
  read_props-IsNodeToken (suc fuel) parents s h =
      read_props_step (get_types env.memory s.pointer) fuel parents s
        (λ s1. read_props-IsNodeToken fuel parents s1) refl h

  open_node_step :
      (t : Token) (fuel : ℕ) (parents : List SimpleDeviceNode) (p : ℕ) {s' : Props}
      → get_types env.memory p ≡ t
      → open_node env fuel parents p ≡ ok s'
      → IsNodeToken (get_types env.memory s'.pointer)
  unfolding open_node
  open_node_step begin_node fuel parents p e h =
      let h' = rw (e, open_node) at h in
      let (name, _, more) = >>=-eq-ok (read_char_str env.limit env.memory (p + 4)) _ h' in
      read_props-IsNodeToken fuel parents _ more
  open_node_step end_node fuel parents p e h = cc (rw (e, open_node) at h)
  open_node_step prop fuel parents p e h = cc (rw (e, open_node) at h)
  open_node_step nop fuel parents p e h = cc (rw (e, open_node) at h)
  open_node_step end fuel parents p e h = cc (rw (e, open_node) at h)
  open_node_step unknown fuel parents p e h = cc (rw (e, open_node) at h)

  pub open_node-IsNodeToken :
      (fuel : ℕ) (parents : List SimpleDeviceNode) (p : ℕ) {s' : Props}
      → open_node env fuel parents p ≡ ok s'
      → IsNodeToken (get_types env.memory s'.pointer)
  open_node-IsNodeToken fuel parents p h =
      open_node_step (get_types env.memory p) fuel parents p refl h
