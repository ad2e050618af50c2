-- ===== src/Dtb/Walk.antt =====
-- What the parser of dtb/src/lib.rs promises: a walk over the abstract tree, in which the place of
-- each node and each value follows from the lengths of what stands before it. No token is read.
pub mod Properties
pub mod Positions
pub mod Correct
pub mod Find
use rpi5_baremetal.Base.{
  ◌>>?◌, ℕ, ◌+◌, ◌||◌, false, List, [], ◌∷◌, length, if◌then◌else◌, ok, err, ◌>>=◌,
}
use rpi5_baremetal.Dtb.BigEndian.{Memory, Result, invalid_size}
use rpi5_baremetal.Dtb.DeviceNode.{SimpleDeviceNode, prop_name, match_name, too_short}
use rpi5_baremetal.Dtb.DeviceNode
use rpi5_baremetal.Dtb.AddressIter.{ControlFlow, continue, break, Callback}
use rpi5_baremetal.Dtb.Token.{name_step}
use rpi5_baremetal.Dtb.Parser.{Props, Walk, Search, report}
use rpi5_baremetal.Dtb.Layout.{
  nop_item, property, Item, node, Node, nil, cons, nop_then, Nodes, len_item,
}

module _ (env : Search) (parents : List SimpleDeviceNode) where
  -- A property is taken by its name and the place of its value.
  unfoldable pub walk_item : Props → Item → Result Props
  walk_item s nop_item = ok (record s { pointer = s.pointer + len_item nop_item })
  walk_item s (property offset name value) =
      match_name env.limit env.memory env.query parents (prop_name name)
        (record { address = s.pointer + 12; len = length value }) s.node
      >>= λ arm.
          if too_short arm.size (length value)
          then err invalid_size
          else ok (record {
            node = arm.node;
            pointer = s.pointer + len_item (property offset name value);
            find_in_this_node = arm.result || s.find_in_this_node;
          })

  unfoldable pub walk_items : Props → List Item → Result Props
  unfolding walk_item
  walk_items s [] = ok s
  walk_items s (i ∷ is) = walk_item s i >>= λ s'. walk_items s' is

-- A node behind its name.
abbrev pub start : ℕ → List ℕ → Props
start p name = record {
  node = DeviceNode.new;
  pointer = p + 4 + name_step (length name);
  find_in_this_node = false;
}

-- The properties before the children, the node's own addresses before those of its children, the
-- children in their order. The place at the end is that behind the node, or where it broke off.
module _ {S : Type 0} (env : Search) (f : Callback S) where
  unfoldable mutual
    pub walk_node : List SimpleDeviceNode → ℕ → Node → S → S × Result Walk
    walk_node parents p (node name is subs) s =
        (s, walk_items env parents (start p name) is) >>? λ s1 props.
        report env f parents props s1 >>? λ s2 flow. elim flow [
          | break ↦ (s2, ok (record { flow = break; pointer = props.pointer }))
          | continue ↦ walk_nodes (props.node ∷ parents) props.pointer subs s2
        ]

    pub walk_nodes : List SimpleDeviceNode → ℕ → Nodes → S → S × Result Walk
    walk_nodes parents p nil s = (s, ok (record { flow = continue; pointer = p + 4 }))
    walk_nodes parents p (nop_then ns) s = walk_nodes parents (p + 4) ns s
    walk_nodes parents p (cons n ns) s = walk_node parents p n s >>? λ s1 w. elim w.flow [
      | break ↦ (s1, ok w)
      | continue ↦ walk_nodes parents w.pointer ns s1
    ]
