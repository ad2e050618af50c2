-- ===== src/Dtb/Walk/Correct.antt =====
-- The recursion of the parser of dtb/src/lib.rs against the walk over the tree, by induction on the
-- tree.
use rpi5_baremetal.Base.{>>?-cong, ℕ, zero, suc, ◌+◌, ◌≤◌, ◌≡◌, refl, ap, sym, List, ◌∷◌, ok, arith}
use rpi5_baremetal.Dtb.BigEndian.{Memory}
use rpi5_baremetal.Dtb.DeviceNode.{SimpleDeviceNode}
use rpi5_baremetal.Dtb.AddressIter.{Callback}
use rpi5_baremetal.Dtb.Token.{end_node, nop, get_types, token_of}
use rpi5_baremetal.Dtb.Parser.{
  Search, string_start, open_node, report, find_node_recursive, read_children,
}
use rpi5_baremetal.Dtb.Layout.{
  Item, node, Node, nil, cons, nop_then, Nodes, enc_node, enc_nodes, size, size_nodes, Fits,
  FitsNodes,
}
use rpi5_baremetal.Dtb.Layout.Bytes.{read_char_str-eq, At, At-token, At-behind, At-move, At-c_str}
use rpi5_baremetal.Dtb.Walk.Properties.{At-items, walk_items-pointer, read_props-At}
use rpi5_baremetal.Dtb.Threading.{flow_cong}
use rpi5_baremetal.Dtb.Walk.Positions.{At-name, At-node, At-begin, At-StartsNode, walk_node-pointer}
use rpi5_baremetal.Dtb.Walk.{start, walk_items, walk_node, walk_nodes}

At-end : {m : Memory} {p : ℕ} {bs : List ℕ} → At m p (0 ∷ 0 ∷ 0 ∷ 2 ∷ bs) → get_types m p ≡ end_node
unfolding token_of
At-end h = At-token refl h

At-nop : {m : Memory} {p : ℕ} {bs : List ℕ} → At m p (0 ∷ 0 ∷ 0 ∷ 4 ∷ bs) → get_types m p ≡ nop
unfolding token_of
At-nop h = At-token refl h

module _ {S : Type 0} (env : Search) (f : Callback S) where
  abbrev pub InMemory : Node → Type 0
  InMemory n = Fits env.limit env.memory (string_start env) n

  abbrev AllInMemory : Nodes → Type 0
  AllInMemory ns = FitsNodes env.limit env.memory (string_start env) ns

  open_node-At :
      (name : List ℕ) (is : List Item) (subs : Nodes) (fuel : ℕ) (parents : List SimpleDeviceNode)
      (p : ℕ) (rest : List ℕ)
      → size (node name is subs) ≤ suc fuel
      → InMemory (node name is subs)
      → At env.memory p (enc_node (node name is subs) rest)
      → open_node env fuel parents p ≡ walk_items env parents (start p name) is
  unfolding open_node enc_node size Fits
  open_node-At name is subs fuel parents p rest enough (chars, short, utf8, items, starts, fits) h =
      rw
        (
          At-begin (node name is subs) rest h,
          open_node,
          read_char_str-eq _ _ _ (At-c_str env.limit name _ chars short (At-behind h)) utf8,
        )
        (read_props-At env parents is fuel (start p name) _ (omega arith)
          (At-name name _ (At-behind h)) items
          (λ q e.
            At-StartsNode subs rest starts
              (At-move (sym e) (At-items is _ (At-name name _ (At-behind h))))))

  mutual
    unfolding find_node_recursive walk_node enc_node size Fits

    pub find_node_recursive-At :
        (n : Node) (fuel : ℕ) (parents : List SimpleDeviceNode) (p : ℕ) (s : S) (rest : List ℕ)
        → size n ≤ fuel
        → InMemory n
        → At env.memory p (enc_node n rest)
        → find_node_recursive env f fuel parents p s ≡ walk_node env f parents p n s
    find_node_recursive-At (node name is subs) zero parents p s rest enough fits h =
        absurd (omega arith)
    find_node_recursive-At (node name is subs) (suc fuel) parents p s rest enough fits h =
        rw (open_node-At name is subs fuel parents p rest enough fits h) (
          >>?-cong (s, walk_items env parents (start p name) is)
            (λ s1 props e. >>?-cong (report env f parents props s1) (λ s2 flow e2.
              let items : walk_items env parents (start p name) is ≡ ok props = ap (λ x. x.1) e in
              flow_cong flow _ _ _ (λ _.
                read_children-At subs fuel (props.node ∷ parents) props.pointer s2 rest
                  (omega arith) fits.5
                  (At-move (sym (walk_items-pointer env parents is (start p name) items))
                    (At-items is _ (At-name name _ (At-behind h))))))))

    read_children-At :
        (ns : Nodes) (fuel : ℕ) (parents : List SimpleDeviceNode) (p : ℕ) (s : S) (rest : List ℕ)
        → size_nodes ns ≤ fuel
        → AllInMemory ns
        → At env.memory p (enc_nodes ns (0 ∷ 0 ∷ 0 ∷ 2 ∷ rest))
        → read_children env f fuel parents p s ≡ walk_nodes env f parents p ns s
    read_children-At nil zero parents p s rest enough fits h = absurd (omega arith)
    read_children-At (nop_then ns) zero parents p s rest enough fits h = absurd (omega arith)
    read_children-At (cons n ns) zero parents p s rest enough fits h = absurd (omega arith)
    read_children-At nil (suc fuel) parents p s rest enough fits h = rw (At-end h, read_children)
    read_children-At (nop_then ns) (suc fuel) parents p s rest enough fits h =
        rw (At-nop h, read_children)
          (read_children-At ns fuel parents (p + 4) s rest (omega arith) fits (At-behind h))
    read_children-At (cons n ns) (suc fuel) parents p s rest enough fits h =
        rw
          (
            At-begin n _ h,
            read_children,
            find_node_recursive-At n fuel parents p s _ (omega arith) fits.0 h,
          )
          (>>?-cong (walk_node env f parents p n s) (λ s1 w e. flow_cong w.flow _ _ _ (λ c.
            read_children-At ns fuel parents w.pointer s1 rest (omega arith) fits.1
              (At-move (sym (walk_node-pointer env f n parents p s e c)) (At-node n _ h)))))
