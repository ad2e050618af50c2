-- ===== src/Dtb/Walk/Positions.antt =====
-- Where a walk over nodes ends, and what stands in memory at the start of a node and behind it.
use rpi5_baremetal.Base.{
  >>?-eq-ok, ℕ, suc, ◌+◌, ◌-◌, ◌≡◌, refl, ap, ◌⊎◌, inl, inr, List, ◌∷◌, ◌++◌, length, ok, arith,
}
use rpi5_baremetal.Dtb.BigEndian.{Memory}
use rpi5_baremetal.Dtb.DeviceNode.{SimpleDeviceNode}
use rpi5_baremetal.Dtb.AddressIter.{continue, break, Callback}
use rpi5_baremetal.Dtb.Token.{begin_node, end_node, get_types, token_of, name_step}
use rpi5_baremetal.Dtb.Parser.{Walk as Walked, Search, report}
use rpi5_baremetal.Dtb.Layout.{
  node, Node, nil, cons, nop_then, Nodes, enc_node, enc_nodes, len_node, len_nodes, StartsNode,
}
use rpi5_baremetal.Dtb.Layout.Bytes.{At, At-token, At-behind, At-append, At-zeros, At-move, zeros}
use rpi5_baremetal.Dtb.Threading.{went_on}
use rpi5_baremetal.Dtb.Walk.Properties.{At-items, walk_items-pointer}
use rpi5_baremetal.Dtb.Walk.{start, walk_items, walk_node, walk_nodes}

-- Behind the name of a node.
pub At-name :
    (name : List ℕ) {m : Memory} {p : ℕ} (rest : List ℕ)
    → At m p (name ++ 0 ∷ zeros (name_step (length name) - length name - 1) rest)
    → At m (p + name_step (length name)) rest
unfolding name_step
At-name name rest h =
    At-move (omega arith)
      (At-zeros (suc (name_step (length name) - length name - 1)) (At-append name h))

mutual
  unfolding enc_node len_node

  pub At-node :
      (n : Node) {m : Memory} {p : ℕ} (rest : List ℕ)
      → At m p (enc_node n rest)
      → At m (p + len_node n) rest
  At-node (node name is subs) rest h =
      At-move (omega arith)
        (At-behind (At-nodes subs _ (At-items is _ (At-name name _ (At-behind h)))))

  pub At-nodes :
      (ns : Nodes) {m : Memory} {p : ℕ} (rest : List ℕ)
      → At m p (enc_nodes ns rest)
      → At m (p + len_nodes ns) rest
  At-nodes nil rest h = At-move (omega arith) h
  At-nodes (cons n ns) rest h = At-move (omega arith) (At-nodes ns rest (At-node n _ h))
  At-nodes (nop_then ns) rest h = At-move (omega arith) (At-nodes ns rest (At-behind h))

pub At-begin :
    (n : Node) {m : Memory} {p : ℕ} (rest : List ℕ)
    → At m p (enc_node n rest)
    → get_types m p ≡ begin_node
unfolding enc_node token_of
At-begin (node name is subs) rest h = At-token refl h

-- Behind the items of a node stands the token of its first child, or its own end.
pub At-StartsNode :
    (ns : Nodes) {m : Memory} {p : ℕ} (rest : List ℕ)
    → StartsNode ns
    → At m p (enc_nodes ns (0 ∷ 0 ∷ 0 ∷ 2 ∷ rest))
    → (get_types m p ≡ begin_node) ⊎ (get_types m p ≡ end_node)
unfolding enc_node token_of
At-StartsNode nil rest starts h = inr (At-token refl h)
At-StartsNode (cons n ns) rest starts h = inl (At-begin n _ h)
At-StartsNode (nop_then ns) rest starts h = elim starts [ ]

module _ {S : Type 0} (env : Search) (f : Callback S) where
  mutual
    unfolding walk_node len_node

    pub walk_node-pointer :
        (n : Node) (parents : List SimpleDeviceNode) (p : ℕ) (s : S) {s' : S} {w : Walked}
        → walk_node env f parents p n s ≡ (s', ok w)
        → w.flow ≡ continue
        → w.pointer ≡ p + len_node n
    walk_node-pointer (node name is subs) parents p s h e =
        let (s1, props, e1, h1) = >>?-eq-ok (s, walk_items env parents (start p name) is) _ h in
        let (s2, flow, e2, h2) = >>?-eq-ok (report env f parents props s1) _ h1 in
        let items : walk_items env parents (start p name) is ≡ ok props = ap (λ x. x.1) e1 in
        omega (
          arith,
          walk_items-pointer env parents is (start p name) items,
          walk_nodes-pointer subs (props.node ∷ parents) props.pointer s2
              (went_on flow (record { flow = break; pointer = props.pointer }) s2 (λ _. refl) h2
                e).1
              e,
        )

    pub walk_nodes-pointer :
        (ns : Nodes) (parents : List SimpleDeviceNode) (p : ℕ) (s : S) {s' : S} {w : Walked}
        → walk_nodes env f parents p ns s ≡ (s', ok w)
        → w.flow ≡ continue
        → w.pointer ≡ p + len_nodes ns + 4
    walk_nodes-pointer nil parents p s h e = ground arith
    walk_nodes-pointer (nop_then ns) parents p s h e =
        omega (arith, walk_nodes-pointer ns parents (p + 4) s h e)
    walk_nodes-pointer (cons n ns) parents p s h e =
        let (s1, w, e1, h1) = >>?-eq-ok (walk_node env f parents p n s) _ h in
        let (c, rest) = went_on w.flow w s1 (λ q. q) h1 e in
        omega (
          arith,
          walk_node-pointer n parents p s e1 c,
          walk_nodes-pointer ns parents w.pointer s1 rest e,
        )
