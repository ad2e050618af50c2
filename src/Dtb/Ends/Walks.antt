-- ===== src/Dtb/Ends/Walks.antt =====
-- Where a walk of the parser of dtb/src/lib.rs over a node, or over its children, stands at its end.
use rpi5_baremetal.Base.{
  ℕ, zero, suc, ◌+◌, ◌≤◌, ◌≡◌, refl, ap, sym, ◌∙◌, inl, inr, List, ◌∷◌, ok, >>?-eq-ok, arith,
}
use rpi5_baremetal.Dtb.DeviceNode.{SimpleDeviceNode}
use rpi5_baremetal.Dtb.AddressIter.{break, Callback}
use rpi5_baremetal.Dtb.Token.{Token, begin_node, end_node, prop, nop, end, unknown, get_types}
use rpi5_baremetal.Dtb.Parser.{Walk, Search, open_node, report, find_node_recursive, read_children}
use rpi5_baremetal.Dtb.Threading.{flow-cases}
use rpi5_baremetal.Dtb.Rounds.{child, read_children-child}
use rpi5_baremetal.Dtb.Ends.Pointers.{open_node-pointer}

module _ {S : Type 0} (env : Search) (f : Callback S) where
  child-pointer :
      (t : Token) (fuel : ℕ) (parents : List SimpleDeviceNode) (p : ℕ) (s s' : S) (w : Walk)
      → ((s1 : S) (v : Walk)
          → find_node_recursive env f fuel parents p s ≡ (s1, ok v)
          → p + 4 ≤ v.pointer)
      → ((q : ℕ) (s1 : S) → read_children env f fuel parents q s1 ≡ (s', ok w) → q + 4 ≤ w.pointer)
      → child env f fuel parents p s t ≡ (s', ok w)
      → p + 4 ≤ w.pointer
  child-pointer nop fuel parents p s s' w walks kids h = omega (arith, kids (p + 4) s h)
  child-pointer begin_node fuel parents p s s' w walks kids h =
      let (s1, v, walked, more) = >>?-eq-ok (find_node_recursive env f fuel parents p s) _ h in
      elim (flow-cases v.flow v s1 more) [
        | inl (_, same, _) ↦ omega (arith, walks s1 v walked, ap (λ x. x.pointer) same)
        | inr (_, go_on) ↦ omega (arith, walks s1 v walked, kids v.pointer s1 go_on)
      ]
  child-pointer end_node fuel parents p s s' w walks kids h =
      let same : p + 4 ≡ w.pointer = cc h in omega arith
  child-pointer prop fuel parents p s s' w walks kids h = cc h
  child-pointer end fuel parents p s s' w walks kids h = cc h
  child-pointer unknown fuel parents p s s' w walks kids h = cc h

  mutual
    unfolding find_node_recursive

    pub find_node_recursive-pointer :
        (fuel : ℕ) (parents : List SimpleDeviceNode) (p : ℕ) (s s' : S) (w : Walk)
        → find_node_recursive env f fuel parents p s ≡ (s', ok w)
        → p + 4 ≤ w.pointer
    find_node_recursive-pointer zero parents p s s' w h = cc
    find_node_recursive-pointer (suc fuel) parents p s s' w h =
        let (s1, props, opens, h1) = >>?-eq-ok (s, open_node env fuel parents p) _ h in
        let (s2, flow, _, h2) = >>?-eq-ok (report env f parents props s1) _ h1 in
        let ahead = (open_node-pointer env fuel parents p props (ap (λ x. x.1) opens)).1 in
        elim (flow-cases flow (record { flow = break; pointer = props.pointer }) s2 h2) [
          | inl (_, same, _) ↦ omega (arith, ahead, ap (λ x. x.pointer) same)
          | inr (_, go_on) ↦ omega (
            arith,
            ahead,
            read_children-pointer fuel (props.node ∷ parents) props.pointer s2 s' w go_on,
          )
        ]

    pub read_children-pointer :
        (fuel : ℕ) (parents : List SimpleDeviceNode) (p : ℕ) (s s' : S) (w : Walk)
        → read_children env f fuel parents p s ≡ (s', ok w)
        → p + 4 ≤ w.pointer
    read_children-pointer zero parents p s s' w h = cc
    read_children-pointer (suc fuel) parents p s s' w h =
        let t : Token = get_types env.memory p in
        child-pointer t fuel parents p s s' w
          (λ s1 v. find_node_recursive-pointer fuel parents p s s1 v)
          (λ q s1. read_children-pointer fuel parents q s1 s' w)
          (sym (read_children-child env f fuel parents p s t refl) ∙ h)
