-- ===== src/Dtb/Break/Walks.antt =====
-- What a search of dtb/src/lib.rs that returned says of the callback, by induction on its rounds.
use rpi5_baremetal.Base.{
  >>?-eq-ok, ℕ, zero, suc, ◌≡◌, refl, ap, inl, inr, true, false, Bool, Bool-cases, List, [], ◌∷◌,
  panicked, out_of_fuel, Option, some, none, ok, err,
}
use mathlib.Core.Path.{subst}
use rpi5_baremetal.Dtb.BigEndian.{Result}
use rpi5_baremetal.Dtb.DeviceNode.{SimpleDeviceNode}
use rpi5_baremetal.Dtb.AddressIter.{
  ControlFlow, continue, break, Callback, Item, visit, next_internal,
}
use rpi5_baremetal.Dtb.Token.{Token, begin_node, end_node, prop, nop, end, unknown, get_types}
use rpi5_baremetal.Dtb.Parser.{
  Props, Walk, Search, open_node, report, find_node_recursive, read_children, at_end, not_one_name,
  find_node,
}
use rpi5_baremetal.Dtb.Token.{skip_nop}
use rpi5_baremetal.Dtb.Header.{get_struct_start_address, get_struct_end_address}
use rpi5_baremetal.Dtb.Threading.{flow-cases}
use rpi5_baremetal.Dtb.Break.{IsNodeToken, open_node-IsNodeToken}

abbrev flow_of : Result Walk → ControlFlow
flow_of (ok w) = w.flow
flow_of _ = continue

at_end-ok : (t : Token) → at_end t ≡ ok tt → IsNodeToken t → ⊥
unfolding at_end
at_end-ok t h (inl e) = cc (rw (e, at_end) at h)
at_end-ok t h (inr e) = cc (rw (e, at_end) at h)

-- A property of the captured state that the callback keeps as long as it lets the search go on.
module _ {S : Type 0} (env : Search) (f : Callback S) (P : S → Type 0)
    (keep : (s : S) (a : ℕ × ℕ) → P s → (f s a).1 ≡ continue → P (f s a).0) where
  visit_step :
      (c : ControlFlow) (parents : List SimpleDeviceNode) (node : SimpleDeviceNode) (fuel : ℕ)
      (item : Item) (s : S) {s' : S}
      → ((s1 : S)
          → P s1
          → visit env.memory parents node fuel f (some item.remain) s1 ≡ (s', ok continue)
          → P s')
      → P s
      → (f s item.result).1 ≡ c
      → ◌≡◌ {A = S × Result ControlFlow}
          (elim c [
            | break ↦ ((f s item.result).0, ok break)
            | continue ↦ visit env.memory parents node fuel f (some item.remain) (f s item.result).0
          ])
          (s', ok continue)
      → P s'
  visit_step continue parents node fuel item s rest p e h = rest _ (keep s item.result p e) h
  visit_step break parents node fuel item s rest p e h = cc h

  visit_round :
      (r : Result (Option Item)) (parents : List SimpleDeviceNode) (node : SimpleDeviceNode)
      (fuel : ℕ) (remain : Option ℕ) (s : S) {s' : S}
      → ((left : ℕ) (s1 : S)
          → P s1
          → visit env.memory parents node fuel f (some left) s1 ≡ (s', ok continue)
          → P s')
      → P s
      → next_internal env.memory parents node remain ≡ r
      → visit env.memory parents node (suc fuel) f remain s ≡ (s', ok continue)
      → P s'
  unfolding visit
  visit_round (ok none) parents node fuel remain s rest p e h =
      subst P (ap (λ x. x.0) (rw (e, visit) at h)) p
  visit_round (ok (some item)) parents node fuel remain s rest p e h =
      visit_step _ parents node fuel item s (rest item.remain) p refl (rw (e, visit) at h)
  visit_round (err x) parents node fuel remain s rest p e h = cc (rw (e, visit) at h)
  visit_round panicked parents node fuel remain s rest p e h = cc (rw (e, visit) at h)
  visit_round out_of_fuel parents node fuel remain s rest p e h = cc (rw (e, visit) at h)

  pub visit-keep :
      (fuel : ℕ) (parents : List SimpleDeviceNode) (node : SimpleDeviceNode) (remain : Option ℕ)
      (s : S) {s' : S}
      → P s
      → visit env.memory parents node fuel f remain s ≡ (s', ok continue)
      → P s'
  unfolding visit
  visit-keep zero parents node remain s p h = cc h
  visit-keep (suc fuel) parents node remain s p h =
      visit_round (next_internal env.memory parents node remain) parents node fuel remain s
        (λ left s1. visit-keep fuel parents node (some left) s1) p refl h

  -- How a walk may end: broken off at the token of a node, or with the property kept.
  pub record Ended (s : S) (w : Walk) : Type 0 where
    pub broken : w.flow ≡ break → IsNodeToken (get_types env.memory w.pointer)
    pub kept : w.flow ≡ continue → P s

  report-keep :
      (found : Bool) (parents : List SimpleDeviceNode) (props : Props) (s : S) {s' : S}
      → P s
      → props.find_in_this_node ≡ found
      → report env f parents props s ≡ (s', ok continue)
      → P s'
  unfolding report
  report-keep true parents props s p e h =
      visit-keep env.rounds parents props.node none s p (rw (e, report) at h)
  report-keep false parents props s p e h = subst P (ap (λ x. x.0) (rw (e, report) at h)) p

  Ended-at : {s s' : S} {v w : Walk} → v ≡ w → v.flow ≡ break → Ended s v → Ended s' w
  Ended-at {s} {s'} {v} {w} e b h = record {
    broken = λ _. subst (λ x. IsNodeToken (get_types env.memory x.pointer)) e (h.broken b);
    kept = λ c. cc;
  }

  -- A walk of the children, at a token: the walks of one round less are known.
  children_step :
      (t : Token) (fuel : ℕ) (parents : List SimpleDeviceNode) (p : ℕ) (s : S) {s' : S} {w : Walk}
      → ((q : ℕ) (s1 : S) (s2 : S) (v : Walk)
          → P s1
          → find_node_recursive env f fuel parents q s1 ≡ (s2, ok v)
          → Ended s2 v)
      → ((q : ℕ) (s1 : S) → P s1 → read_children env f fuel parents q s1 ≡ (s', ok w) → Ended s' w)
      → P s
      → get_types env.memory p ≡ t
      → read_children env f (suc fuel) parents p s ≡ (s', ok w)
      → Ended s' w
  unfolding find_node_recursive
  children_step begin_node fuel parents p s walks rest ps e h =
      let h' = rw (e, read_children) at h in
      let (s1, v, e1, more) = >>?-eq-ok (find_node_recursive env f fuel parents p s) _ h' in
      let ended = walks p s s1 v ps e1 in
      elim (flow-cases v.flow v s1 more) [
        | inl (b, same, _) ↦ Ended-at same b ended
        | inr (c, go_on) ↦ rest v.pointer s1 (ended.kept c) go_on
      ]
  children_step end_node fuel parents p s walks rest ps e h =
      let h' = rw (e, read_children) at h in
      record {
        broken = λ b. cc (ap (λ x. flow_of x.1) h');
        kept = λ c. subst P (ap (λ x. x.0) h') ps;
      }
  children_step nop fuel parents p s walks rest ps e h = rest _ s ps (rw (e, read_children) at h)
  children_step prop fuel parents p s walks rest ps e h = cc (rw (e, read_children) at h)
  children_step end fuel parents p s walks rest ps e h = cc (rw (e, read_children) at h)
  children_step unknown fuel parents p s walks rest ps e h = cc (rw (e, read_children) at h)

  mutual
    unfolding find_node_recursive

    pub find_node_recursive-Ended :
        (fuel : ℕ) (parents : List SimpleDeviceNode) (p : ℕ) (s s' : S) (w : Walk)
        → P s
        → find_node_recursive env f fuel parents p s ≡ (s', ok w)
        → Ended s' w
    find_node_recursive-Ended zero parents p s s' w ps h = cc
    find_node_recursive-Ended (suc fuel) parents p s s' w ps h =
        let (s1, props, e1, h1) = >>?-eq-ok (s, open_node env fuel parents p) _ h in
        let (s2, flow, e2, h2) = >>?-eq-ok (report env f parents props s1) _ h1 in
        let at_token = open_node-IsNodeToken env fuel parents p (ap (λ x. x.1) e1) in
        elim (flow-cases flow (record { flow = break; pointer = props.pointer }) s2 h2) [
          | inl (b, same, _) ↦
              Ended-at {s = s2} same refl (record { broken = λ _. at_token; kept = λ c. cc })
          | inr (c, go_on) ↦
              read_children-Ended fuel (props.node ∷ parents) props.pointer s2 s' w
                (report-keep props.find_in_this_node parents props s1
                  (subst P (ap (λ x. x.0) e1) ps) refl (rw c at e2))
                go_on
        ]

    read_children-Ended :
        (fuel : ℕ) (parents : List SimpleDeviceNode) (p : ℕ) (s s' : S) (w : Walk)
        → P s
        → read_children env f fuel parents p s ≡ (s', ok w)
        → Ended s' w
    read_children-Ended zero parents p s s' w ps h = cc
    read_children-Ended (suc fuel) parents p s s' w ps h =
        children_step (get_types env.memory p) fuel parents p s
          (λ q s1 s2 v. find_node_recursive-Ended fuel parents q s1 s2 v)
          (λ q s1. read_children-Ended fuel parents q s1 s' w) ps refl h

  -- A walk that returned and stands at FDT_END kept the property.
  at_end-keep :
      (c : ControlFlow) (s : S) (w : Walk)
      → Ended s w
      → w.flow ≡ c
      → at_end (get_types env.memory w.pointer) ≡ ok tt
      → P s
  at_end-keep continue s w ended e h = ended.kept e
  at_end-keep break s w ended e h = absurd (at_end-ok _ h (ended.broken e))

  -- For a property of the captured state that the callback keeps whenever it lets the search go
  -- on: if it holds at the start and `find_node` returns `Ok`, it holds at the end. So no call of
  -- the callback broke the search off.
  pub find_node-ok : (fuel : ℕ) (s s' : S) → P s → find_node env f fuel s ≡ (s', ok tt) → P s'
  unfolding find_node
  find_node-ok fuel s s' p h = elim (Bool-cases (not_one_name env.query)) [
    | inl both ↦ cc (rw both at h)
    | inr one ↦
        let (s1, q, e1, h1) =
          >>?-eq-ok
            (
              s,
              skip_nop fuel env.memory (get_struct_end_address env.memory env.header)
                  (get_struct_start_address env.memory env.header),
            )
            _ (rw one at h) in
        let (s2, w, e2, h2) = >>?-eq-ok (find_node_recursive env f fuel [] q s1) _ h1 in
        let ended = find_node_recursive-Ended fuel [] q s1 s2 w (subst P (ap (λ x. x.0) e1) p) e2 in
        subst P (ap (λ x. x.0) h2) (at_end-keep w.flow s2 w ended refl (ap (λ x. x.1) h2))
  ]
