-- ===== src/Dtb/Keeps.antt =====
-- What the callback of a search of dtb/src/lib.rs keeps, the search keeps.
use rpi5_baremetal.Base.{
  ℕ, zero, suc, ◌+◌, refl, sym, inl, inr, Bool-cases, Option, none, some, List, ◌∷◌, ok, err,
  panicked, out_of_fuel, >>?-keeps,
}
use mathlib.Core.Path.{subst}
use rpi5_baremetal.Dtb.BigEndian.{Result}
use rpi5_baremetal.Dtb.DeviceNode.{SimpleDeviceNode}
use rpi5_baremetal.Dtb.AddressIter.{
  ControlFlow, continue, break, Callback, Item, next_internal, visit,
}
use rpi5_baremetal.Dtb.Token.{Token, begin_node, end_node, prop, nop, end, unknown, get_types}
use rpi5_baremetal.Dtb.Parser.{Props, Search, open_node, report, find_node_recursive, read_children}
use rpi5_baremetal.Dtb.Rounds.{after, round, visit-round, child, read_children-child}

abbrev pub flow_step : {B : Type 0} → ControlFlow → B → B → B
flow_step flow x y = elim flow [ break ↦ x | continue ↦ y ]

module _ {S : Type 0} (P : S → Type 0) (env : Search) (f : Callback S)
    (kept : (s : S) (a : ℕ × ℕ) → P s → P (f s a).0) where
  pub after-keeps :
      (rest : S → S × Result ControlFlow) (y : S × ControlFlow)
      → ((s : S) → P s → P (rest s).0)
      → P y.0
      → P (after rest y).0
  after-keeps rest (s, break) go h = h
  after-keeps rest (s, continue) go h = go s h

  round-keeps :
      (rest : Item → S → S × Result ControlFlow) (s : S) (x : Result (Option Item))
      → ((item : Item) (s1 : S) → P s1 → P (rest item s1).0)
      → P s
      → P (round f rest s x).0
  round-keeps rest s (ok none) go h = h
  round-keeps rest s (ok (some item)) go h =
      after-keeps (rest item) (f s item.result) (go item) (kept s item.result h)
  round-keeps rest s (err e) go h = h
  round-keeps rest s panicked go h = h
  round-keeps rest s out_of_fuel go h = h

  pub visit-keeps :
      (parents : List SimpleDeviceNode) (node : SimpleDeviceNode) (fuel : ℕ) (remain : Option ℕ)
      (s : S)
      → P s
      → P (visit env.memory parents node fuel f remain s).0
  unfolding visit
  visit-keeps parents node zero remain s h = h
  visit-keeps parents node (suc fuel) remain s h =
      let x = next_internal env.memory parents node remain in
      subst (λ y. P y.0) (sym (visit-round env f parents node fuel remain s x refl))
        (round-keeps (λ item. visit env.memory parents node fuel f (some item.remain)) s x
          (λ item s1 h1. visit-keeps parents node fuel (some item.remain) s1 h1) h)

  pub report-keeps :
      (parents : List SimpleDeviceNode) (p : Props) (s : S) → P s → P (report env f parents p s).0
  unfolding report
  report-keeps parents p s h = elim (Bool-cases p.find_in_this_node) [
    | inl here ↦ rw here (visit-keeps parents p.node env.rounds none s h)
    | inr not_here ↦ rw not_here h
  ]

  pub flow-keeps :
      {A : Type 0} (flow : ControlFlow) (x y : S × Result A)
      → P x.0
      → P y.0
      → P (flow_step flow x y).0
  flow-keeps break x y hx hy = hx
  flow-keeps continue x y hx hy = hy

  child-keeps :
      (t : Token) (fuel : ℕ) (parents : List SimpleDeviceNode) (p : ℕ) (s : S)
      → P (find_node_recursive env f fuel parents p s).0
      → ((q : ℕ) (s1 : S) → P s1 → P (read_children env f fuel parents q s1).0)
      → P s
      → P (child env f fuel parents p s t).0
  child-keeps nop fuel parents p s walked kids h = kids (p + 4) s h
  child-keeps begin_node fuel parents p s walked kids h =
      >>?-keeps P (find_node_recursive env f fuel parents p s) _ walked (λ s1 w h1.
        flow-keeps w.flow (s1, ok w) (read_children env f fuel parents w.pointer s1) h1
          (kids w.pointer s1 h1))
  child-keeps end_node fuel parents p s walked kids h = h
  child-keeps prop fuel parents p s walked kids h = h
  child-keeps end fuel parents p s walked kids h = h
  child-keeps unknown fuel parents p s walked kids h = h

  mutual
    unfolding find_node_recursive

    pub find_node_recursive-keeps :
        (fuel : ℕ) (parents : List SimpleDeviceNode) (p : ℕ) (s : S)
        → P s
        → P (find_node_recursive env f fuel parents p s).0
    find_node_recursive-keeps zero parents p s h = h
    find_node_recursive-keeps (suc fuel) parents p s h =
        >>?-keeps P (s, open_node env fuel parents p) _ h
          (λ s1 props h1.
            >>?-keeps P (report env f parents props s1) _ (report-keeps parents props s1 h1)
              (λ s2 flow h2.
                flow-keeps flow (s2, ok (record { flow = break; pointer = props.pointer }))
                  (read_children env f fuel (props.node ∷ parents) props.pointer s2) h2
                  (read_children-keeps fuel (props.node ∷ parents) props.pointer s2 h2)))

    pub read_children-keeps :
        (fuel : ℕ) (parents : List SimpleDeviceNode) (p : ℕ) (s : S)
        → P s
        → P (read_children env f fuel parents p s).0
    read_children-keeps zero parents p s h = h
    read_children-keeps (suc fuel) parents p s h =
        let t : Token = get_types env.memory p in
        subst (λ y. P y.0) (sym (read_children-child env f fuel parents p s t refl))
          (child-keeps t fuel parents p s (find_node_recursive-keeps fuel parents p s h)
            (λ q s1 h1. read_children-keeps fuel parents q s1 h1) h)
