-- ===== src/Dtb/Agree.antt =====
-- Two searches of dtb/src/lib.rs whose callbacks agree as long as all goes well.
pub mod Walks
use rpi5_baremetal.Base.{
  ℕ, zero, suc, ◌+◌, ◌≡◌, refl, ap, sym, ◌∙◌, inl, inr, true, false, Bool, Bool-cases, Option, none,
  some, List, [], ◌∷◌, Outcome, ok, err, panicked, out_of_fuel, if◌then◌else◌, ◌>>?◌, >>?-keeps,
}
use mathlib.Core.Path.{subst}
use rpi5_baremetal.Dtb.BigEndian.{Result, both_or_neither}
use rpi5_baremetal.Dtb.DeviceNode.{SimpleDeviceNode}
use rpi5_baremetal.Dtb.Header.{get_struct_start_address, get_struct_end_address}
use rpi5_baremetal.Dtb.AddressIter.{
  ControlFlow, continue, break, Callback, Item, next_internal, visit,
}
use rpi5_baremetal.Dtb.Token.{
  Token, begin_node, end_node, prop, nop, end, unknown, get_types, skip_nop,
}
use rpi5_baremetal.Dtb.Parser.{
  Props, Walk, Search, open_node, report, find_node_recursive, read_children, at_end, not_one_name,
  find_node,
}
use rpi5_baremetal.Dtb.Rounds.{after, round, visit-round, child, read_children-child}
use rpi5_baremetal.Dtb.Keeps.{
  flow_step, after-keeps, visit-keeps, report-keeps, flow-keeps, find_node_recursive-keeps,
  read_children-keeps,
}

module _ {S : Type 0} (IsBad : S → Type 0) where
  pub >>?-agree :
      {E A B : Type 0} (x y : S × Outcome E A) (k l : S → A → S × Outcome E B)
      → ((s : S) (a : A) → IsBad s → IsBad (l s a).0)
      → (¬ IsBad y.0 → x ≡ y)
      → ((s : S) (a : A) → ¬ IsBad (l s a).0 → k s a ≡ l s a)
      → ¬ IsBad (y >>? l).0
      → (x >>? k) ≡ (y >>? l)
  >>?-agree x (s, ok a) k l stays first rest well =
      ap (λ z. z >>? k) (first (λ bad. well (stays s a bad))) ∙ rest s a well
  >>?-agree x (s, err e) k l stays first rest well = ap (λ z. z >>? k) (first well)
  >>?-agree x (s, panicked) k l stays first rest well = ap (λ z. z >>? k) (first well)
  >>?-agree x (s, out_of_fuel) k l stays first rest well = ap (λ z. z >>? k) (first well)

  pub flow-agree :
      {A : Type 0} (flow : ControlFlow) (x y y' : S × Result A)
      → (¬ IsBad y'.0 → y ≡ y')
      → ¬ IsBad (flow_step flow x y').0
      → flow_step flow x y ≡ flow_step flow x y'
  flow-agree break x y y' go well = refl
  flow-agree continue x y y' go well = go well

  after-agree :
      (rest rest' : S → S × Result ControlFlow) (y : S × ControlFlow)
      → ((s : S) → ¬ IsBad (rest' s).0 → rest s ≡ rest' s)
      → ¬ IsBad (after rest' y).0
      → after rest y ≡ after rest' y
  after-agree rest rest' (s, break) go well = refl
  after-agree rest rest' (s, continue) go well = go s well

  pub if-agree :
      {A : Type 0} (b : Bool) (x y y' : S × A)
      → (¬ IsBad y'.0 → y ≡ y')
      → ¬ IsBad (if b then x else y').0
      → ◌≡◌ {A = S × A} (if b then x else y) (if b then x else y')
  if-agree true x y y' go well = refl
  if-agree false x y y' go well = go well

  module _ (env : Search) (f g : Callback S)
      (stays : (s : S) (a : ℕ × ℕ) → IsBad s → IsBad (g s a).0)
      (same : (s : S) (a : ℕ × ℕ) → ¬ IsBad (g s a).0 → f s a ≡ g s a) where
    round-agree :
        (rest rest' : Item → S → S × Result ControlFlow) (s : S) (x : Result (Option Item))
        → ((item : Item) (s1 : S) → IsBad s1 → IsBad (rest' item s1).0)
        → ((item : Item) (s1 : S) → ¬ IsBad (rest' item s1).0 → rest item s1 ≡ rest' item s1)
        → ¬ IsBad (round g rest' s x).0
        → round f rest s x ≡ round g rest' s x
    round-agree rest rest' s (ok none) stay go well = refl
    round-agree rest rest' s (ok (some item)) stay go well =
        let called : f s item.result ≡ g s item.result = same s item.result (λ bad.
          well (after-keeps IsBad env g stays (rest' item) (g s item.result) (stay item) bad)) in
        ap (after (rest item)) called
        ∙ after-agree (rest item) (rest' item) (g s item.result) (go item) well
    round-agree rest rest' s (err e) stay go well = refl
    round-agree rest rest' s panicked stay go well = refl
    round-agree rest rest' s out_of_fuel stay go well = refl

    visit-agree :
        (parents : List SimpleDeviceNode) (node : SimpleDeviceNode) (fuel : ℕ) (remain : Option ℕ)
        (s : S)
        → ¬ IsBad (visit env.memory parents node fuel g remain s).0
        → visit env.memory parents node fuel f remain s
          ≡ visit env.memory parents node fuel g remain s
    unfolding visit
    visit-agree parents node zero remain s well = refl
    visit-agree parents node (suc fuel) remain s well =
        let x = next_internal env.memory parents node remain in
        let shown = visit-round env g parents node fuel remain s x refl in
        visit-round env f parents node fuel remain s x refl
        ∙ round-agree (λ item. visit env.memory parents node fuel f (some item.remain))
            (λ item. visit env.memory parents node fuel g (some item.remain)) s x
            (λ item s1 bad.
              visit-keeps IsBad env g stays parents node fuel (some item.remain) s1 bad)
            (λ item s1. visit-agree parents node fuel (some item.remain) s1)
            (subst (λ y. ¬ IsBad y.0) shown well)
        ∙ sym shown

    pub report-agree :
        (parents : List SimpleDeviceNode) (p : Props) (s : S)
        → ¬ IsBad (report env g parents p s).0
        → report env f parents p s ≡ report env g parents p s
    unfolding report
    report-agree parents p s well = elim (Bool-cases p.find_in_this_node) [
      | inl here ↦ rw here (visit-agree parents p.node env.rounds none s (rw here at well))
      | inr not_here ↦ rw not_here refl
    ]
