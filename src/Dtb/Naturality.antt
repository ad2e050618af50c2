-- ===== src/Dtb/Naturality.antt =====
-- Two searches of dtb/src/lib.rs whose callbacks correspond to one another.
use rpi5_baremetal.Base.{
  ℕ, zero, suc, ◌+◌, ◌≡◌, refl, ap, ◌∙◌, sym, inl, inr, true, false, Bool, Bool-cases, Option, some,
  none, List, [], ◌∷◌, Outcome, ok, err, panicked, out_of_fuel, ◌>>?◌,
}
use rpi5_baremetal.Dtb.BigEndian.{Result}
use rpi5_baremetal.Dtb.DeviceNode.{SimpleDeviceNode}
use rpi5_baremetal.Dtb.Header.{get_struct_start_address, get_struct_end_address}
use rpi5_baremetal.Dtb.AddressIter.{
  ControlFlow, continue, break, Callback, Item, next_internal, visit,
}
use rpi5_baremetal.Dtb.Token.{
  Token, begin_node, end_node, prop, nop, end, unknown, get_types, skip_nop,
}
use rpi5_baremetal.Dtb.Parser.{
  Props, Walk, Search, open_node, report, find_node_recursive, read_children, at_end, not_one_name,
  find_node,
}
use rpi5_baremetal.Dtb.Rounds.{after, round, visit-round, child, read_children-child}

abbrev pub on_state : {S T A : Type 0} → (S → T) → S × A → T × A
on_state h (s, a) = (h s, a)

-- `g` does on the image of a state what `f` does on the state.
module _ {S T : Type 0} (h : S → T) (f : Callback S) (g : Callback T)
    (same : (s : S) (a : ℕ × ℕ) → g (h s) a ≡ on_state h (f s a)) where
  >>?-on_state :
      {E A B : Type 0} (x : S × Outcome E A) (k : S → A → S × Outcome E B)
      (l : T → A → T × Outcome E B)
      → ((s : S) (a : A) → l (h s) a ≡ on_state h (k s a))
      → (on_state h x >>? l) ≡ on_state h (x >>? k)
  >>?-on_state (s, ok a) k l e = e s a
  >>?-on_state (s, err x) k l e = refl
  >>?-on_state (s, panicked) k l e = refl
  >>?-on_state (s, out_of_fuel) k l e = refl

  flow-on_state :
      {A : Type 0} (c : ControlFlow) (stop go : S × A) (go' : T × A)
      → go' ≡ on_state h go
      → ◌≡◌ {A = T × A}
          (elim c [ break ↦ on_state h stop | continue ↦ go' ])
          (on_state h (elim c [ break ↦ stop | continue ↦ go ]))
  flow-on_state continue stop go go' e = e
  flow-on_state break stop go go' e = refl

  module _ (env : Search) where
    round-on_state :
        (x : Result (Option Item)) (s : S) (rest : Item → S → S × Result ControlFlow)
        (rest' : Item → T → T × Result ControlFlow)
        → ((item : Item) (s1 : S) → rest' item (h s1) ≡ on_state h (rest item s1))
        → round g rest' (h s) x ≡ on_state h (round f rest s x)
    round-on_state (ok none) s rest rest' e = refl
    round-on_state (ok (some item)) s rest rest' e =
        let y : S × ControlFlow = f s item.result in
        ap (after (rest' item)) (same s item.result)
        ∙ flow-on_state y.1 (y.0, ok break) (rest item y.0) (rest' item (h y.0)) (e item y.0)
    round-on_state (err x) s rest rest' e = refl
    round-on_state panicked s rest rest' e = refl
    round-on_state out_of_fuel s rest rest' e = refl

    visit-on_state :
        (parents : List SimpleDeviceNode) (node : SimpleDeviceNode) (fuel : ℕ) (remain : Option ℕ)
        (s : S)
        → visit env.memory parents node fuel g remain (h s)
          ≡ on_state h (visit env.memory parents node fuel f remain s)
    unfolding visit
    visit-on_state parents node zero remain s = refl
    visit-on_state parents node (suc fuel) remain s =
        let x : Result (Option Item) = next_internal env.memory parents node remain in
        visit-round env g parents node fuel remain (h s) x refl
        ∙ round-on_state x s (λ item. visit env.memory parents node fuel f (some item.remain))
            (λ item. visit env.memory parents node fuel g (some item.remain))
            (λ item s1. visit-on_state parents node fuel (some item.remain) s1)
        ∙ ap (on_state h) (sym (visit-round env f parents node fuel remain s x refl))

    reported :
        (found : Bool) (s : S) (x : S × Result ControlFlow) (y : T × Result ControlFlow)
        → y ≡ on_state h x
        → ◌≡◌ {A = T × Result ControlFlow}
            (elim found [ true ↦ y | false ↦ (h s, ok continue) ])
            (on_state h (elim found [ true ↦ x | false ↦ (s, ok continue) ]))
    reported true s x y e = e
    reported false s x y e = refl

    report-on_state :
        (parents : List SimpleDeviceNode) (props : Props) (s : S)
        → report env g parents props (h s) ≡ on_state h (report env f parents props s)
    unfolding report
    report-on_state parents props s =
        reported props.find_in_this_node s (visit env.memory parents props.node env.rounds f none s)
          _ (visit-on_state parents props.node env.rounds none s)

    -- Two walks that correspond.
    abbrev Alike :
        (List SimpleDeviceNode → ℕ → T → T × Result Walk)
        → (List SimpleDeviceNode → ℕ → S → S × Result Walk)
        → Type 0
    Alike to from =
        (parents : List SimpleDeviceNode) (p : ℕ) (s : S)
        → to parents p (h s) ≡ on_state h (from parents p s)

    child-on_state :
        (fuel : ℕ) (parents : List SimpleDeviceNode) (p : ℕ) (s : S) (t : Token)
        → Alike (find_node_recursive env g fuel) (find_node_recursive env f fuel)
        → Alike (read_children env g fuel) (read_children env f fuel)
        → child env g fuel parents p (h s) t ≡ on_state h (child env f fuel parents p s t)
    child-on_state fuel parents p s nop walks kids = kids parents (p + 4) s
    child-on_state fuel parents p s begin_node walks kids =
        ap
          (λ x. x >>? λ t1 w. elim w.flow [
            | break ↦ (t1, ok w)
            | continue ↦ read_children env g fuel parents w.pointer t1
          ])
          (walks parents p s)
        ∙ >>?-on_state (find_node_recursive env f fuel parents p s) _ _ (λ s1 w.
          flow-on_state w.flow (s1, ok w) (read_children env f fuel parents w.pointer s1) _
            (kids parents w.pointer s1))
    child-on_state fuel parents p s end_node walks kids = refl
    child-on_state fuel parents p s prop walks kids = refl
    child-on_state fuel parents p s end walks kids = refl
    child-on_state fuel parents p s unknown walks kids = refl

    mutual
      unfolding find_node_recursive

      find_node_recursive-on_state :
          (fuel : ℕ) (parents : List SimpleDeviceNode) (p : ℕ) (s : S)
          → find_node_recursive env g fuel parents p (h s)
            ≡ on_state h (find_node_recursive env f fuel parents p s)
      find_node_recursive-on_state zero parents p s = refl
      find_node_recursive-on_state (suc fuel) parents p s =
          >>?-on_state (s, open_node env fuel parents p) _ _
            (λ s1 props.
              ap
                (λ x. x >>? λ t2 flow. elim flow [
                  | break ↦ (t2, ok (record { flow = break; pointer = props.pointer }))
                  | continue ↦ read_children env g fuel (props.node ∷ parents) props.pointer t2
                ])
                (report-on_state parents props s1)
              ∙ >>?-on_state (report env f parents props s1) _ _ (λ s2 flow.
                flow-on_state flow (s2, ok (record { flow = break; pointer = props.pointer }))
                  (read_children env f fuel (props.node ∷ parents) props.pointer s2) _
                  (read_children-on_state fuel (props.node ∷ parents) props.pointer s2)))

      read_children-on_state :
          (fuel : ℕ) (parents : List SimpleDeviceNode) (p : ℕ) (s : S)
          → read_children env g fuel parents p (h s)
            ≡ on_state h (read_children env f fuel parents p s)
      read_children-on_state zero parents p s = refl
      read_children-on_state (suc fuel) parents p s =
          let t : Token = get_types env.memory p in
          read_children-child env g fuel parents p (h s) t refl
          ∙ child-on_state fuel parents p s t (find_node_recursive-on_state fuel)
              (read_children-on_state fuel)
          ∙ ap (on_state h) (sym (read_children-child env f fuel parents p s t refl))

    -- If a callback does on the image of a captured state what another one does on the state itself, so
    -- does `find_node` with them: it searches alike whatever the callback keeps of the addresses.
    pub find_node-on_state :
        (fuel : ℕ) (s : S) → find_node env g fuel (h s) ≡ on_state h (find_node env f fuel s)
    unfolding find_node
    find_node-on_state fuel s = elim (Bool-cases (not_one_name env.query)) [
      | inl both ↦ rw (both, find_node) refl
      | inr one ↦
          rw (one, find_node)
            (>>?-on_state
              (
                s,
                skip_nop fuel env.memory (get_struct_end_address env.memory env.header)
                    (get_struct_start_address env.memory env.header),
              )
              _ _
              (λ s1 p.
                ap (λ x. x >>? λ t2 w. (t2, at_end (get_types env.memory w.pointer)))
                  (find_node_recursive-on_state fuel [] p s1)
                ∙ >>?-on_state (find_node_recursive env f fuel [] p s1) _ _ (λ s2 w. refl)))
    ]
