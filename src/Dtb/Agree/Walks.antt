-- ===== src/Dtb/Agree/Walks.antt =====
-- The walks of two searches of dtb/src/lib.rs whose callbacks agree as long as all goes well.
use rpi5_baremetal.Base.{
  ℕ, zero, suc, ◌+◌, ◌≡◌, refl, sym, ◌∙◌, List, [], ◌∷◌, ok, err, ◌>>?◌, >>?-keeps,
}
use mathlib.Core.Path.{subst}
use rpi5_baremetal.Dtb.BigEndian.{Result, both_or_neither}
use rpi5_baremetal.Dtb.DeviceNode.{SimpleDeviceNode}
use rpi5_baremetal.Dtb.Header.{get_struct_start_address, get_struct_end_address}
use rpi5_baremetal.Dtb.AddressIter.{ControlFlow, break, Callback}
use rpi5_baremetal.Dtb.Token.{
  Token, begin_node, end_node, prop, nop, end, unknown, get_types, skip_nop,
}
use rpi5_baremetal.Dtb.Parser.{
  Props, Walk, Search, open_node, report, find_node_recursive, read_children, at_end, not_one_name,
  find_node,
}
use rpi5_baremetal.Dtb.Rounds.{child, read_children-child}
use rpi5_baremetal.Dtb.Keeps.{
  flow_step, report-keeps, flow-keeps, find_node_recursive-keeps, read_children-keeps,
}
use rpi5_baremetal.Dtb.Agree.{>>?-agree, flow-agree, if-agree, report-agree}

module _ {S : Type 0} (IsBad : S → Type 0) where
  module _ (env : Search) (f g : Callback S)
      (stays : (s : S) (a : ℕ × ℕ) → IsBad s → IsBad (g s a).0)
      (same : (s : S) (a : ℕ × ℕ) → ¬ IsBad (g s a).0 → f s a ≡ g s a) where
    child-agree :
        (t : Token) (fuel : ℕ) (parents : List SimpleDeviceNode) (p : ℕ) (s : S)
        → (¬ IsBad (find_node_recursive env g fuel parents p s).0
            → find_node_recursive env f fuel parents p s
              ≡ find_node_recursive env g fuel parents p s)
        → ((q : ℕ) (s1 : S)
            → ¬ IsBad (read_children env g fuel parents q s1).0
            → read_children env f fuel parents q s1 ≡ read_children env g fuel parents q s1)
        → ¬ IsBad (child env g fuel parents p s t).0
        → child env f fuel parents p s t ≡ child env g fuel parents p s t
    child-agree nop fuel parents p s walked kids well = kids (p + 4) s well
    child-agree begin_node fuel parents p s walked kids well =
        >>?-agree IsBad (find_node_recursive env f fuel parents p s)
          (find_node_recursive env g fuel parents p s)
          (λ s1 w. flow_step w.flow (s1, ok w) (read_children env f fuel parents w.pointer s1))
          (λ s1 w. flow_step w.flow (s1, ok w) (read_children env g fuel parents w.pointer s1))
          (λ s1 w bad.
            flow-keeps IsBad env g stays w.flow (s1, ok w)
              (read_children env g fuel parents w.pointer s1) bad
              (read_children-keeps IsBad env g stays fuel parents w.pointer s1 bad))
          walked
          (λ s1 w.
            flow-agree IsBad w.flow (s1, ok w) (read_children env f fuel parents w.pointer s1)
              (read_children env g fuel parents w.pointer s1) (kids w.pointer s1))
          well
    child-agree end_node fuel parents p s walked kids well = refl
    child-agree prop fuel parents p s walked kids well = refl
    child-agree end fuel parents p s walked kids well = refl
    child-agree unknown fuel parents p s walked kids well = refl

    -- What a search does behind the properties of a node, and behind the calls for them.
    abbrev behind_report :
        Callback S → ℕ → List SimpleDeviceNode → Props → S → ControlFlow → S × Result Walk
    behind_report h fuel parents props s flow =
        flow_step flow (s, ok (record { flow = break; pointer = props.pointer }))
          (read_children env h fuel (props.node ∷ parents) props.pointer s)

    behind_report-keeps :
        (fuel : ℕ) (parents : List SimpleDeviceNode) (props : Props) (s : S) (flow : ControlFlow)
        → IsBad s
        → IsBad (behind_report g fuel parents props s flow).0
    behind_report-keeps fuel parents props s flow bad =
        flow-keeps IsBad env g stays flow (s, ok (record { flow = break; pointer = props.pointer }))
          (read_children env g fuel (props.node ∷ parents) props.pointer s) bad
          (read_children-keeps IsBad env g stays fuel (props.node ∷ parents) props.pointer s bad)

    mutual
      unfolding find_node_recursive

      find_node_recursive-agree :
          (fuel : ℕ) (parents : List SimpleDeviceNode) (p : ℕ) (s : S)
          → ¬ IsBad (find_node_recursive env g fuel parents p s).0
          → find_node_recursive env f fuel parents p s ≡ find_node_recursive env g fuel parents p s
      find_node_recursive-agree zero parents p s well = refl
      find_node_recursive-agree (suc fuel) parents p s well =
          >>?-agree IsBad (s, open_node env fuel parents p) (s, open_node env fuel parents p)
            (λ s1 props. report env f parents props s1 >>? λ s2 flow.
              behind_report f fuel parents props s2 flow)
            (λ s1 props. report env g parents props s1 >>? λ s2 flow.
              behind_report g fuel parents props s2 flow)
            (λ s1 props bad.
              >>?-keeps IsBad (report env g parents props s1)
                (λ s2 flow. behind_report g fuel parents props s2 flow)
                (report-keeps IsBad env g stays parents props s1 bad)
                (λ s2 flow. behind_report-keeps fuel parents props s2 flow))
            (λ _. refl)
            (λ s1 props.
              >>?-agree IsBad (report env f parents props s1) (report env g parents props s1)
                (λ s2 flow. behind_report f fuel parents props s2 flow)
                (λ s2 flow. behind_report g fuel parents props s2 flow)
                (λ s2 flow. behind_report-keeps fuel parents props s2 flow)
                (report-agree IsBad env f g stays same parents props s1)
                (λ s2 flow.
                  flow-agree IsBad flow (s2, ok (record { flow = break; pointer = props.pointer }))
                    (read_children env f fuel (props.node ∷ parents) props.pointer s2)
                    (read_children env g fuel (props.node ∷ parents) props.pointer s2)
                    (read_children-agree fuel (props.node ∷ parents) props.pointer s2)))
            well

      read_children-agree :
          (fuel : ℕ) (parents : List SimpleDeviceNode) (p : ℕ) (s : S)
          → ¬ IsBad (read_children env g fuel parents p s).0
          → read_children env f fuel parents p s ≡ read_children env g fuel parents p s
      read_children-agree zero parents p s well = refl
      read_children-agree (suc fuel) parents p s well =
          let t : Token = get_types env.memory p in
          let shown = read_children-child env g fuel parents p s t refl in
          read_children-child env f fuel parents p s t refl
          ∙ child-agree t fuel parents p s (find_node_recursive-agree fuel parents p s)
              (λ q s1. read_children-agree fuel parents q s1) (subst (λ y. ¬ IsBad y.0) shown well)
          ∙ sym shown

    abbrev behind_nops : Callback S → ℕ → S → ℕ → S × Result (Unit {0})
    behind_nops h fuel s p = find_node_recursive env h fuel [] p s >>? λ s1 w.
        (s1, at_end (get_types env.memory w.pointer))

    behind_nops-keeps : (fuel : ℕ) (s : S) (p : ℕ) → IsBad s → IsBad (behind_nops g fuel s p).0
    behind_nops-keeps fuel s p bad =
        >>?-keeps IsBad (find_node_recursive env g fuel [] p s)
          (λ s1 w. (s1, at_end (get_types env.memory w.pointer)))
          (find_node_recursive-keeps IsBad env g stays fuel [] p s bad) (λ s1 w bad'. bad')

    behind_nops-agree :
        (fuel : ℕ) (s : S) (p : ℕ)
        → ¬ IsBad (behind_nops g fuel s p).0
        → behind_nops f fuel s p ≡ behind_nops g fuel s p
    behind_nops-agree fuel s p =
        >>?-agree IsBad (find_node_recursive env f fuel [] p s)
          (find_node_recursive env g fuel [] p s)
          (λ s1 w. (s1, at_end (get_types env.memory w.pointer)))
          (λ s1 w. (s1, at_end (get_types env.memory w.pointer))) (λ s1 w bad. bad)
          (find_node_recursive-agree fuel [] p s) (λ s1 w _. refl)

    -- If two callbacks do the same where the second one leaves its state well,
    -- and it makes no bad state well again, then their searches are the same where the second ends
    -- well.
    pub find_node-agree :
        (fuel : ℕ) (s : S)
        → ¬ IsBad (find_node env g fuel s).0
        → find_node env f fuel s ≡ find_node env g fuel s
    unfolding find_node
    find_node-agree fuel s well =
        let x : S × Result ℕ = (
          s,
          skip_nop fuel env.memory (get_struct_end_address env.memory env.header)
              (get_struct_start_address env.memory env.header),
        ) in
        if-agree IsBad (not_one_name env.query) (s, err both_or_neither) (x >>? behind_nops f fuel)
          (x >>? behind_nops g fuel)
          (>>?-agree IsBad x x (behind_nops f fuel) (behind_nops g fuel)
            (λ s1 p bad. behind_nops-keeps fuel s1 p bad) (λ _. refl)
            (λ s1 p. behind_nops-agree fuel s1 p))
          well
