-- ===== src/Dtb/Ends/Search.antt =====
-- The walk of a search of dtb/src/lib.rs in a memory that is zero from some address on.
use rpi5_baremetal.Base.{
  ℕ, zero, suc, ◌+◌, ◌≤◌, ◌<◌, ◌≡◌, ◌⊎◌, refl, ap, sym, inl, inr, Bool-cases, List, [], ◌∷◌, ok,
  err, panicked, out_of_fuel, ◌>>?◌, arith, none, some,
}
use mathlib.Core.Path.{subst}
use rpi5_baremetal.Dtb.BigEndian.{Result}
use rpi5_baremetal.Dtb.DeviceNode.{SimpleDeviceNode}
use rpi5_baremetal.Dtb.AddressIter.{ControlFlow, continue, break, Callback, stride, visit}
use rpi5_baremetal.Dtb.Token.{Token, begin_node, end_node, prop, nop, end, unknown, get_types}
use rpi5_baremetal.Dtb.Parser.{
  Props, Walk, Search, open_node, report, find_node_recursive, read_children,
}
use rpi5_baremetal.Dtb.Rounds.{child, read_children-child}
use rpi5_baremetal.Dtb.Ends.{Ends, IsBlank}
use rpi5_baremetal.Dtb.Ends.Reads.{IsEnough, before_last, open_node-Ends}
use rpi5_baremetal.Dtb.Ends.Visits.{visit-none-out}
use rpi5_baremetal.Dtb.Ends.Pointers.{open_node-pointer}
use rpi5_baremetal.Dtb.Ends.Walks.{find_node_recursive-pointer}

-- The nodes were read from memory, the nearest first, each one below the next.
pub data AreRead (env : Search) : List SimpleDeviceNode → Type 0 where
  root : AreRead env []
  below :
      (fuel p : ℕ) (parents : List SimpleDeviceNode) (props : Props)
      → AreRead env parents
      → open_node env fuel parents p ≡ ok props
      → AreRead env (props.node ∷ parents)

-- The loop over the `reg` of a node that was read takes more rounds than it is given: the node above
-- has no cells for an address and for a size, so that a round takes nothing off what is left; or the
-- value has as many bytes as there are rounds.
pub data IsLong {S : Type 0} (env : Search) (f : Callback S) : Type 0 where
  no_cells :
      (parents : List SimpleDeviceNode) (parent node : SimpleDeviceNode) (s : S)
      → AreRead env (node ∷ parent ∷ parents)
      → (visit env.memory (parent ∷ parents) node env.rounds f none s).1 ≡ out_of_fuel
      → parent.address_cells ≡ 0
      → parent.size_cells ≡ 0
      → IsLong env f
  few_rounds :
      (parents : List SimpleDeviceNode) (node : SimpleDeviceNode) (address len : ℕ) (s : S)
      → AreRead env (node ∷ parents)
      → (visit env.memory parents node env.rounds f none s).1 ≡ out_of_fuel
      → node.reg ≡ some (address, len)
      → env.rounds ≤ len
      → IsLong env f

module _ (env : Search) (last : ℕ) (blank : IsBlank env.memory last)
    (enough : last < env.limit) where
  module _ (some_rounds : 0 < env.rounds) {S : Type 0} (f : Callback S) where
    -- The search ends, if no `reg` keeps it.
    abbrev Comes : {A : Type 0} → S × Result A → Type 0
    Comes x = Ends x.1 ⊎ IsLong env f

    >>?-Comes :
        {A B : Type 0} (x : S × Result A) (k : S → A → S × Result B)
        → Comes x
        → ((s : S) (a : A) → x ≡ (s, ok a) → Comes (k s a))
        → Comes (x >>? k)
    >>?-Comes (s, ok a) k comes rest = rest s a refl
    >>?-Comes (s, err e) k comes rest = inl (λ h. cc h)
    >>?-Comes (s, panicked) k comes rest = inl (λ h. cc h)
    >>?-Comes (s, out_of_fuel) k comes rest = elim comes [
      | inl ends ↦ absurd (ends refl)
      | inr long ↦ inr long
    ]

    flow-Comes :
        (flow : ControlFlow) (s : S) (w : Walk) (y : S × Result Walk)
        → Comes y
        → Comes {A = Walk} (elim flow [ break ↦ (s, ok w) | continue ↦ y ])
    flow-Comes break s w y comes = inl (λ h. cc h)
    flow-Comes continue s w y comes = comes

    result-Comes : {A : Type 0} (x : S × Result A) → (x.1 ≡ out_of_fuel → IsLong env f) → Comes x
    result-Comes (s, ok a) long = inl (λ h. cc h)
    result-Comes (s, err e) long = inl (λ h. cc h)
    result-Comes (s, panicked) long = inl (λ h. cc h)
    result-Comes (s, out_of_fuel) long = inr (long refl)

    no_step :
        (parents : List SimpleDeviceNode) (node : SimpleDeviceNode) (s : S)
        → AreRead env (node ∷ parents)
        → (visit env.memory parents node env.rounds f none s).1 ≡ out_of_fuel
        → stride parents ≡ ok 0
        → IsLong env f
    unfolding stride
    no_step [] node s read out stays = absurd (cc stays)
    no_step (parent ∷ parents) node s read out stays =
        no_cells parents parent node s read out (ground (arith, stays)) (ground (arith, stays))

    long_reg :
        (parents : List SimpleDeviceNode) (node : SimpleDeviceNode) (s : S)
        → AreRead env (node ∷ parents)
        → (visit env.memory parents node env.rounds f none s).1 ≡ out_of_fuel
        → IsLong env f
    long_reg parents node s read out =
        elim (visit-none-out env f parents node env.rounds s some_rounds out) [
          | inl (r, e, few) ↦ few_rounds parents node r.0 r.1 s read out e few
          | inr stays ↦ no_step parents node s read out stays
        ]

    report-Comes :
        (parents : List SimpleDeviceNode) (props : Props) (s : S)
        → AreRead env (props.node ∷ parents)
        → Comes (report env f parents props s)
    unfolding report
    report-Comes parents props s read = elim (Bool-cases props.find_in_this_node) [
      | inl here ↦ rw here (
          result-Comes (visit env.memory parents props.node env.rounds f none s)
            (λ e. long_reg parents props.node s read e))
      | inr not_here ↦ rw not_here (inl (λ h. cc h))
    ]

    child-Comes :
        (t : Token) (fuel : ℕ) (parents : List SimpleDeviceNode) (p : ℕ) (s : S)
        → get_types env.memory p ≡ t
        → (p < last → Comes (find_node_recursive env f fuel parents p s))
        → ((q : ℕ) (s1 : S) → p < last → p + 4 ≤ q → Comes (read_children env f fuel parents q s1))
        → Comes (child env f fuel parents p s t)
    child-Comes nop fuel parents p s e walks kids =
        kids (p + 4) s (before_last env last blank enough p nop e (λ z. cc)) (omega arith)
    child-Comes begin_node fuel parents p s e walks kids =
        let inside = before_last env last blank enough p begin_node e (λ z. cc) in
        >>?-Comes (find_node_recursive env f fuel parents p s) _ (walks inside) (λ s1 w walked.
          flow-Comes w.flow s1 w (read_children env f fuel parents w.pointer s1) (
            kids w.pointer s1 inside
              (find_node_recursive-pointer env f fuel parents p s s1 w walked)))
    child-Comes end_node fuel parents p s e walks kids = inl (λ h. cc h)
    child-Comes prop fuel parents p s e walks kids = inl (λ h. cc h)
    child-Comes end fuel parents p s e walks kids = inl (λ h. cc h)
    child-Comes unknown fuel parents p s e walks kids = inl (λ h. cc h)

    mutual
      unfolding find_node_recursive

      find_node_recursive-Comes :
          (fuel : ℕ) (parents : List SimpleDeviceNode) (p : ℕ) (s : S)
          → AreRead env parents
          → IsEnough last p fuel
          → Comes (find_node_recursive env f fuel parents p s)
      find_node_recursive-Comes zero parents p s read more = absurd (omega arith)
      find_node_recursive-Comes (suc fuel) parents p s read more =
          >>?-Comes (s, open_node env fuel parents p) _
            (inl (open_node-Ends env last blank enough fuel parents p more))
            (λ s1 props opens.
              let opens' = ap (λ x. x.1) opens in
              let (e, ahead) = open_node-pointer env fuel parents p props opens' in
              let inside = before_last env last blank enough p begin_node e (λ z. cc) in
              >>?-Comes (report env f parents props s1) _
                (report-Comes parents props s1 (below fuel p parents props read opens'))
                (λ s2 flow _.
                  flow-Comes flow s2 (record { flow = break; pointer = props.pointer })
                    (read_children env f fuel (props.node ∷ parents) props.pointer s2)
                    (read_children-Comes fuel (props.node ∷ parents) props.pointer s2
                      (below fuel p parents props read opens') (omega (arith, ahead, inside)))))

      read_children-Comes :
          (fuel : ℕ) (parents : List SimpleDeviceNode) (p : ℕ) (s : S)
          → AreRead env parents
          → IsEnough (last + 4) p fuel
          → Comes (read_children env f fuel parents p s)
      read_children-Comes zero parents p s read more = absurd (omega arith)
      read_children-Comes (suc fuel) parents p s read more =
          let t : Token = get_types env.memory p in
          subst Comes (sym (read_children-child env f fuel parents p s t refl)) (
            child-Comes t fuel parents p s refl
              (λ inside. find_node_recursive-Comes fuel parents p s read (omega arith))
              (λ q s1 inside ahead. read_children-Comes fuel parents q s1 read (omega arith)))
