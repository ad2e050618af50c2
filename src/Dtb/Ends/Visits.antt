-- ===== src/Dtb/Ends/Visits.antt =====
-- The rounds that the loop of dtb/src/lib.rs over a `reg` takes.
use rpi5_baremetal.Base.{
  ℕ, zero, suc, ◌≤◌, ◌<◌, ◌≡◌, ◌⊎◌, refl, ap, sym, ◌∙◌, inl, inr, Option, none, some, List, ok, err,
  panicked, out_of_fuel, dec_lt, arith,
}
use mathlib.Core.Path.{subst}
use rpi5_baremetal.Dtb.BigEndian.{Result, reg_is_none}
use rpi5_baremetal.Dtb.DeviceNode.{SimpleDeviceNode}
use rpi5_baremetal.Dtb.AddressIter.{
  ControlFlow, continue, break, Callback, Item, stride, next_internal, visit,
}
use rpi5_baremetal.Dtb.Parser.{Search}
use rpi5_baremetal.Dtb.Rounds.{after, round, visit-round}
use rpi5_baremetal.Dtb.Ends.Items.{
  next_internal-Ends, next_internal-remain, next_internal-none, no_reg,
}

module _ {S : Type 0} (env : Search) (f : Callback S) (parents : List SimpleDeviceNode)
    (node : SimpleDeviceNode) where
  after-out :
      (rest : S → S × Result ControlFlow) (y : S × ControlFlow)
      → (after rest y).1 ≡ out_of_fuel
      → (rest y.0).1 ≡ out_of_fuel
  after-out rest (s, break) h = absurd (cc h)
  after-out rest (s, continue) h = h

  round-out :
      (fuel remain : ℕ) (s : S) (x : Result (Option Item))
      → next_internal env.memory parents node (some remain) ≡ x
      → ((item : Item) (s1 : S)
          → (visit env.memory parents node fuel f (some item.remain) s1).1 ≡ out_of_fuel
          → item.remain < fuel
          → stride parents ≡ ok 0)
      → (round f (λ item. visit env.memory parents node fuel f (some item.remain)) s x).1
        ≡ out_of_fuel
      → remain < suc fuel
      → stride parents ≡ ok 0
  round-out fuel remain s (ok none) e go h few = absurd (cc h)
  round-out fuel remain s (ok (some item)) e go h few =
      let (step, stepped, left) = next_internal-remain env.memory parents node remain item e in
      elim (dec_lt 0 step) [
        | yes pos ↦
            go item (f s item.result).0
              (after-out (visit env.memory parents node fuel f (some item.remain)) (f s item.result)
                h)
              (omega (arith, left))
        | no stays ↦
            let zero_step : step ≡ 0 = omega arith in
            subst (λ n. stride parents ≡ ok n) zero_step stepped
      ]
  round-out fuel remain s (err e') e go h few = absurd (cc h)
  round-out fuel remain s panicked e go h few = absurd (cc h)
  round-out fuel remain s out_of_fuel e go h few =
      absurd (next_internal-Ends env.memory parents node (some remain) e)

  visit-out :
      (fuel remain : ℕ) (s : S)
      → (visit env.memory parents node fuel f (some remain) s).1 ≡ out_of_fuel
      → remain < fuel
      → stride parents ≡ ok 0
  visit-out zero remain s h few = absurd (omega arith)
  visit-out (suc fuel) remain s h few =
      let x = next_internal env.memory parents node (some remain) in
      round-out fuel remain s x refl (λ item s1. visit-out fuel item.remain s1)
        (subst (λ y. y.1 ≡ out_of_fuel) (visit-round env f parents node fuel (some remain) s x refl)
          h)
        few

  visit-none :
      (fuel : ℕ) (reg : ℕ × ℕ) (s : S)
      → node.reg ≡ some reg
      → visit env.memory parents node fuel f none s
        ≡ visit env.memory parents node fuel f (some reg.1) s
  unfolding visit
  visit-none zero reg s e = refl
  visit-none (suc fuel) reg s e =
      let x = next_internal env.memory parents node (some reg.1) in
      visit-round env f parents node fuel none s x
        (next_internal-none env.memory parents node reg e)
      ∙ sym (visit-round env f parents node fuel (some reg.1) s x refl)

  reg-out :
      (fuel : ℕ) (s : S) (reg : Option (ℕ × ℕ))
      → node.reg ≡ reg
      → (visit env.memory parents node (suc fuel) f none s).1 ≡ out_of_fuel
      → ((r : ℕ × ℕ) × (node.reg ≡ some r) × (suc fuel ≤ r.1)) ⊎ (stride parents ≡ ok 0)
  reg-out fuel s none e h =
      let failed =
        visit-round env f parents node fuel none s (err reg_is_none)
          (no_reg env.memory parents node e) in
      absurd (cc (sym (ap (λ y. y.1) failed) ∙ h))
  reg-out fuel s (some r) e h = elim (dec_lt r.1 (suc fuel)) [
    | yes few ↦
        inr (visit-out (suc fuel) r.1 s (sym (ap (λ y. y.1) (visit-none (suc fuel) r s e)) ∙ h) few)
    | no many ↦ inl (r, e, omega arith)
  ]

  -- A loop over `reg` that takes more rounds than it is given has at least as many bytes as rounds, or
  -- its step is 0.
  pub visit-none-out :
      (fuel : ℕ) (s : S)
      → 0 < fuel
      → (visit env.memory parents node fuel f none s).1 ≡ out_of_fuel
      → ((r : ℕ × ℕ) × (node.reg ≡ some r) × (fuel ≤ r.1)) ⊎ (stride parents ≡ ok 0)
  visit-none-out zero s pos h = absurd (omega arith)
  visit-none-out (suc fuel) s pos h = reg-out fuel s node.reg refl h
