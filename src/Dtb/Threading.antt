-- ===== src/Dtb/Threading.antt =====
-- The callback's state is threaded through the walk of dtb/src/lib.rs: what a walk that returned
-- says of its parts.
use rpi5_baremetal.Base.{◌≡◌, refl, ◌⊎◌, inl, inr, ok}
use rpi5_baremetal.Dtb.BigEndian.{Result}
use rpi5_baremetal.Dtb.AddressIter.{ControlFlow, continue, break}
use rpi5_baremetal.Dtb.Parser.{Walk}

-- Two ways to go on that agree where the walk goes on.
pub flow_cong :
    {R : Type 0} (c : ControlFlow) (stop a b : R)
    → (c ≡ continue → a ≡ b)
    → ◌≡◌ {A = R} (elim c [ break ↦ stop | continue ↦ a ]) (elim c [ break ↦ stop | continue ↦ b ])
flow_cong continue stop a b h = h refl
flow_cong break stop a b h = refl

module _ {S : Type 0} where
  -- A result that went on is that of the branch that went on.
  pub went_on :
      (c : ControlFlow) (b : Walk) (s : S) {w : Walk} {s' : S} {r : S × Result Walk}
      → (c ≡ break → b.flow ≡ break)
      → ◌≡◌ {A = S × Result Walk} (elim c [ break ↦ (s, ok b) | continue ↦ r ]) (s', ok w)
      → w.flow ≡ continue
      → (c ≡ continue) × (r ≡ (s', ok w))
  went_on continue b s e h q = (refl, h)
  went_on break b s e h q = cc (e refl)

  -- Either the walk broke off with the result `b`, or the other branch gave the result.
  pub flow-cases :
      (c : ControlFlow) (b : Walk) (s : S) {w : Walk} {s' : S} {r : S × Result Walk}
      → ◌≡◌ {A = S × Result Walk} (elim c [ break ↦ (s, ok b) | continue ↦ r ]) (s', ok w)
      → ((c ≡ break) × (b ≡ w) × (s ≡ s')) ⊎ ((c ≡ continue) × (r ≡ (s', ok w)))
  flow-cases continue b s h = inr (refl, h)
  flow-cases break b s h = inl (refl, cc, cc)
