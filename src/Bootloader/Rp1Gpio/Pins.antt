-- ===== src/Bootloader/Rp1Gpio/Pins.antt =====
-- The registers that the operations of bootloader/src/interfaces/rp1/rp1_gpio.rs change, by pin.
use rpi5_baremetal.Base.{
  ℕ, ◌+◌, ◌*◌, ◌≤◌, ◌<◌, ◌≡◌, ◌↔◌, ◌⊎◌, refl, sym, inl, inr, ◌∙◌, List, [], ◌∷◌, All, ok, panicked,
  arith, dec_lt,
}
use mathlib.Core.Path.{subst}
use rpi5_baremetal.Bootloader.Rp1Info.{io_bank0, pads_bank0, get_block_address}
use rpi5_baremetal.Bootloader.Registers.{field}
use rpi5_baremetal.Bootloader.Rp1Gpio.{
  Modify, Rp1Gpio, new, Calls, set_func, enable_output, gpio_enable, gpio_disable,
}

-- A call of one of the operations on a pin.
pub data Operation : Type 0 where
  to_set_func : (function : ℕ) → Operation
  to_enable_output to_gpio_enable to_gpio_disable : Operation

abbrev pub run : Operation → Rp1Gpio → ℕ → Calls
run (to_set_func function) g gpio_num = set_func g gpio_num function
run to_enable_output g gpio_num = enable_output g gpio_num
run to_gpio_enable g gpio_num = gpio_enable g gpio_num
run to_gpio_disable g gpio_num = gpio_disable g gpio_num

-- An operation panics exactly when the pin is not one of the 28.
pub run_iff :
    (op : Operation) (g : Rp1Gpio) (gpio_num : ℕ) → (run op g gpio_num ≡ panicked) ↔ (28 ≤ gpio_num)
unfolding set_func enable_output gpio_enable gpio_disable
run_iff (to_set_func function) g gpio_num = ground arith
run_iff to_enable_output g gpio_num = ground arith
run_iff to_gpio_enable g gpio_num = ground arith
run_iff to_gpio_disable g gpio_num = ground arith

-- The registers of a pin: its control register and its pad.
abbrev pub OfPin : Rp1Gpio → ℕ → Modify → Type 0
OfPin g gpio_num e =
    (gpio_num < 28)
    × ((e.address ≡ g.io_bank0 + 8 * gpio_num + 4) ⊎ (e.address ≡ g.pads_bank0 + 4 + 4 * gpio_num))

unfoldable pub calls_of : Operation → Rp1Gpio → ℕ → List Modify
calls_of (to_set_func function) g n =
    record { address = g.io_bank0 + 8 * n + 4; fields = field 0 5 function ∷ [] } ∷ []
calls_of to_enable_output g n =
    record { address = g.io_bank0 + 8 * n + 4; fields = field 12 2 0 ∷ field 14 2 0 ∷ [] }
    ∷ record {
      address = g.pads_bank0 + 4 + 4 * n;
      fields = field 7 1 0 ∷ field 2 1 0 ∷ field 3 1 0 ∷ [];
    }
    ∷ []
calls_of to_gpio_enable g n =
    record { address = g.io_bank0 + 8 * n + 4; fields = field 14 2 3 ∷ [] } ∷ []
calls_of to_gpio_disable g n =
    record { address = g.io_bank0 + 8 * n + 4; fields = field 14 2 2 ∷ [] } ∷ []

pub run-eq : (op : Operation) (g : Rp1Gpio) (n : ℕ) → n < 28 → run op g n ≡ ok (calls_of op g n)
unfolding set_func enable_output gpio_enable gpio_disable calls_of
run-eq (to_set_func function) g n lt = ground arith
run-eq to_enable_output g n lt = ground arith
run-eq to_gpio_enable g n lt = ground arith
run-eq to_gpio_disable g n lt = ground arith

calls_of-OfPin : (op : Operation) (g : Rp1Gpio) (n : ℕ) → n < 28 → All (OfPin g n) (calls_of op g n)
unfolding calls_of
calls_of-OfPin (to_set_func function) g n lt = ((lt, inl refl), tt)
calls_of-OfPin to_enable_output g n lt = ((lt, inl refl), ((lt, inr refl), tt))
calls_of-OfPin to_gpio_enable g n lt = ((lt, inl refl), tt)
calls_of-OfPin to_gpio_disable g n lt = ((lt, inl refl), tt)

pub calls_cancel : {a b : List Modify} → ◌≡◌ {A = Calls} (ok a) (ok b) → a ≡ b
calls_cancel e = cc

-- An operation that does not panic changes registers of its pin only: the control register and the
-- pad that the two references give for it.
pub run-OfPin :
    (op : Operation) (g : Rp1Gpio) (gpio_num : ℕ) (calls : List Modify)
    → run op g gpio_num ≡ ok calls
    → All (OfPin g gpio_num) calls
run-OfPin op g gpio_num calls h = elim (dec_lt gpio_num 28) [
  | yes lt ↦
      subst (All (OfPin g gpio_num)) (calls_cancel (sym (run-eq op g gpio_num lt) ∙ h))
        (calls_of-OfPin op g gpio_num lt)
  | no ge ↦ cc (sym ((run_iff op g gpio_num).1 (omega arith)) ∙ h)
]

All-map :
    {P Q : Modify → Type 0} → ((e : Modify) → P e → Q e) → (l : List Modify) → All P l → All Q l
All-map f [] ps = tt
All-map f (e ∷ l) ps = (f e ps.0, All-map f l ps.1)

-- The references that `Rp1GPIO::new` makes are both those of the pads: an operation that does not
-- panic changes registers in the 16 KB of `PadsBank0` only, and none in those of `IoBank0`.
pub new-misses :
    (op : Operation) (n : ℕ) (calls : List Modify)
    → run op new n ≡ ok calls
    → All
        (λ e.
          ((get_block_address pads_bank0).address ≤ e.address)
          × (e.address + 4 ≤ (get_block_address pads_bank0).address + 0x4000)
          × ((get_block_address io_bank0).address + 0x4000 ≤ e.address))
        calls
unfolding new get_block_address
new-misses op n calls h = All-map (λ e here. ground arith) calls (run-OfPin op new n calls h)
