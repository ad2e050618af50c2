-- ===== src/Bootloader/Rp1Gpio.antt =====
-- bootloader/src/interfaces/rp1/rp1_gpio.rs: which registers `Rp1GPIO` changes, and which fields of
-- them. What a change of a field does to the word is up to the register crate.
pub mod Pins
pub mod Words
use rpi5_baremetal.Base.{
  ℕ, ◌+◌, ◌*◌, List, [], ◌∷◌, ltb, if◌then◌else◌, Outcome, ok, panicked, ◌>>=◌,
}
use rpi5_baremetal.Bootloader.Registers.{FieldValue, field}
use rpi5_baremetal.Bootloader.Rp1Info.{io_bank0, pads_bank0, get_block_address}

-- One call of `modify`.
pub record Modify : Type 0 where
  pub address : ℕ
  pub fields : List FieldValue

-- The addresses that the two references have.
pub record Rp1Gpio : Type 0 where
  pub io_bank0 : ℕ
  pub pads_bank0 : ℕ

unfoldable pub new : Rp1Gpio
unfolding get_block_address
new = record {
  io_bank0 = (get_block_address pads_bank0).address;
  pads_bank0 = (get_block_address pads_bank0).address;
}

abbrev pub Calls : Type 0
Calls = Outcome ⊥ (List Modify)

-- `self.io_bank0.gpio.get(gpio_num).unwrap().1`
unfoldable pub gpio_ctrl : Rp1Gpio → ℕ → Outcome ⊥ ℕ
gpio_ctrl g gpio_num = if ltb gpio_num 28 then ok (g.io_bank0 + 8 * gpio_num + 4) else panicked

-- `self.pads_bank0.gpio.get(gpio_num).unwrap()`
unfoldable pub gpio_pad : Rp1Gpio → ℕ → Outcome ⊥ ℕ
gpio_pad g gpio_num = if ltb gpio_num 28 then ok (g.pads_bank0 + 4 + 4 * gpio_num) else panicked

unfoldable pub set_func : Rp1Gpio → ℕ → ℕ → Calls
unfolding gpio_ctrl
set_func g gpio_num function =
    gpio_ctrl g gpio_num >>= λ a. ok (record { address = a; fields = field 0 5 function ∷ [] } ∷ [])

unfoldable pub enable_output : Rp1Gpio → ℕ → Calls
unfolding gpio_ctrl gpio_pad
enable_output g gpio_num = gpio_ctrl g gpio_num >>= λ io. gpio_pad g gpio_num >>= λ pads. ok (
    record { address = io; fields = field 12 2 0 ∷ field 14 2 0 ∷ [] }
    ∷ record { address = pads; fields = field 7 1 0 ∷ field 2 1 0 ∷ field 3 1 0 ∷ [] }
    ∷ [])

unfoldable pub gpio_enable : Rp1Gpio → ℕ → Calls
unfolding gpio_ctrl
gpio_enable g gpio_num =
    gpio_ctrl g gpio_num >>= λ a. ok (record { address = a; fields = field 14 2 3 ∷ [] } ∷ [])

unfoldable pub gpio_disable : Rp1Gpio → ℕ → Calls
unfolding gpio_ctrl
gpio_disable g gpio_num =
    gpio_ctrl g gpio_num >>= λ a. ok (record { address = a; fields = field 14 2 2 ∷ [] } ∷ [])
