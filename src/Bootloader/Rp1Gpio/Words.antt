-- ===== src/Bootloader/Rp1Gpio/Words.antt =====
-- What the operations of bootloader/src/interfaces/rp1/rp1_gpio.rs do to the words of the registers.
use rpi5_baremetal.Base.{ℕ, ◌<◌, ◌≢◌, ◌⊎◌, List, [], ◌∷◌, All, ◌==◌, if◌then◌else◌}
use rpi5_baremetal.Bootloader.Registers.{Holds, IsApart, AreFields, RegisterCrate}
use rpi5_baremetal.Bootloader.Rp1Gpio.{Modify, Rp1Gpio}
use rpi5_baremetal.Bootloader.Rp1Gpio.Pins.{
  Operation, to_set_func, to_enable_output, to_gpio_enable, to_gpio_disable,
}

-- Another register, or a field that is apart.
abbrev pub Spares : (i offset numbits : ℕ) → Modify → Type 0
Spares i offset numbits e = (i ≢ e.address) ⊎ All (IsApart offset numbits) e.fields

-- The fields of one call do not overlap, and no later call changes them.
abbrev pub AreChanges : List Modify → Type 0
AreChanges [] = Unit
AreChanges (e ∷ es) =
    AreFields e.fields
    × All (λ v. All (Spares e.address v.offset v.numbits) es) e.fields
    × AreChanges es

-- A function fits the field of the control register.
abbrev pub Fits : Operation → Type 0
Fits (to_set_func function) = function < 32
Fits to_enable_output = Unit
Fits to_gpio_enable = Unit
Fits to_gpio_disable = Unit

module _ (crate : RegisterCrate) where
  -- The words behind a call of `modify`, and behind one call after the other.
  abbrev pub change : Modify → (ℕ → ℕ) → ℕ → ℕ
  change e words i = if i == e.address then crate.modify e.fields (words i) else words i

  unfoldable pub apply : List Modify → (ℕ → ℕ) → ℕ → ℕ
  apply [] words = words
  apply (e ∷ es) words = apply es (change e words)

  -- The fields that a call gives have its values.
  abbrev pub IsDone : (ℕ → ℕ) → Modify → Type 0
  IsDone words e = All (Holds (words e.address)) e.fields
