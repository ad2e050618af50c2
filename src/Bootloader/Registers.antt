-- ===== src/Bootloader/Registers.antt =====
-- The registers of the bootloader's devices: fields of 32-bit words. What the register crate,
-- tock_registers, does to a word is a parameter with the behaviour that its documentation states.
pub mod Arithmetic
use rpi5_baremetal.Base.{
  ℕ, ◌+◌, ◌/◌, ◌%◌, ◌^◌, ◌≤◌, ◌<◌, ◌≡◌, ◌↔◌, ◌⊎◌, List, [], ◌∷◌, All, Bool, true,
}

-- A field of a register, by its OFFSET and NUMBITS, and the value that it is given.
pub record FieldValue : Type 0 where
  pub offset : ℕ
  pub numbits : ℕ
  pub value : ℕ

abbrev pub field : ℕ → ℕ → ℕ → FieldValue
field o n v = record { offset = o; numbits = n; value = v }

-- The value of a field in a word.
abbrev pub bits : ℕ → ℕ → ℕ → ℕ
bits offset numbits word = word / 2 ^ offset % 2 ^ numbits

abbrev pub Holds : ℕ → FieldValue → Type 0
Holds word v = bits v.offset v.numbits word ≡ v.value

-- The field of the value does not overlap the field at the offset.
abbrev pub IsApart : ℕ → ℕ → FieldValue → Type 0
IsApart offset numbits v = (offset + numbits ≤ v.offset) ⊎ (v.offset + v.numbits ≤ offset)

-- Values that fit fields which do not overlap.
abbrev pub AreFields : List FieldValue → Type 0
AreFields [] = Unit
AreFields (v ∷ vs) = (v.value < 2 ^ v.numbits) × All (IsApart v.offset v.numbits) vs × AreFields vs

-- The crate: `modify` keeps the other fields, `write` clears them.
pub record RegisterCrate : Type 0 where
  pub modify : List FieldValue → ℕ → ℕ
  pub write : List FieldValue → ℕ
  pub is_set : FieldValue → ℕ → Bool
  pub matches_all : FieldValue → ℕ → Bool
  pub modify-All :
      (vs : List FieldValue) (word : ℕ) → AreFields vs → All (Holds (modify vs word)) vs
  pub modify_apart :
      (vs : List FieldValue) (word offset numbits : ℕ)
      → All (IsApart offset numbits) vs
      → bits offset numbits (modify vs word) ≡ bits offset numbits word
  pub write_lem : (vs : List FieldValue) → write vs ≡ modify vs 0
  pub is_set_iff :
      (v : FieldValue) (word : ℕ) → (is_set v word ≡ true) ↔ (0 < bits v.offset v.numbits word)
  pub matches_all_iff : (v : FieldValue) (word : ℕ) → (matches_all v word ≡ true) ↔ Holds word v
