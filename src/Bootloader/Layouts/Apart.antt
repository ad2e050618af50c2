-- ===== src/Bootloader/Layouts/Apart.antt =====
-- Which fields of the registers in bootloader/src/interfaces overlap.
use rpi5_baremetal.Base.{
  ℕ, zero, suc, ◌+◌, ◌*◌, ◌/◌, ◌%◌, ◌^◌, ◌≤◌, ◌<◌, ◌≡◌, ◌≢◌, refl, some, List, [], ◌∷◌, get_elem?,
  ap, length, ◌++◌, ◌⊎◌, inl, inr, dec_lt, Bool, true, leb, ltb, ◌&&◌, arith,
}
use mathlib.Core.Path.{subst}
use rpi5_baremetal.Bootloader.Registers.{bits}
use rpi5_baremetal.Bootloader.Layouts.{
  field, Field, Register, layout, of_uartdr, of_uartfr, of_uartlcr, of_uartcr, of_uarticr,
  of_gpio_status, of_gpio_ctrl, of_int, of_voltage_select, of_gpio,
}

-- The fields from a bit on, one behind the other, in a word of 32 bits.
unfoldable in_order : ℕ → List Field → Bool
in_order start [] = leb start 32
in_order start (f ∷ fs) =
    leb start f.offset && ltb 0 f.numbits && in_order (f.offset + f.numbits) fs

-- All elements but the last one stand where they stood without it.
get_elem?-init :
    (fs : List Field) (last : Field) (j : ℕ) (g : Field)
    → j ≢ length fs
    → get_elem? (fs ++ last ∷ []) j ≡ some g
    → get_elem? fs j ≡ some g
get_elem?-init [] last zero g ne e = absurd (ne refl)
get_elem?-init [] last (suc j) g ne e = cc e
get_elem?-init (f ∷ fs) last zero g ne e = e
get_elem?-init (f ∷ fs) last (suc j) g ne e =
    get_elem?-init fs last j g (λ same. ne (ap suc same)) e

-- The fields but `ALL` of UARTICR.
abbrev singles : Register → List Field
singles of_uarticr =
    field 0 1
    ∷ field 1 1
    ∷ field 2 1
    ∷ field 3 1
    ∷ field 4 1
    ∷ field 5 1
    ∷ field 6 1
    ∷ field 7 1
    ∷ field 8 1
    ∷ field 9 1
    ∷ field 10 1
    ∷ []
singles r = layout r

singles-in_order : (r : Register) → r ≢ of_int → in_order 0 (singles r) ≡ true
unfolding in_order
singles-in_order of_uartdr ne = refl
singles-in_order of_uartfr ne = refl
singles-in_order of_uartlcr ne = refl
singles-in_order of_uartcr ne = refl
singles-in_order of_uarticr ne = refl
singles-in_order of_gpio_status ne = refl
singles-in_order of_gpio_ctrl ne = refl
singles-in_order of_int ne = absurd (ne refl)
singles-in_order of_voltage_select ne = refl
singles-in_order of_gpio ne = refl

in_order-parts :
    (s : ℕ) (f : Field) (fs : List Field)
    → in_order s (f ∷ fs) ≡ true
    → (s ≤ f.offset) × (0 < f.numbits) × (in_order (f.offset + f.numbits) fs ≡ true)
unfolding in_order
in_order-parts s f fs h = ground arith

in_order-start : (s : ℕ) (fs : List Field) → in_order s fs ≡ true → s ≤ 32
unfolding in_order
in_order-start s [] h = ground arith
in_order-start s (f ∷ fs) h =
    let (le, positive, rest) = in_order-parts s f fs h in
    omega (arith, le, in_order-start (f.offset + f.numbits) fs rest)

in_order-bounds :
    (s : ℕ) (fs : List Field) (j : ℕ) (g : Field)
    → in_order s fs ≡ true
    → get_elem? fs j ≡ some g
    → (s ≤ g.offset) × (0 < g.numbits) × (g.offset + g.numbits ≤ 32)
in_order-bounds s [] j g h e = cc
in_order-bounds s (f ∷ fs) zero g h e =
    let (le, positive, rest) = in_order-parts s f fs h in
    let end : f.offset + f.numbits ≤ 32 = in_order-start (f.offset + f.numbits) fs rest in
    subst (λ (g : Field). (s ≤ g.offset) × (0 < g.numbits) × (g.offset + g.numbits ≤ 32)) (cc e)
      (le, positive, end)
in_order-bounds s (f ∷ fs) (suc j) g h e =
    let (le, positive, rest) = in_order-parts s f fs h in
    let (le', positive', end) = in_order-bounds (f.offset + f.numbits) fs j g rest e in
    (omega (arith, le, le'), positive', end)

in_order-apart :
    (s : ℕ) (fs : List Field) (i j : ℕ) (f g : Field)
    → in_order s fs ≡ true
    → i < j
    → get_elem? fs i ≡ some f
    → get_elem? fs j ≡ some g
    → f.offset + f.numbits ≤ g.offset
in_order-apart s [] i j f g h lt e e' = cc
in_order-apart s (x ∷ fs) i zero f g h lt e e' = absurd (omega arith)
in_order-apart s (x ∷ fs) zero (suc j) f g h lt e e' =
    let (le, positive, rest) = in_order-parts s x fs h in
    subst (λ (f : Field). f.offset + f.numbits ≤ g.offset) (cc e)
      (in_order-bounds (x.offset + x.numbits) fs j g rest e').0
in_order-apart s (x ∷ fs) (suc i) (suc j) f g h lt e e' =
    let (le, positive, rest) = in_order-parts s x fs h in
    in_order-apart (x.offset + x.numbits) fs i j f g rest (omega arith) e e'

uarticr-singles :
    (j : ℕ) (g : Field)
    → j ≢ 11
    → get_elem? (layout of_uarticr) j ≡ some g
    → get_elem? (singles of_uarticr) j ≡ some g
uarticr-singles j g ne e = get_elem?-init (singles of_uarticr) (field 0 11) j g ne e

-- The place of `ALL` in UARTICR.
abbrev pub IsAll : Register → ℕ → Type 0
IsAll r j = (r ≡ of_uarticr) × (j ≡ 11)

singles-layout :
    (r : Register) (j : ℕ) (g : Field)
    → ¬ IsAll r j
    → get_elem? (layout r) j ≡ some g
    → get_elem? (singles r) j ≡ some g
singles-layout of_uarticr j g not_all e = uarticr-singles j g (λ last. not_all (refl, last)) e
singles-layout of_uartdr j g not_all e = e
singles-layout of_uartfr j g not_all e = e
singles-layout of_uartlcr j g not_all e = e
singles-layout of_uartcr j g not_all e = e
singles-layout of_gpio_status j g not_all e = e
singles-layout of_gpio_ctrl j g not_all e = e
singles-layout of_int j g not_all e = e
singles-layout of_voltage_select j g not_all e = e
singles-layout of_gpio j g not_all e = e

-- In every register but INT, each field other than `ALL` of UARTICR has a bit and lies within the 32
-- bits of the word, and is apart from each of them that stands before it.
pub layout-apart :
    (r : Register) (i j : ℕ) (f g : Field)
    → r ≢ of_int
    → ¬ IsAll r i
    → ¬ IsAll r j
    → i ≤ j
    → get_elem? (layout r) i ≡ some f
    → get_elem? (layout r) j ≡ some g
    → (0 < g.numbits) × (g.offset + g.numbits ≤ 32) × ((i ≡ j) ⊎ (f.offset + f.numbits ≤ g.offset))
layout-apart r i j f g ne not_all not_all' le e e' =
    let ordered = singles-in_order r ne in
    let single' = singles-layout r j g not_all' e' in
    let (_, some_bit, inside) = in_order-bounds 0 (singles r) j g ordered single' in
    (
      some_bit,
      inside,
      elim (dec_lt i j) [
        | yes lt ↦ inr (
            in_order-apart 0 (singles r) i j f g ordered lt (singles-layout r i f not_all e)
              single')
        | no ge ↦ inl (omega arith)
      ],
    )

-- In INT, the first field has two bits, and the upper one is the second field: what is read as the
-- interrupt of GPIO 0 has that of GPIO 1 in it, in every word.
pub int-overlap :
    (f g : Field) (word : ℕ)
    → get_elem? (layout of_int) 0 ≡ some f
    → get_elem? (layout of_int) 1 ≡ some g
    → bits f.offset f.numbits word ≡ word % 2 + 2 * bits g.offset g.numbits word
int-overlap f g word e e' =
    let same : word / 2 ^ 0 % 2 ^ 2 ≡ word % 2 + 2 * (word / 2 ^ 1 % 2 ^ 1) = omega arith in
    subst
      (λ (f : Field). bits f.offset f.numbits word ≡ word % 2 + 2 * bits g.offset g.numbits word)
      {x = record { offset = 0; numbits = 2 }} (cc e)
      (subst (λ (g : Field). bits 0 2 word ≡ word % 2 + 2 * bits g.offset g.numbits word)
        {x = record { offset = 1; numbits = 1 }} (cc e') same)
