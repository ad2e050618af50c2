-- ===== src/Bootloader/Rp1Info/Windows.antt =====
-- The addresses of the table in bootloader/src/interfaces/rp1/rp1_info.rs, as windows of 16 KB.
use rpi5_baremetal.Base.{
  ℕ, ◌+◌, ◌%◌, ◌≤◌, ◌≡◌, ◌≢◌, ◌⊎◌, inl, inr, refl, sym, ap, ◌∙◌, true, Option, none, some, List, [],
  ◌∷◌, ◌==◌, if◌then◌else◌, leb, ◌&&◌, Bool, arith, dec_lt,
}
use rpi5_baremetal.Bootloader.Rp1Info.{Rp1Block, sysinfo, apb, get_block_address, all_blocks}

-- The first of the blocks that has the address.
abbrev find_block : ℕ → List Rp1Block → Option Rp1Block
find_block a [] = none
find_block a (b ∷ bs) = if (get_block_address b).address == a then some b else find_block a bs

find_block-get_block_address :
    (b : Rp1Block) → find_block (get_block_address b).address all_blocks ≡ some b
unfolding get_block_address
find_block-get_block_address sysinfo = refl
find_block-get_block_address _ = refl

some_cancel : {b c : Rp1Block} → some b ≡ some c → b ≡ c
some_cancel e = cc

-- No two blocks have the same address.
pub get_block_address-injective :
    (b c : Rp1Block) → (get_block_address b).address ≡ (get_block_address c).address → b ≡ c
get_block_address-injective b c e = some_cancel (
    sym (find_block-get_block_address b)
    ∙ ap (λ a. find_block a all_blocks) e
    ∙ find_block-get_block_address c)

abbrev in_place : ℕ → Bool
in_place a = leb 0x4000_0000 a && leb a 0x4040_0000 && (a % 0x4000 == 0)

address-in_place : (b : Rp1Block) → in_place (get_block_address b).address ≡ true
unfolding get_block_address
address-in_place sysinfo = refl
address-in_place _ = refl

-- Every address lies at or behind 0x4000_0000, at most 4 MB behind it, on a 16 KB boundary.
pub get_block_address_bounds :
    (b : Rp1Block)
    → (0x4000_0000 ≤ (get_block_address b).address)
      × ((get_block_address b).address ≤ 0x4040_0000)
      × ((get_block_address b).address % 0x4000 ≡ 0)
get_block_address_bounds b = ground (arith, address-in_place b)

-- The windows of 16 KB at the addresses of two different blocks do not overlap.
pub get_block_address-apart :
    (b c : Rp1Block)
    → b ≢ c
    → ((get_block_address b).address + 0x4000 ≤ (get_block_address c).address)
      ⊎ ((get_block_address c).address + 0x4000 ≤ (get_block_address b).address)
get_block_address-apart b c ne =
    elim (dec_lt (get_block_address b).address (get_block_address c).address) [
      | yes lt ↦ inl (omega (arith, get_block_address_bounds b, get_block_address_bounds c))
      | no ge ↦ elim (dec_lt (get_block_address c).address (get_block_address b).address) [
        | yes gt ↦ inr (omega (arith, get_block_address_bounds b, get_block_address_bounds c))
        | no le ↦ absurd (ne (get_block_address-injective b c (omega arith)))
      ]
    ]

-- A block that has the atomic access registers is on the APB.
pub atomic_access-apb :
    (b : Rp1Block)
    → (get_block_address b).atomic_access ≡ true
    → (get_block_address b).bus_type ≡ apb
unfolding get_block_address
atomic_access-apb sysinfo h = refl
atomic_access-apb _ h = cc
