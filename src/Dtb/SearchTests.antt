-- ===== src/Dtb/SearchTests.antt =====
-- Searches of dtb/src/lib.rs in the small blob.
use rpi5_baremetal.Base.{ℕ, ◌≡◌, ◌↔◌, refl, Option, none, some, ok, List, [], ◌∷◌, length, codes}
use rpi5_baremetal.Dtb.BigEndian.{read_u32_from_ptr}
use rpi5_baremetal.Dtb.Token.{name_step}
use rpi5_baremetal.Dtb.Parser.{Search}
use rpi5_baremetal.Dtb.Layout.{enc_node, enc_items, enc_item}
use rpi5_baremetal.Dtb.Header
use rpi5_baremetal.Dtb.Header.{DtbHeader, magic, last_comp_version}
use rpi5_baremetal.Dtb.BigEndian.{Result}
use rpi5_baremetal.Dtb.ItWorks.{it_works, debug_uart, memory_block}
use rpi5_baremetal.Dtb.ItWorks.Passes.{given, it_works_iff}
use rpi5_baremetal.Dtb.Samples.{holding, blob, body, by_compatible}

abbrev env : Search
env = by_compatible (codes "p")

-- The search with room for a string anywhere in the blob.
abbrev roomy : Search
roomy = record env { limit = 128 }

abbrev header : DtbHeader
header = record { address = 0 }

-- What the searches of `it_works` give on the blob.
abbrev listed : Option (List ℕ) → Option (List ℕ) → List (ℕ × ℕ) × Result (Unit {0})
listed = given 64 8 64 (holding blob) header

it_works_iff_example : (it_works 64 8 64 (holding blob) 0 ≡ ok tt) ↔ (
    (listed none (some (codes "arm,pl011")) ≡ (debug_uart ∷ [], ok tt))
    × (listed (some (codes "memory")) none ≡ (memory_block ∷ [], ok tt))
    × ((l : List (ℕ × ℕ)) × (listed none (some (codes "arm,gic-400")) ≡ (l, ok tt))
        × (length l ≡ 4)))
unfolding Header.new magic last_comp_version read_u32_from_ptr body enc_node enc_items enc_item
    name_step
it_works_iff_example = it_works_iff 64 8 64 (holding blob) 0 header refl
