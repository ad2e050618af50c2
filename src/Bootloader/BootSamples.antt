-- ===== src/Bootloader/BootSamples.antt =====
-- A blob with a debug UART, at the fixed address at which bootloader/src/main.rs looks for it.
use rpi5_baremetal.Base.{ℕ, ◌-◌, List, [], ◌∷◌, ◌++◌, codes}
use rpi5_baremetal.Dtb.BigEndian.{Memory}
use rpi5_baremetal.Dtb.Layout.{property, nop_item, Node, node, nil, cons, enc_node}
use rpi5_baremetal.Dtb.Samples.{holding, words, nul, strings}

-- A root with a debug UART.
abbrev pub uart : Node
uart =
    node (codes "u")
      (property 4 (codes "compatible") (codes "arm,pl011" ++ nul [])
        ∷ property 0 (codes "reg") (words (1 ∷ 0x7d00_1000 ∷ 0x200 ∷ []) [])
        ∷ [])
      nil

abbrev pub tree : Node
tree = node [] (nop_item ∷ []) (cons uart nil)

unfoldable pub blob : List ℕ
unfolding enc_node
blob =
    words (0xd00d_feed ∷ 135 ∷ 40 ∷ 120 ∷ 0 ∷ 17 ∷ 16 ∷ 0 ∷ 15 ∷ 80 ∷ [])
      (enc_node tree (0 ∷ 0 ∷ 0 ∷ 9 ∷ strings))

abbrev pub memory : Memory
memory i = holding blob (i - 0x2000_0000)
