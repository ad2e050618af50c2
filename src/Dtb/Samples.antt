-- ===== src/Dtb/Samples.antt =====
-- A small blob, in the form of the one that the tests of dtb/src/lib.rs read: a root, and a device
-- with its name and the place of its registers.
use rpi5_baremetal.Base.{
  ℕ, zero, suc, ◌+◌, ◌≡◌, ap, ◌∙◌, none, some, List, [], ◌∷◌, ◌++◌, length, codes, All, ◌<◌, arith,
}
use rpi5_baremetal.Dtb.Regs.{IsBytes}
use rpi5_baremetal.Dtb.BigEndian.{Memory}
use rpi5_baremetal.Dtb.AddressIter.{Callback, continue, break}
use rpi5_baremetal.Dtb.Parser.{Search}
use rpi5_baremetal.Dtb.Layout.{property, nop_item, Node, node, nil, cons, enc_node}
use rpi5_baremetal.Dtb.Layout.Bytes.{word, Holds, At}

-- A memory that starts with the bytes.
abbrev pub holding : List ℕ → Memory
holding [] i = 0
holding (b ∷ bs) zero = b
holding (b ∷ bs) (suc i) = holding bs i

abbrev pub words : List ℕ → List ℕ → List ℕ
words [] rest = rest
words (n ∷ ns) rest = word n (words ns rest)

abbrev pub nul : List ℕ → List ℕ
nul rest = 0 ∷ rest

abbrev pub uart : Node
uart =
    node (codes "u")
      (property 4 (codes "compatible") (codes "p" ++ nul [])
        ∷ property 0 (codes "reg") (words (1 ∷ 0x7d00_1000 ∷ 0x200 ∷ []) [])
        ∷ [])
      nil

abbrev pub tree : Node
tree = node [] (nop_item ∷ []) (cons uart nil)

abbrev pub strings : List ℕ
strings = codes "reg" ++ nul (codes "compatible" ++ nul [])

abbrev pub head : List ℕ
head = words (0xd00d_feed ∷ 127 ∷ 40 ∷ 112 ∷ 0 ∷ 17 ∷ 16 ∷ 0 ∷ 15 ∷ 72 ∷ []) []

unfoldable pub body : List ℕ
unfolding enc_node
body = enc_node tree (0 ∷ 0 ∷ 0 ∷ 9 ∷ strings)

abbrev pub blob : List ℕ
unfolding body
blob = head ++ body

-- A callback that keeps what it is given, the last first.
abbrev pub collect : Callback (List (ℕ × ℕ))
collect s a = (a ∷ s, continue)

abbrev pub first : Callback (List (ℕ × ℕ))
first s a = (a ∷ s, break)

abbrev pub by_compatible : List ℕ → Search
by_compatible name = record {
  memory = holding blob;
  limit = 64;
  rounds = 8;
  header = record { address = 0 };
  query = record { device_name = none; compatible_name = some name };
}

pub holding-behind : (pre bs : List ℕ) (i : ℕ) → holding (pre ++ bs) (i + length pre) ≡ holding bs i
holding-behind [] bs i = ap (holding bs) (omega arith)
holding-behind (b ∷ pre) bs i =
    ap (holding (b ∷ (pre ++ bs))) {y = suc (i + length pre)} (omega arith)
    ∙ holding-behind pre bs i

-- The memory holds what it starts with, behind the bytes before it.
pub holding-Holds :
    (bs : List ℕ) (m : Memory) (p : ℕ) → ((i : ℕ) → m (i + p) ≡ holding bs i) → Holds m p bs
holding-Holds [] m p h = tt
holding-Holds (b ∷ bs) m p h =
    (ap m (omega arith) ∙ h 0, holding-Holds bs m (p + 1) (λ i. ap m (omega arith) ∙ h (suc i)))

pub holding-At : (pre bs : List ℕ) → At (holding (pre ++ bs)) (length pre) bs
holding-At pre bs = record {
  holds = holding-Holds bs (holding (pre ++ bs)) (length pre) (holding-behind pre bs);
}

pub holding-IsBytes : (bs : List ℕ) → All (λ b. b < 256) bs → IsBytes (holding bs)
holding-IsBytes [] small a = omega arith
holding-IsBytes (b ∷ bs) small zero = small.0
holding-IsBytes (b ∷ bs) small (suc a) = holding-IsBytes bs small.1 a
