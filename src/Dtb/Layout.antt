-- ===== src/Dtb/Layout.antt =====
-- The flattened form of a device tree, as its specification lays the structure block out: the
-- trees, their bytes, and what it is for a memory to hold them.
pub mod Bytes
use rpi5_baremetal.Base.{
  ℕ, zero, suc, ◌+◌, ◌-◌, ◌*◌, ◌/◌, ◌%◌, ◌^◌, ◌≤◌, ◌<◌, ◌≡◌, true, some, List, [], ◌∷◌, ◌++◌,
  length, All,
}
use rpi5_baremetal.Dtb.Layout.Bytes.{zeros, word}
use rpi5_baremetal.Dtb.Utf8.{is_utf8}
use rpi5_baremetal.Dtb.BigEndian.{Memory, c_str}
use rpi5_baremetal.Dtb.Token.{name_step}

-- What stands before the children of a node. A property names its text by an offset into the
-- strings block; the text itself stands here too.
pub data Item : Type 0 where
  nop_item : Item
  property : (offset : ℕ) (name value : List ℕ) → Item

mutual
  pub data Node : Type 0 where
    node : (name : List ℕ) → List Item → Nodes → Node

  pub data Nodes : Type 0 where
    nil : Nodes
    cons : Node → Nodes → Nodes
    nop_then : Nodes → Nodes

-- Each with the bytes that follow it.
unfoldable pub enc_item : Item → List ℕ → List ℕ
enc_item nop_item rest = 0 ∷ 0 ∷ 0 ∷ 4 ∷ rest
enc_item (property offset name value) rest =
    0
    ∷ 0
    ∷ 0
    ∷ 3
    ∷ word (length value)
        (word offset (value ++ zeros ((length value + 3) / 4 * 4 - length value) rest))

unfoldable pub enc_items : List Item → List ℕ → List ℕ
enc_items [] rest = rest
enc_items (i ∷ is) rest = enc_item i (enc_items is rest)

unfoldable mutual
  pub enc_node : Node → List ℕ → List ℕ
  enc_node (node name is subs) rest =
      0
      ∷ 0
      ∷ 0
      ∷ 1
      ∷ (name
          ++ 0
            ∷ zeros (name_step (length name) - length name - 1)
                (enc_items is (enc_nodes subs (0 ∷ 0 ∷ 0 ∷ 2 ∷ rest))))

  pub enc_nodes : Nodes → List ℕ → List ℕ
  enc_nodes nil rest = rest
  enc_nodes (cons n ns) rest = enc_node n (enc_nodes ns rest)
  enc_nodes (nop_then ns) rest = 0 ∷ 0 ∷ 0 ∷ 4 ∷ enc_nodes ns rest

-- How many bytes each takes.
unfoldable pub len_item : Item → ℕ
len_item nop_item = 4
len_item (property offset name value) = 12 + (length value + 3) / 4 * 4

unfoldable pub len_items : List Item → ℕ
len_items [] = 0
len_items (i ∷ is) = len_item i + len_items is

unfoldable mutual
  pub len_node : Node → ℕ
  len_node (node name is subs) = 4 + name_step (length name) + len_items is + len_nodes subs + 4

  pub len_nodes : Nodes → ℕ
  len_nodes nil = 0
  len_nodes (cons n ns) = len_node n + len_nodes ns
  len_nodes (nop_then ns) = 4 + len_nodes ns

-- Rounds of the parser's loops that are enough.
unfoldable mutual
  pub size : Node → ℕ
  size (node name is subs) = suc (suc (length is + size_nodes subs))

  pub size_nodes : Nodes → ℕ
  size_nodes nil = 1
  size_nodes (cons n ns) = suc (size n + size_nodes ns)
  size_nodes (nop_then ns) = suc (size_nodes ns)

-- NOPs in front of the first child are items of the node.
abbrev pub StartsNode : Nodes → Type 0
StartsNode nil = Unit
StartsNode (cons n ns) = Unit
StartsNode (nop_then ns) = ⊥

-- What a blob gives: names are C strings in UTF-8, lengths and offsets fit their words, and the
-- strings block, at `strings`, holds the name of each property.
module _ (limit : ℕ) (m : Memory) (strings : ℕ) where
  unfoldable pub FitsItem : Item → Type 0
  FitsItem nop_item = Unit
  FitsItem (property offset name value) =
      (length value + 3 < 2 ^ 32)
      × (offset < 2 ^ 32)
      × (c_str limit m (strings + offset) ≡ some name)
      × (is_utf8 name ≡ true)

  unfoldable mutual
    pub Fits : Node → Type 0
    Fits (node name is subs) =
        All (λ b. 0 < b) name
        × (length name < limit)
        × (is_utf8 name ≡ true)
        × All FitsItem is
        × StartsNode subs
        × FitsNodes subs

    pub FitsNodes : Nodes → Type 0
    FitsNodes nil = Unit
    FitsNodes (cons n ns) = Fits n × FitsNodes ns
    FitsNodes (nop_then ns) = FitsNodes ns
