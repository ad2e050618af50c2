-- ===== src/Dtb/Rounds.antt =====
-- One round of each loop of the parser of dtb/src/lib.rs, by the token or the result that it meets.
use rpi5_baremetal.Base.{
  ℕ, suc, ◌+◌, ◌≡◌, refl, false, Option, some, none, List, ok, err, panicked, out_of_fuel, ◌>>?◌,
}
use rpi5_baremetal.Dtb.BigEndian.{Result, unknown_token}
use rpi5_baremetal.Dtb.DeviceNode.{SimpleDeviceNode}
use rpi5_baremetal.Dtb.AddressIter.{
  ControlFlow, continue, break, Callback, Item, next_internal, visit,
}
use rpi5_baremetal.Dtb.Token.{Token, begin_node, end_node, prop, nop, end, unknown, get_types}
use rpi5_baremetal.Dtb.Parser.{Props, Walk, Search, open_node, find_node_recursive, read_children}
use rpi5_baremetal.Dtb.BigEndian.{unexpected_token, not_begin_node, read_char_str}
use rpi5_baremetal.Dtb.Token.{name_step}
use rpi5_baremetal.Dtb.DeviceNode
use rpi5_baremetal.Dtb.Parser.{read_prop, read_props}
use rpi5_baremetal.Base.{◌+◌, length, ◌>>=◌}

-- What the loop over `reg` does after a call of the callback, and at what `next_internal` gives.
abbrev pub after :
    {U : Type 0} → (U → U × Result ControlFlow) → U × ControlFlow → U × Result ControlFlow
after rest y = elim y.1 [ break ↦ (y.0, ok break) | continue ↦ rest y.0 ]

abbrev pub round :
    {U : Type 0}
    → Callback U
    → (Item → U → U × Result ControlFlow)
    → U
    → Result (Option Item)
    → U × Result ControlFlow
round k rest u (ok none) = (u, ok continue)
round k rest u (ok (some item)) = after (rest item) (k u item.result)
round k rest u (err e) = (u, err e)
round k rest u panicked = (u, panicked)
round k rest u out_of_fuel = (u, out_of_fuel)

module _ (env : Search) where
  pub visit-round :
      {U : Type 0} (k : Callback U) (parents : List SimpleDeviceNode) (node : SimpleDeviceNode)
      (fuel : ℕ) (remain : Option ℕ) (u : U) (x : Result (Option Item))
      → next_internal env.memory parents node remain ≡ x
      → visit env.memory parents node (suc fuel) k remain u
        ≡ round k (λ item. visit env.memory parents node fuel k (some item.remain)) u x
  unfolding visit
  visit-round k parents node fuel remain u (ok none) e = rw (e, visit) refl
  visit-round k parents node fuel remain u (ok (some item)) e = rw (e, visit) refl
  visit-round k parents node fuel remain u (err x) e = rw (e, visit) refl
  visit-round k parents node fuel remain u panicked e = rw (e, visit) refl
  visit-round k parents node fuel remain u out_of_fuel e = rw (e, visit) refl

  -- What the loop over the properties does at a token, with `rest` for its next rounds.
  abbrev pub at_token :
      Token → List SimpleDeviceNode → Props → (Props → Result Props) → Result Props
  at_token nop parents s rest = rest (record s { pointer = s.pointer + 4 })
  at_token prop parents s rest = read_prop env parents s >>= rest
  at_token begin_node parents s rest = ok s
  at_token end_node parents s rest = ok s
  at_token end parents s rest = err unexpected_token
  at_token unknown parents s rest = err unexpected_token

  pub read_props-at_token :
      (t : Token) (fuel : ℕ) (parents : List SimpleDeviceNode) (s : Props)
      → get_types env.memory s.pointer ≡ t
      → read_props env (suc fuel) parents s ≡ at_token t parents s (read_props env fuel parents)
  unfolding read_props
  read_props-at_token begin_node fuel parents s e = rw (e, read_props) refl
  read_props-at_token end_node fuel parents s e = rw (e, read_props) refl
  read_props-at_token prop fuel parents s e = rw (e, read_props) refl
  read_props-at_token nop fuel parents s e = rw (e, read_props) refl
  read_props-at_token end fuel parents s e = rw (e, read_props) refl
  read_props-at_token unknown fuel parents s e = rw (e, read_props) refl

  -- What the start of `find_node_recursive` does at a token.
  abbrev pub opened : Token → ℕ → List SimpleDeviceNode → ℕ → Result Props
  opened begin_node fuel parents p = read_char_str env.limit env.memory (p + 4) >>= λ name.
      read_props env fuel parents (record {
        node = DeviceNode.new;
        pointer = p + 4 + name_step (length name);
        find_in_this_node = false;
      })
  opened _ fuel parents p = err not_begin_node

  pub open_node-opened :
      (t : Token) (fuel : ℕ) (parents : List SimpleDeviceNode) (p : ℕ)
      → get_types env.memory p ≡ t
      → open_node env fuel parents p ≡ opened t fuel parents p
  unfolding open_node
  open_node-opened begin_node fuel parents p e = rw (e, open_node) refl
  open_node-opened end_node fuel parents p e = rw (e, open_node) refl
  open_node-opened prop fuel parents p e = rw (e, open_node) refl
  open_node-opened nop fuel parents p e = rw (e, open_node) refl
  open_node-opened end fuel parents p e = rw (e, open_node) refl
  open_node-opened unknown fuel parents p e = rw (e, open_node) refl

  -- What `read_children` does at a token, given what it does behind a child.
  abbrev pub child :
      {U : Type 0} → Callback U → ℕ → List SimpleDeviceNode → ℕ → U → Token → U × Result Walk
  child k fuel parents p u nop = read_children env k fuel parents (p + 4) u
  child k fuel parents p u begin_node = find_node_recursive env k fuel parents p u >>? λ u1 w.
      elim w.flow [ break ↦ (u1, ok w) | continue ↦ read_children env k fuel parents w.pointer u1 ]
  child k fuel parents p u end_node = (u, ok (record { flow = continue; pointer = p + 4 }))
  child k fuel parents p u prop = (u, err unknown_token)
  child k fuel parents p u end = (u, err unknown_token)
  child k fuel parents p u unknown = (u, err unknown_token)

  pub read_children-child :
      {U : Type 0} (k : Callback U) (fuel : ℕ) (parents : List SimpleDeviceNode) (p : ℕ) (u : U)
      (t : Token)
      → get_types env.memory p ≡ t
      → read_children env k (suc fuel) parents p u ≡ child k fuel parents p u t
  unfolding find_node_recursive
  read_children-child k fuel parents p u nop e = rw (e, read_children) refl
  read_children-child k fuel parents p u begin_node e = rw (e, read_children) refl
  read_children-child k fuel parents p u end_node e = rw (e, read_children) refl
  read_children-child k fuel parents p u prop e = rw (e, read_children) refl
  read_children-child k fuel parents p u end e = rw (e, read_children) refl
  read_children-child k fuel parents p u unknown e = rw (e, read_children) refl
