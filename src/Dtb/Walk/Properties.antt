-- ===== src/Dtb/Walk/Properties.antt =====
-- The first loop of `find_node_recursive`, over a memory that holds the properties.
use rpi5_baremetal.Base.{
  ℕ, zero, suc, ◌+◌, ◌-◌, ◌<◌, ◌≡◌, refl, sym, ◌⊎◌, inl, inr, Bool, err, panicked, out_of_fuel,
  if◌then◌else◌, ◌*◌, ◌/◌, ◌^◌, List, [], ◌∷◌, length, All, ok, ◌>>=◌, >>=-eq-ok, >>=-cong, arith,
}
use rpi5_baremetal.Dtb.BigEndian.{Memory, Result, invalid_size, get_property_len, get_name_offset}
use rpi5_baremetal.Dtb.DeviceNode.{
  Arm, Value, SimpleDeviceNode, prop_name, match_name, too_short, skip_value, parse_prop,
}
use rpi5_baremetal.Dtb.Token.{Token, prop, nop, begin_node, end_node, get_types, token_of}
use rpi5_baremetal.Dtb.Parser.{Props, Search, string_start, behind_prop, read_prop, read_props}
use rpi5_baremetal.Dtb.Layout.{
  nop_item, property, Item, enc_item, enc_items, len_item, len_items, FitsItem,
}
use rpi5_baremetal.Dtb.Layout.Bytes.{
  read_char_str-eq, At, At-token, At-word, At-behind, At-append, At-zeros, At-move,
}
use rpi5_baremetal.Dtb.Walk.{walk_item, walk_items}

-- Behind an item.
pub At-item :
    (i : Item) {m : Memory} {p : ℕ} (rest : List ℕ)
    → At m p (enc_item i rest)
    → At m (p + len_item i) rest
unfolding enc_item len_item
At-item nop_item rest h = At-behind h
At-item (property offset name value) rest h = At-move (omega arith) (
    At-zeros ((length value + 3) / 4 * 4 - length value)
      (At-append value (At-behind (At-behind (At-behind h)))))

pub At-items :
    (is : List Item) {m : Memory} {p : ℕ} (rest : List ℕ)
    → At m p (enc_items is rest)
    → At m (p + len_items is) rest
unfolding enc_items len_items
At-items [] rest h = At-move (omega arith) h
At-items (i ∷ is) rest h = At-move (omega arith) (At-items is rest (At-item i _ h))

abbrev value_at : ℕ → ℕ → Value
value_at address len = record { address = address; len = len }

-- The value's length leaves room for the padding, so the step over it does not overflow.
skip_value-eq :
    (r : Result Arm) (address len : ℕ) (found : Bool)
    → len + 3 < 2 ^ 32
    → (r >>= (λ arm. skip_value (value_at (address + 12) len) arm) >>= λ r.
        ok (behind_prop found r))
      ≡ (r >>= λ arm.
          if too_short arm.size len
          then err invalid_size
          else ok (
              behind_prop found (record {
                node = arm.node;
                result = arm.result;
                address = address + (12 + (len + 3) / 4 * 4);
              })))
unfolding skip_value
skip_value-eq (ok arm) address len found fits = ground arith
skip_value-eq (err e) address len found fits = refl
skip_value-eq panicked address len found fits = refl
skip_value-eq out_of_fuel address len found fits = refl

abbrev token : Item → Token
token nop_item = nop
token (property offset name value) = prop

item_token :
    (i : Item) {m : Memory} {p : ℕ} (rest : List ℕ)
    → At m p (enc_item i rest)
    → get_types m p ≡ token i
unfolding enc_item token_of
item_token nop_item rest h = At-token refl h
item_token (property offset name value) rest h = At-token refl h

module _ (env : Search) (parents : List SimpleDeviceNode) where
  -- `parse_prop` reads the name and the length that the bytes encode, and steps over the value.
  read_prop-At :
      (s : Props) (offset : ℕ) (name value rest : List ℕ)
      → At env.memory s.pointer (enc_item (property offset name value) rest)
      → FitsItem env.limit env.memory (string_start env) (property offset name value)
      → read_prop env parents s ≡ walk_item env parents s (property offset name value)
  unfolding read_prop parse_prop walk_item FitsItem enc_item get_name_offset get_property_len
      len_item
  read_prop-At s offset name value rest h (len_fits, off_fits, text, utf8) =
      let at_len = At-behind h in
      rw
        (
          At-word off_fits (At-behind at_len),
          read_char_str-eq _ _ _ text utf8,
          At-word (omega arith) at_len,
        )
        (skip_value-eq _ s.pointer (length value) s.find_in_this_node len_fits)

  walk_item-pointer :
      (s : Props) (i : Item) {s' : Props}
      → walk_item env parents s i ≡ ok s'
      → s'.pointer ≡ s.pointer + len_item i
  unfolding walk_item
  walk_item-pointer s nop_item h = ground arith
  walk_item-pointer s (property offset name value) h =
      let (arm, e, e') =
        >>=-eq-ok
          (match_name env.limit env.memory env.query parents (prop_name name)
            (value_at (s.pointer + 12) (length value)) s.node)
          _ h in
      ground arith

  pub walk_items-pointer :
      (is : List Item) (s : Props) {s' : Props}
      → walk_items env parents s is ≡ ok s'
      → s'.pointer ≡ s.pointer + len_items is
  unfolding walk_items len_items
  walk_items-pointer [] s h = ground arith
  walk_items-pointer (i ∷ is) s h =
      let (s1, e, e') = >>=-eq-ok (walk_item env parents s i) _ h in
      omega (arith, walk_item-pointer s i e, walk_items-pointer is s1 e')

  -- The loop takes the items one by one, and stops at the token of a node.
  pub read_props-At :
      (is : List Item) (fuel : ℕ) (s : Props) (rest : List ℕ)
      → length is < fuel
      → At env.memory s.pointer (enc_items is rest)
      → All (FitsItem env.limit env.memory (string_start env)) is
      → ((p : ℕ)
          → p ≡ s.pointer + len_items is
          → (get_types env.memory p ≡ begin_node) ⊎ (get_types env.memory p ≡ end_node))
      → read_props env fuel parents s ≡ walk_items env parents s is
  unfolding read_props walk_items enc_items len_items len_item
  read_props-At is zero s rest lt h fits stop = absurd (omega arith)
  read_props-At [] (suc fuel) s rest lt h fits stop = elim (stop s.pointer (omega arith)) [
    | inl e ↦ rw (e, read_props)
    | inr e ↦ rw (e, read_props)
  ]
  read_props-At (nop_item ∷ is) (suc fuel) s rest lt h fits stop =
      rw (item_token nop_item _ h, read_props)
        (read_props-At is fuel (record s { pointer = s.pointer + 4 }) rest (omega arith)
          (At-item nop_item _ h) fits.1 (λ p e. stop p (omega arith)))
  read_props-At (property offset name value ∷ is) (suc fuel) s rest lt h fits stop =
      rw
        (
          item_token (property offset name value) _ h,
          read_props,
          read_prop-At s offset name value _ h fits.0,
        )
        (>>=-cong (walk_item env parents s (property offset name value)) (λ s' e.
          let moved = walk_item-pointer s (property offset name value) e in
          read_props-At is fuel s' rest (omega arith)
            (At-move (sym moved) (At-item (property offset name value) _ h)) fits.1
            (λ p q. stop p (omega arith))))
