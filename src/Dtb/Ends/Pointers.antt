-- ===== src/Dtb/Ends/Pointers.antt =====
-- The pointer of the parser of dtb/src/lib.rs only goes on, in any memory.
use rpi5_baremetal.Base.{
  ℕ, zero, suc, ◌+◌, ◌≤◌, ◌≡◌, refl, ap, sym, ◌∙◌, List, length, ok, >>=-eq-ok, arith,
}
use rpi5_baremetal.Dtb.BigEndian.{Result, read_char_str}
use rpi5_baremetal.Dtb.DeviceNode.{
  SimpleDeviceNode, Value, Arm, Parsed, next_multiple_of_4, skip_value, match_name, prop_name,
  parse_prop,
}
use rpi5_baremetal.Dtb.Token.{
  Token, begin_node, end_node, prop, nop, end, unknown, get_types, name_step,
}
use rpi5_baremetal.Dtb.Parser.{Props, Search, string_start, read_prop, read_props, open_node}
use rpi5_baremetal.Dtb.Rounds.{at_token, read_props-at_token, opened, open_node-opened}

skip_value-address :
    (v : Value) (arm : Arm) {r : Parsed} → skip_value v arm ≡ ok r → v.address ≤ r.address
unfolding skip_value next_multiple_of_4
skip_value-address v arm h = ground arith

module _ (env : Search) where
  pub read_prop-pointer :
      (parents : List SimpleDeviceNode) (s s' : Props)
      → read_prop env parents s ≡ ok s'
      → s.pointer + 12 ≤ s'.pointer
  unfolding read_prop parse_prop
  read_prop-pointer parents s s' h =
      let (r, parsed, last) =
        >>=-eq-ok
          (parse_prop env.limit env.memory env.query parents (string_start env) s.pointer s.node) _
          h in
      let (name, _, h1) = >>=-eq-ok (read_char_str env.limit env.memory _) _ parsed in
      let (arm, _, h2) =
        >>=-eq-ok (match_name env.limit env.memory env.query parents (prop_name name) _ s.node) _
          h1 in
      let same : r.address ≡ s'.pointer = cc last in
      omega (arith, same, skip_value-address _ arm h2)

  at_token-pointer :
      (t : Token) (parents : List SimpleDeviceNode) (s s' : Props) (rest : Props → Result Props)
      → ((s1 : Props) → rest s1 ≡ ok s' → s1.pointer ≤ s'.pointer)
      → at_token env t parents s rest ≡ ok s'
      → s.pointer ≤ s'.pointer
  at_token-pointer nop parents s s' rest ih h = omega (arith, ih _ h)
  at_token-pointer prop parents s s' rest ih h =
      let (s1, one, more) = >>=-eq-ok (read_prop env parents s) rest h in
      omega (arith, read_prop-pointer parents s s1 one, ih s1 more)
  at_token-pointer begin_node parents s s' rest ih h =
      let same : s ≡ s' = cc h in omega (arith, ap (λ x. x.pointer) same)
  at_token-pointer end_node parents s s' rest ih h =
      let same : s ≡ s' = cc h in omega (arith, ap (λ x. x.pointer) same)
  at_token-pointer end parents s s' rest ih h = cc h
  at_token-pointer unknown parents s s' rest ih h = cc h

  pub read_props-pointer :
      (fuel : ℕ) (parents : List SimpleDeviceNode) (s s' : Props)
      → read_props env fuel parents s ≡ ok s'
      → s.pointer ≤ s'.pointer
  unfolding read_props
  read_props-pointer zero parents s s' h = cc
  read_props-pointer (suc fuel) parents s s' h =
      let t : Token = get_types env.memory s.pointer in
      at_token-pointer t parents s s' (read_props env fuel parents)
        (λ s1. read_props-pointer fuel parents s1 s')
        (sym (read_props-at_token env t fuel parents s refl) ∙ h)

  pub name_step-le : (n : ℕ) → 4 ≤ name_step n
  unfolding name_step
  name_step-le n = omega arith

  opened-pointer :
      (t : Token) (fuel : ℕ) (parents : List SimpleDeviceNode) (p : ℕ) (s' : Props)
      → opened env t fuel parents p ≡ ok s'
      → (t ≡ begin_node) × (p + 8 ≤ s'.pointer)
  opened-pointer begin_node fuel parents p s' h =
      let (name, _, more) = >>=-eq-ok (read_char_str env.limit env.memory (p + 4)) _ h in
      (refl, omega (arith, read_props-pointer fuel parents _ s' more, name_step-le (length name)))
  opened-pointer end_node fuel parents p s' h = cc h
  opened-pointer prop fuel parents p s' h = cc h
  opened-pointer nop fuel parents p s' h = cc h
  opened-pointer end fuel parents p s' h = cc h
  opened-pointer unknown fuel parents p s' h = cc h

  -- A node that is opened is at its token, and its properties end behind its name.
  pub open_node-pointer :
      (fuel : ℕ) (parents : List SimpleDeviceNode) (p : ℕ) (s' : Props)
      → open_node env fuel parents p ≡ ok s'
      → (get_types env.memory p ≡ begin_node) × (p + 8 ≤ s'.pointer)
  open_node-pointer fuel parents p s' h =
      opened-pointer (get_types env.memory p) fuel parents p s'
        (sym (open_node-opened env (get_types env.memory p) fuel parents p refl) ∙ h)
