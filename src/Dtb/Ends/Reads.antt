-- ===== src/Dtb/Ends/Reads.antt =====
-- The loops of dtb/src/lib.rs over the properties of a node and over the NOPs before the tree, in a
-- memory that is zero from some address on.
use rpi5_baremetal.Base.{
  ℕ, zero, suc, ◌+◌, ◌-◌, ◌*◌, ◌≤◌, ◌<◌, ◌≡◌, ◌≢◌, refl, sym, ◌∙◌, inl, inr, true, Bool-cases, List,
  ltb, ◌&&◌, ok, dec_lt, arith,
}
use mathlib.Core.Path.{subst}
use rpi5_baremetal.Dtb.BigEndian.{Result, read_char_str}
use rpi5_baremetal.Dtb.DeviceNode.{SimpleDeviceNode, parse_prop}
use rpi5_baremetal.Dtb.Token.{
  Token, begin_node, end_node, prop, nop, end, unknown, token_of, get_types, skip_nop, is_nop,
}
use rpi5_baremetal.Dtb.Parser.{Props, Search, string_start, read_prop, read_props, open_node}
use rpi5_baremetal.Dtb.Rounds.{at_token, read_props-at_token, opened, open_node-opened}
use rpi5_baremetal.Dtb.Ends.{Ends, IsBlank, >>=-Ends, read_char_str-Ends, parse_prop-Ends}
use rpi5_baremetal.Dtb.Ends.Pointers.{read_prop-pointer}

-- A round of fuel for each word from `p` up to `last`, and two more.
abbrev pub IsEnough : (last p fuel : ℕ) → Type 0
IsEnough last p fuel = last + 8 - p < 4 * fuel

module _ (env : Search) (last : ℕ) (blank : IsBlank env.memory last)
    (enough : last < env.limit) where
  no_token : (p : ℕ) → last ≤ p → get_types env.memory p ≡ unknown
  unfolding get_types token_of
  no_token p beyond =
      rw
        (
          blank p beyond,
          blank (p + 1) (omega arith),
          blank (p + 2) (omega arith),
          blank (p + 3) (omega arith),
        )
        refl

  pub before_last : (p : ℕ) (t : Token) → get_types env.memory p ≡ t → t ≢ unknown → p < last
  before_last p t e known = elim (dec_lt p last) [
    | yes lt ↦ lt
    | no ge ↦ absurd (known (sym e ∙ no_token p (omega arith)))
  ]

  read_prop-Ends : (parents : List SimpleDeviceNode) (s : Props) → Ends (read_prop env parents s)
  unfolding read_prop
  read_prop-Ends parents s =
      >>=-Ends
        (parse_prop env.limit env.memory env.query parents (string_start env) s.pointer s.node)
        (parse_prop-Ends env.memory last blank env.limit enough env.query parents (string_start env)
          s.pointer s.node)
        (λ r _ h. cc h)

  at_token-Ends :
      (t : Token) (parents : List SimpleDeviceNode) (s : Props) (rest : Props → Result Props)
      → get_types env.memory s.pointer ≡ t
      → ((s1 : Props) → s.pointer + 4 ≤ s1.pointer → s.pointer < last → Ends (rest s1))
      → Ends (at_token env t parents s rest)
  at_token-Ends nop parents s rest e go = go _ (omega arith) (before_last s.pointer nop e (λ z. cc))
  at_token-Ends prop parents s rest e go =
      >>=-Ends (read_prop env parents s) (read_prop-Ends parents s) (λ s1 one.
        go s1 (omega (arith, read_prop-pointer env parents s s1 one))
          (before_last s.pointer prop e (λ z. cc)))
  at_token-Ends begin_node parents s rest e go = λ h. cc h
  at_token-Ends end_node parents s rest e go = λ h. cc h
  at_token-Ends end parents s rest e go = λ h. cc h
  at_token-Ends unknown parents s rest e go = λ h. cc h

  read_props-Ends :
      (fuel : ℕ) (parents : List SimpleDeviceNode) (s : Props)
      → IsEnough last s.pointer fuel
      → Ends (read_props env fuel parents s)
  read_props-Ends zero parents s more = absurd (omega arith)
  read_props-Ends (suc fuel) parents s more =
      let t : Token = get_types env.memory s.pointer in
      subst Ends (sym (read_props-at_token env t fuel parents s refl)) (
        at_token-Ends t parents s (read_props env fuel parents) refl
          (λ s1 ahead inside. read_props-Ends fuel parents s1 (omega arith)))

  opened-Ends :
      (t : Token) (fuel : ℕ) (parents : List SimpleDeviceNode) (p : ℕ)
      → get_types env.memory p ≡ t
      → IsEnough last p (suc fuel)
      → Ends (opened env t fuel parents p)
  opened-Ends begin_node fuel parents p e more =
      let inside = before_last p begin_node e (λ z. cc) in
      >>=-Ends (read_char_str env.limit env.memory (p + 4))
        (read_char_str-Ends env.memory last blank env.limit enough (p + 4))
        (λ name _. read_props-Ends fuel parents _ (omega (arith, inside)))
  opened-Ends end_node fuel parents p e more = λ h. cc h
  opened-Ends prop fuel parents p e more = λ h. cc h
  opened-Ends nop fuel parents p e more = λ h. cc h
  opened-Ends end fuel parents p e more = λ h. cc h
  opened-Ends unknown fuel parents p e more = λ h. cc h

  pub open_node-Ends :
      (fuel : ℕ) (parents : List SimpleDeviceNode) (p : ℕ)
      → IsEnough last p (suc fuel)
      → Ends (open_node env fuel parents p)
  open_node-Ends fuel parents p more =
      let t : Token = get_types env.memory p in
      subst Ends (sym (open_node-opened env t fuel parents p refl))
        (opened-Ends t fuel parents p refl more)

  is_nop-nop : (t : Token) → is_nop t ≡ true → t ≡ nop
  unfolding is_nop
  is_nop-nop nop h = refl
  is_nop-nop begin_node h = cc
  is_nop-nop end_node h = cc
  is_nop-nop prop h = cc
  is_nop-nop end h = cc
  is_nop-nop unknown h = cc

  pub skip_nop-pointer :
      (fuel struct_end p q : ℕ) → skip_nop fuel env.memory struct_end p ≡ ok q → p ≤ q
  unfolding skip_nop
  skip_nop-pointer zero struct_end p q h = cc
  skip_nop-pointer (suc fuel) struct_end p q h =
      elim (Bool-cases (ltb p struct_end && is_nop (get_types env.memory p))) [
        | inl more ↦ omega (arith, skip_nop-pointer fuel struct_end (p + 4) q (rw more at h))
        | inr done ↦ let same : p ≡ q = cc (rw done at h) in omega arith
      ]

  pub skip_nop-Ends :
      (fuel struct_end p : ℕ) → IsEnough last p fuel → Ends (skip_nop fuel env.memory struct_end p)
  unfolding skip_nop
  skip_nop-Ends zero struct_end p more_fuel = absurd (omega arith)
  skip_nop-Ends (suc fuel) struct_end p more_fuel =
      elim (Bool-cases (ltb p struct_end && is_nop (get_types env.memory p))) [
        | inl more ↦
            let inside : p < last =
              before_last p nop (is_nop-nop (get_types env.memory p) (ground (arith, more)))
                (λ z. cc) in
            rw more (skip_nop-Ends fuel struct_end (p + 4) (omega (arith, inside)))
        | inr done ↦ rw done (λ h. cc h)
      ]
