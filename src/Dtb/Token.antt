-- ===== src/Dtb/Token.antt =====
-- The tokens of the structure block, and the steps that `DtbParser` of dtb/src/lib.rs makes over them.
use rpi5_baremetal.Base.{
  ℕ, zero, suc, ◌+◌, ◌*◌, ◌/◌, Bool, true, false, not, ◌&&◌, ltb, ◌==◌, if◌then◌else◌, ok,
  out_of_fuel,
}
use rpi5_baremetal.Dtb.BigEndian.{Memory, Result}

-- The constants FDT_BEGIN_NODE to FDT_END; `unknown` is any other word.
pub data Token : Type 0 where
  begin_node : Token
  end_node : Token
  prop : Token
  nop : Token
  end : Token
  unknown : Token

unfoldable pub token_of : ℕ → ℕ → ℕ → ℕ → Token
token_of a b c d =
    if not (a == 0 && b == 0 && c == 0)
    then unknown
    else if d == 1
    then begin_node
    else if d == 2
    then end_node
    else if d == 3
    then prop
    else if d == 4
    then nop
    else if d == 9
    then end
    else unknown

unfoldable pub get_types : Memory → ℕ → Token
unfolding token_of
get_types m p = token_of (m p) (m (p + 1)) (m (p + 2)) (m (p + 3))

unfoldable pub is_nop : Token → Bool
is_nop nop = true
is_nop _ = false

-- `skip_nop`, up to the end of the structure block.
unfoldable pub skip_nop : ℕ → Memory → ℕ → ℕ → Result ℕ
unfolding is_nop
skip_nop zero m struct_end p = out_of_fuel
skip_nop (suc fuel) m struct_end p =
    let rest = skip_nop fuel m struct_end (p + 4) in
    if ltb p struct_end && is_nop (get_types m p) then rest else ok p

-- `(node_name.len() + 1).next_multiple_of(4)`
unfoldable pub name_step : ℕ → ℕ
name_step len = (len + 1 + 3) / 4 * 4
