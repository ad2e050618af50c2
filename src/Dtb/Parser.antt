-- ===== src/Dtb/Parser.antt =====
-- `DtbParser` of dtb/src/lib.rs: the walk over the structure block.
use rpi5_baremetal.Base.{
  ℕ, zero, suc, ◌+◌, Bool, true, false, not, ◌&&◌, ◌||◌, Option, none, some, List, [], ◌∷◌, length,
  if◌then◌else◌, ok, err, out_of_fuel, ◌>>=◌, ◌>>?◌,
}
use rpi5_baremetal.Dtb.BigEndian.{
  Memory, Result, both_or_neither, not_begin_node, unexpected_token, unknown_token, not_at_end,
  read_char_str,
}
use rpi5_baremetal.Dtb.Token.{
  begin_node, end_node, prop, nop, end, unknown, Token, get_types, skip_nop, name_step,
}
use rpi5_baremetal.Dtb.Header.{
  DtbHeader, get_struct_start_address, get_struct_end_address, get_string_start_address,
}
use rpi5_baremetal.Dtb.DeviceNode.{SimpleDeviceNode, Query, Parsed, parse_prop}
use rpi5_baremetal.Dtb.DeviceNode
use rpi5_baremetal.Dtb.AddressIter.{ControlFlow, continue, break, Callback, visit}

-- A node whose properties are read: `prop`, `*pointer` and `find_in_this_node`.
pub record Props : Type 0 where
  pub node : SimpleDeviceNode
  pub pointer : ℕ
  pub find_in_this_node : Bool

-- Where a walk over a node stopped, and whether the callback broke it off.
pub record Walk : Type 0 where
  pub flow : ControlFlow
  pub pointer : ℕ

-- The parser with its memory and its search. `limit` bounds the bytes that are looked through for
-- the end of a string, and `rounds` the rounds of the loop over the entries of one `reg`.
pub record Search : Type 0 where
  pub memory : Memory
  pub limit : ℕ
  pub rounds : ℕ
  pub header : DtbHeader
  pub query : Query

unfoldable pub string_start : Search → ℕ
string_start env = get_string_start_address env.memory env.header

unfoldable pub is_some : Option (List ℕ) → Bool
is_some none = false
is_some (some _) = true

-- The end of `find_node`: the token behind the walk must be FDT_END.
unfoldable pub at_end : Token → Result (Unit {0})
at_end end = ok tt
at_end _ = err not_at_end

-- `device_name.is_some() && compatible_name.is_some() || …`
unfoldable pub not_one_name : Query → Bool
unfolding is_some
not_one_name q =
    is_some q.device_name && is_some q.compatible_name
    || not (is_some q.device_name) && not (is_some q.compatible_name)

-- `if prop.parse_prop(…)? { find_in_this_node = true; }`
abbrev pub behind_prop : Bool → Parsed → Props
behind_prop found r = record {
  node = r.node;
  pointer = r.address;
  find_in_this_node = r.result || found;
}

module _ (env : Search) where
  -- The arm FDT_PROP.
  unfoldable pub read_prop : List SimpleDeviceNode → Props → Result Props
  read_prop parents s =
      parse_prop env.limit env.memory env.query parents (string_start env) s.pointer s.node >>= λ r.
      ok (behind_prop s.find_in_this_node r)

  -- The first `loop` of `find_node_recursive`.
  unfoldable pub read_props : ℕ → List SimpleDeviceNode → Props → Result Props
  read_props zero parents s = out_of_fuel
  read_props (suc fuel) parents s = elim (get_types env.memory s.pointer) [
    | nop ↦ read_props fuel parents (record s { pointer = s.pointer + 4 })
    | prop ↦ read_prop parents s >>= λ s'. read_props fuel parents s'
    | begin_node ↦ ok s
    | end_node ↦ ok s
    | end ↦ err unexpected_token
    | unknown ↦ err unexpected_token
  ]

  -- The start of `find_node_recursive`: the token, the name, and the properties.
  unfoldable pub open_node : ℕ → List SimpleDeviceNode → ℕ → Result Props
  unfolding name_step
  open_node fuel parents p = elim (get_types env.memory p) [
    | begin_node ↦ read_char_str env.limit env.memory (p + 4) >>= λ name.
        read_props fuel parents (record {
          node = DeviceNode.new;
          pointer = p + 4 + name_step (length name);
          find_in_this_node = false;
        })
    | _ ↦ err not_begin_node
  ]

module _ {S : Type 0} where
  module _ (env : Search) (f : Callback S) where
    -- `if find_in_this_node { for address in … }`
    unfoldable pub report : List SimpleDeviceNode → Props → S → S × Result ControlFlow
    report parents p s = elim p.find_in_this_node [
      | true ↦ visit env.memory parents p.node env.rounds f none s
      | false ↦ (s, ok continue)
    ]

    -- `find_node_recursive`, and its second `loop`.
    unfoldable mutual
      pub find_node_recursive : ℕ → List SimpleDeviceNode → ℕ → S → S × Result Walk
      find_node_recursive zero parents p s = (s, out_of_fuel)
      find_node_recursive (suc fuel) parents p s = (s, open_node env fuel parents p) >>? λ s1 props.
          report parents props s1 >>? λ s2 flow. elim flow [
            | break ↦ (s2, ok (record { flow = break; pointer = props.pointer }))
            | continue ↦ read_children fuel (props.node ∷ parents) props.pointer s2
          ]

      pub read_children : ℕ → List SimpleDeviceNode → ℕ → S → S × Result Walk
      read_children zero parents p s = (s, out_of_fuel)
      read_children (suc fuel) parents p s = elim (get_types env.memory p) [
        | nop ↦ read_children fuel parents (p + 4) s
        | begin_node ↦ find_node_recursive fuel parents p s >>? λ s1 w. elim w.flow [
          | break ↦ (s1, ok w)
          | continue ↦ read_children fuel parents w.pointer s1
        ]
        | end_node ↦ (s, ok (record { flow = continue; pointer = p + 4 }))
        | prop ↦ (s, err unknown_token)
        | end ↦ (s, err unknown_token)
        | unknown ↦ (s, err unknown_token)
      ]

    unfoldable pub find_node : ℕ → S → S × Result (Unit {0})
    unfolding find_node_recursive at_end
    find_node fuel s =
        if not_one_name env.query
        then (s, err both_or_neither)
        else ((
          s,
          skip_nop fuel env.memory (get_struct_end_address env.memory env.header)
              (get_struct_start_address env.memory env.header),
        )
            >>? λ s1 p. find_node_recursive fuel [] p s1 >>? λ s2 w.
                (s2, at_end (get_types env.memory w.pointer)))
