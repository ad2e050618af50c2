-- ===== src/Bootloader/Boot/Discovery/InTree.antt =====
-- The search for the debug UART at the start of `main` of bootloader/src/main.rs, on a memory that
-- holds the blob of a tree.
use rpi5_baremetal.Base.{
  ℕ, ◌+◌, ◌*◌, ◌≤◌, ◌<◌, ◌≡◌, refl, ◌∙◌, ap, sym, List, [], ◌∷◌, ◌>>=◌, arith,
}
use mathlib.Core.Path.{subst}
use rpi5_baremetal.Dtb.BigEndian.{Memory, Result}
use rpi5_baremetal.Dtb.Header.{DtbHeader, get_struct_start_address, get_struct_end_address}
use rpi5_baremetal.Dtb.Header.Blocks.{
  Fields, enc_header, AreWords, Blocks, new_iff, enc_header-Blocks,
}
use rpi5_baremetal.Dtb.Parser.{find_node, not_one_name}
use rpi5_baremetal.Dtb.Layout.{Node, enc_node, size}
use rpi5_baremetal.Dtb.Layout.Bytes.{At}
use rpi5_baremetal.Dtb.Walk.{walk_node}
use rpi5_baremetal.Dtb.Walk.Correct.{InMemory}
use rpi5_baremetal.Dtb.Walk.Find.{nops, walk_result, find_node-walk}
use rpi5_baremetal.Bootloader.Boot.{unwrap, unwrap_some, uart_search, find_debug_uart}
use rpi5_baremetal.Bootloader.Boot.Discovery.{keep_all, earliest, find_debug_uart-earliest}

-- The header at the fixed address.
abbrev pub at_boot : DtbHeader
at_boot = record { address = 0x2000_0000 }

-- The blob at the fixed address: its header, and where the header says that the structure block is,
-- NOPs within the block, the tree and FDT_END.
pub record HoldsTree (m : Memory) (limit rounds : ℕ) (h : Fields) (rest : List ℕ) (k : ℕ) (n : Node)
    (behind : List ℕ) : Type 0 where
  pub header : At m 0x2000_0000 (enc_header h rest)
  pub words : AreWords h
  pub magic : h.magic ≡ 0xd00d_feed
  pub compatible : h.last_comp_version ≤ 17
  pub tree : At m (0x2000_0000 + h.off_dt_struct) (nops k (enc_node n (0 ∷ 0 ∷ 0 ∷ 9 ∷ behind)))
  pub within : 4 * k ≤ h.size_dt_struct
  pub fits : InMemory (uart_search m limit rounds at_boot) keep_all n

-- What the walk over the tree reports, with the tree behind `k` NOPs of the structure block.
abbrev pub reported : Memory → (limit rounds : ℕ) → Fields → ℕ → Node → List ℕ × Result (Unit {0})
reported m limit rounds h k n = walk_result (
    walk_node (uart_search m limit rounds at_boot) keep_all []
      (0x2000_0000 + h.off_dt_struct + 4 * k) n [])

module _ {m : Memory} {limit rounds : ℕ} {h : Fields} {rest : List ℕ} {k : ℕ} {n : Node}
    {behind : List ℕ} (blob : HoldsTree m limit rounds h rest k n behind) where
  found_in_tree :
      (fuel : ℕ)
      → k < fuel
      → size n ≤ fuel
      → find_node (uart_search m limit rounds at_boot) keep_all fuel []
        ≡ reported m limit rounds h k n
  unfolding not_one_name
  found_in_tree fuel enough_nops enough =
      let env = uart_search m limit rounds at_boot in
      let at_blocks : Blocks m 0x2000_0000 h = enc_header-Blocks h rest blob.words blob.header in
      let begin : get_struct_start_address m at_boot ≡ 0x2000_0000 + h.off_dt_struct =
        at_blocks.struct_start in
      let end : get_struct_end_address m at_boot
          ≡ 0x2000_0000 + h.off_dt_struct + h.size_dt_struct =
        at_blocks.struct_end in
      find_node-walk env keep_all n k fuel [] behind refl
        (subst (λ p. At m p (nops k (enc_node n (0 ∷ 0 ∷ 0 ∷ 9 ∷ behind)))) (sym begin) blob.tree)
        (omega (arith, begin, end, blob.within)) blob.fits enough_nops enough
      ∙ ap (λ p. walk_result (walk_node env keep_all [] (p + 4 * k) n [])) begin

  -- Where memory holds a blob at 0x2000_0000, with a magic number and a version that the parser
  -- takes, NOPs within the structure block, the bytes of a tree that fits and FDT_END: with fuel for
  -- the NOPs and the tree, the address of the debug UART is the first one that the walk over the
  -- tree reports for "arm,pl011"; the program panics if the walk fails, or if it reports none.
  pub find_debug_uart-walk :
      (fuel : ℕ)
      → k < fuel
      → size n ≤ fuel
      → find_debug_uart m limit rounds fuel ≡ (
          unwrap (reported m limit rounds h k n).1 >>= λ _.
          unwrap_some (earliest (reported m limit rounds h k n).0))
  find_debug_uart-walk fuel enough_nops enough =
      find_debug_uart-earliest m limit rounds fuel at_boot (reported m limit rounds h k n).0
        (reported m limit rounds h k n).1
        ((new_iff h rest blob.words blob.header at_boot).1 (blob.magic, blob.compatible, refl))
        (found_in_tree fuel enough_nops enough)
