-- ===== src/Dtb/Walk/Find.antt =====
-- `find_node` of dtb/src/lib.rs on a blob, from the start of its structure block to FDT_END.
use rpi5_baremetal.Base.{
  ◌>>?◌, ℕ, zero, suc, ◌+◌, ◌*◌, ◌≤◌, ◌<◌, ◌≡◌, refl, ◌∙◌, false, inl, inr, List, [], ◌∷◌, ok, err,
  panicked, out_of_fuel, arith,
}
use rpi5_baremetal.Dtb.BigEndian.{Memory, Result, not_at_end}
use rpi5_baremetal.Dtb.Header.{get_struct_start_address, get_struct_end_address}
use rpi5_baremetal.Dtb.AddressIter.{ControlFlow, continue, break, Callback}
use rpi5_baremetal.Dtb.Token.{Token, end, nop, get_types, token_of, skip_nop}
use rpi5_baremetal.Dtb.Parser.{Search, Walk, find_node_recursive, at_end, not_one_name, find_node}
use rpi5_baremetal.Dtb.Break.{IsNodeToken}
use rpi5_baremetal.Dtb.Break.Walks.{find_node_recursive-Ended}
use rpi5_baremetal.Dtb.Layout.{Node, enc_node, size, len_node}
use rpi5_baremetal.Dtb.Layout.Bytes.{At, At-token, At-behind, At-move}
use rpi5_baremetal.Dtb.Walk.Positions.{At-begin, At-node, walk_node-pointer}
use rpi5_baremetal.Dtb.Walk.Correct.{InMemory, find_node_recursive-At}
use rpi5_baremetal.Dtb.Walk.{walk_node}

abbrev pub nops : ℕ → List ℕ → List ℕ
nops zero rest = rest
nops (suc k) rest = 0 ∷ 0 ∷ 0 ∷ 4 ∷ nops k rest

At-nops : (k : ℕ) {m : Memory} {p : ℕ} {bs : List ℕ} → At m p (nops k bs) → At m (p + 4 * k) bs
At-nops zero h = At-move (omega arith) h
At-nops (suc k) h = At-move (omega arith) (At-nops k (At-behind h))

-- `skip_nop` stops at the first node of the block.
skip_nop-At :
    (k fuel struct_end : ℕ) {m : Memory} {p : ℕ} (n : Node) (rest : List ℕ)
    → k < fuel
    → p + 4 * k ≤ struct_end
    → At m p (nops k (enc_node n rest))
    → skip_nop fuel m struct_end p ≡ ok (p + 4 * k)
unfolding skip_nop token_of
skip_nop-At k zero struct_end n rest lt fits h = absurd (omega arith)
skip_nop-At zero (suc fuel) struct_end {p} n rest lt fits h = ground (arith, At-begin n rest h)
skip_nop-At (suc k) (suc fuel) struct_end {m} {p} n rest lt fits h = ground (
  arith,
  At-token {t = nop} refl h,
  skip_nop-At k fuel struct_end n rest (omega arith) (omega arith) (At-behind h),
)

-- What `find_node` makes of a walk over the root: only one that went on is a success.
unfoldable pub walk_result : {S : Type 0} → S × Result Walk → S × Result (Unit {0})
walk_result (s, ok w) = (s, elim w.flow [ continue ↦ ok tt | break ↦ err not_at_end ])
walk_result (s, err e) = (s, err e)
walk_result (s, panicked) = (s, panicked)
walk_result (s, out_of_fuel) = (s, out_of_fuel)

walk_result-eq :
    {S : Type 0} (x : S × Result Walk) (m : Memory)
    → ((s : S) (w : Walk)
        → x ≡ (s, ok w)
        → at_end (get_types m w.pointer)
          ≡ elim w.flow [ continue ↦ ok tt | break ↦ err not_at_end ])
    → (x >>? λ s w. (s, at_end (get_types m w.pointer))) ≡ walk_result x
unfolding walk_result
walk_result-eq (s, ok w) m h = rw (h s w refl)
walk_result-eq (s, err e) m h = refl
walk_result-eq (s, panicked) m h = refl
walk_result-eq (s, out_of_fuel) m h = refl

at_end-node : (t : Token) → IsNodeToken t → at_end t ≡ err not_at_end
unfolding at_end
at_end-node t (inl e) = rw (e, at_end)
at_end-node t (inr e) = rw (e, at_end)

module _ {S : Type 0} (env : Search) (f : Callback S) where
  at_end-walk :
      (c : ControlFlow) (n : Node) (fuel p : ℕ) (s s' : S) (w : Walk) (rest : List ℕ)
      → At env.memory p (enc_node n (0 ∷ 0 ∷ 0 ∷ 9 ∷ rest))
      → find_node_recursive env f fuel [] p s ≡ (s', ok w)
      → walk_node env f [] p n s ≡ (s', ok w)
      → w.flow ≡ c
      → at_end (get_types env.memory w.pointer)
        ≡ elim w.flow [ continue ↦ ok tt | break ↦ err not_at_end ]
  unfolding at_end token_of
  at_end-walk continue n fuel p s s' w rest h ran walked c =
      let at_end_token : get_types env.memory (p + len_node n) ≡ end =
        At-token refl (At-node n _ h) in
      rw (c, walk_node-pointer env f n [] p s walked c, at_end_token)
  at_end-walk break n fuel p s s' w rest h ran walked c = rw c (
      at_end-node _ (
        (find_node_recursive-Ended env f (λ _. Unit {0}) (λ _ _ _ _. tt) fuel [] p s s' w tt
            ran).broken
          c))

  -- Where memory holds, at the start of the structure block, NOPs within the block, the bytes of
  -- a tree and FDT_END, the names of the tree fit and are in UTF-8, the names of its properties
  -- stand in the strings block, and one name is asked for: with fuel for the NOPs and the tree,
  -- `find_node` is the walk over the tree. Each callback on an address, each error and each break
  -- comes where the walk has it, in the order of the document.
  pub find_node-walk :
      (n : Node) (k fuel : ℕ) (s : S) (rest : List ℕ)
      → not_one_name env.query ≡ false
      → At env.memory
          (get_struct_start_address env.memory env.header)
          (nops k (enc_node n (0 ∷ 0 ∷ 0 ∷ 9 ∷ rest)))
      → get_struct_start_address env.memory env.header + 4 * k
        ≤ get_struct_end_address env.memory env.header
      → InMemory env f n
      → k < fuel
      → size n ≤ fuel
      → find_node env f fuel s
        ≡ walk_result
            (walk_node env f [] (get_struct_start_address env.memory env.header + 4 * k) n s)
  unfolding find_node
  find_node-walk n k fuel s rest one h within fits enough_nops enough =
      let p : ℕ = get_struct_start_address env.memory env.header + 4 * k in
      let ran = find_node_recursive-At env f n fuel [] p s _ enough fits (At-nops k h) in
      rw (one, skip_nop-At k fuel _ n _ enough_nops within h, ran)
        (walk_result-eq (walk_node env f [] p n s) env.memory
          (λ s' w e. at_end-walk w.flow n fuel p s s' w rest (At-nops k h) (ran ∙ e) e refl))
