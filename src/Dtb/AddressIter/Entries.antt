-- ===== src/Dtb/AddressIter/Entries.antt =====
-- The loop over `DeviceAddressIter` of dtb/src/lib.rs, on a `reg` of whole entries and on others.
use rpi5_baremetal.Base.{
  ℕ, zero, suc, ◌+◌, ◌-◌, ◌*◌, ◌≤◌, ◌<◌, ◌≡◌, refl, ap, some, none, List, [], ◌∷◌, length, ok,
  panicked, out_of_fuel, arith,
}
use rpi5_baremetal.Dtb.BigEndian.{Memory, Result, read_regs}
use rpi5_baremetal.Dtb.DeviceNode.{SimpleDeviceNode}
use rpi5_baremetal.Dtb.Address.{read_reg_internal, calculate_address_internal}
use rpi5_baremetal.Dtb.AddressIter.{
  ControlFlow, continue, break, Callback, next_internal, ok_or_none, visit,
}

abbrev pub stopped_or : {S : Type 0} → ControlFlow → S → S × ControlFlow → S × ControlFlow
stopped_or break s r = (s, break)
stopped_or continue s r = r

-- The callback on one address after the other, up to the first at which it breaks off.
unfoldable pub run_all : {S : Type 0} → Callback S → List (ℕ × ℕ) → S → S × ControlFlow
run_all f [] s = (s, continue)
run_all f (a ∷ l) s = stopped_or (f s a).1 (f s a).0 (run_all f l (f s a).0)

flow_pair :
    {S : Type 0} (c : ControlFlow) (s : S) (r : S × Result ControlFlow) (r' : S × ControlFlow)
    → r ≡ (r'.0, ok r'.1)
    → ◌≡◌ {A = S × Result ControlFlow}
        (elim c [ break ↦ (s, ok break) | continue ↦ r ])
        ((stopped_or c s r').0, ok (stopped_or c s r').1)
flow_pair continue s r r' h = h
flow_pair break s r r' h = refl

module _ (m : Memory) (parent : SimpleDeviceNode) (parents : List SimpleDeviceNode)
    (node : SimpleDeviceNode) (base size : ℕ) where
  -- The bytes of one entry, and the entry at an offset as the cells of the parent divide it.
  abbrev pub step : ℕ
  step = (parent.address_cells + parent.size_cells) * 4

  abbrev pub entry_at : ℕ → ℕ × ℕ
  entry_at off =
      let address = read_regs m (base + off) parent.address_cells in
      (address.value, (read_regs m (base + off + address.consumed) parent.size_cells).value)

  -- From the offset on, the value is divided into whole entries, and they translate to these.
  pub data Entries : ℕ → List (ℕ × ℕ) → Type 0 where
    done : {off : ℕ} → off ≡ size → Entries off []
    entry :
        {off : ℕ} {a : ℕ × ℕ} {l : List (ℕ × ℕ)}
        → calculate_address_internal m (parent ∷ parents) node (entry_at off) ≡ ok a
        → Entries (off + step) l
        → Entries off (a ∷ l)

  Entries-le : {off : ℕ} {l : List (ℕ × ℕ)} → Entries off l → off ≤ size
  Entries-le (done e) = omega arith
  Entries-le (entry {off = off} h rest) = omega (arith, Entries-le rest)

  module _ (reg : node.reg ≡ some (base, size)) (small : parent.address_cells ≤ 2)
      (small' : parent.size_cells ≤ 2) where
    read_entry :
        (off : ℕ) → read_reg_internal m (parent ∷ parents) node off ≡ ok (some (entry_at off))
    unfolding read_reg_internal
    read_entry off = rw (reg, read_reg_internal) (ground arith)

    next_entry :
        (off remain : ℕ) (a : ℕ × ℕ)
        → size - remain ≡ off
        → 0 < remain
        → step ≤ remain
        → calculate_address_internal m (parent ∷ parents) node (entry_at off) ≡ ok a
        → next_internal m (parent ∷ parents) node (some remain)
          ≡ ok (some (record { result = a; remain = remain - step }))
    unfolding next_internal
    next_entry off remain a e pos enough h =
        rw (ap ok_or_none reg, next_internal) (rw (e, read_entry off, h) (ground arith))

    half_entry :
        (off remain : ℕ) (a : ℕ × ℕ)
        → size - remain ≡ off
        → 0 < remain
        → remain < step
        → calculate_address_internal m (parent ∷ parents) node (entry_at off) ≡ ok a
        → next_internal m (parent ∷ parents) node (some remain) ≡ panicked
    unfolding next_internal
    half_entry off remain a e pos short h =
        rw (ap ok_or_none reg, next_internal) (rw (e, read_entry off, h) (ground arith))

    no_more :
        (remain : ℕ) → remain ≡ 0 → next_internal m (parent ∷ parents) node (some remain) ≡ ok none
    unfolding next_internal
    no_more remain e = rw (ap ok_or_none reg, next_internal) (rw e)

    -- On a node with a `reg`, under a parent with at most two cells for an address and for a
    -- size, and not none for both: if the value from an offset on is divided into whole entries
    -- and each translates, the loop calls the callback on their addresses, in their order, up to
    -- the first at which it breaks off, and ends with a round more than there are entries.
    pub visit-Entries :
        {S : Type 0} (f : Callback S) {l : List (ℕ × ℕ)} (fuel off remain : ℕ) (s : S)
        → 0 < step
        → Entries off l
        → off + remain ≡ size
        → length l < fuel
        → visit m (parent ∷ parents) node fuel f (some remain) s
          ≡ ((run_all f l s).0, ok (run_all f l s).1)
    unfolding visit run_all
    visit-Entries f zero off remain s pos entries e enough = absurd (omega arith)
    visit-Entries f (suc fuel) off remain s pos (done at) e enough =
        let over : remain ≡ 0 = omega arith in rw (no_more remain over, visit)
    visit-Entries f (suc fuel) off remain s pos (entry {a = a} {l = l} h rest) e enough =
        let room = Entries-le rest in
        rw
          (
            next_entry off remain a (omega arith) (omega (arith, room)) (omega (arith, room)) h,
            visit,
          )
          (flow_pair (f s a).1 (f s a).0 _ (run_all f l (f s a).0) (
            visit-Entries f fuel (off + step) (remain - step) (f s a).0 pos rest
              (omega (arith, room)) (omega arith)))

    -- Under the same parent: where less than an entry of `reg` is left, and the entry read there
    -- translates, the loop panics in the subtraction and does not call the callback.
    pub visit-partial :
        {S : Type 0} (f : Callback S) (fuel off remain : ℕ) (a : ℕ × ℕ) (s : S)
        → 0 < remain
        → remain < step
        → off + remain ≡ size
        → calculate_address_internal m (parent ∷ parents) node (entry_at off) ≡ ok a
        → visit m (parent ∷ parents) node (suc fuel) f (some remain) s ≡ (s, panicked)
    unfolding visit next_internal
    visit-partial f fuel off remain a s pos short e h =
        rw (half_entry off remain a (omega arith) pos short h, visit)

    -- Under a parent with no cells for an address and for a size, where the entry of `reg`
    -- translates and the callback never breaks off: however many rounds are given, the loop over
    -- what is left of `reg` does not end.
    pub visit-stuck :
        {S : Type 0} (f : Callback S) (fuel remain : ℕ) (a : ℕ × ℕ) (s : S)
        → ((s : S) (a : ℕ × ℕ) → (f s a).1 ≡ continue)
        → step ≡ 0
        → 0 < remain
        → remain ≤ size
        → calculate_address_internal m (parent ∷ parents) node (entry_at (size - remain)) ≡ ok a
        → (visit m (parent ∷ parents) node fuel f (some remain) s).1 ≡ out_of_fuel
    unfolding visit
    visit-stuck f zero remain a s goes none_left pos within h = refl
    visit-stuck f (suc fuel) remain a s goes none_left pos within h =
        let same : remain - step ≡ remain = omega arith in
        rw (next_entry (size - remain) remain a refl pos (omega arith) h, visit)
          (rw (goes s a, same) (visit-stuck f fuel remain a (f s a).0 goes none_left pos within h))
