-- ===== src/Bootloader/Print/Cores/Messages.antt =====
-- What several cores print, bootloader/src/print.rs.
use rpi5_baremetal.Base.{
  ℕ, ◌<◌, ◌≡◌, ◌≢◌, ◌⊎◌, inl, inr, refl, sym, ap, ◌∙◌, Bool, Bool-cases, true, false, List, [],
  ◌++◌, arith, dec_lt,
}
use mathlib.Core.Path.{subst}
use mathlib.Core.List.{append-nil}
use rpi5_baremetal.Mutex.Threads.{
  go_to, go_to-all, tally, tally-go_to, le-tally, tally_unique, tally-zero, tally-pos,
}
use rpi5_baremetal.Mutex.SpinLock.Exclusion.{flag, flag-le}
use rpi5_baremetal.Bootloader.Print.{pl011_uart_addr}
use rpi5_baremetal.Bootloader.Print.Cores.{
  Console, Point, lock_debug, begins, System, Step, call, go_on, Reach, start, later,
}
use rpi5_baremetal.Bootloader.Print.Cores.Cells.{Cells, Reach-Cells}
use rpi5_baremetal.Bootloader.Print.Cores.Turns.{
  inside, pending, fixed_out, Turn, aside, takes, works, leaves, advance-Turn,
}
use rpi5_baremetal.Bootloader.Print.Cores.Parts.{
  concat, InPart, InPart-begin, InPart-work, InPart-end, InPart-move,
}

-- The lock is taken exactly as long as a core is inside, and that core's text is out in part.
pub record Inv (n : ℕ) (s : System) : Type 0 where
  pub counted : tally inside n s.points ≡ flag s.console.debug_uart.locked
  pub held :
      (j : ℕ)
      → j < n
      → 0 < inside (s.points j)
      → InPart s.begun (fixed_out s.console) (pending (s.points j))
  pub free : s.console.debug_uart.locked ≡ false → fixed_out s.console ≡ concat s.begun

flag-zero : (b : Bool) → flag b ≡ 0 → b ≡ false
flag-zero b h = ground arith

module _ {n : ℕ} {s : System} (inv : Inv n s) (i : ℕ) (lt : i < n) where
  -- No core is inside, or only this one.
  none_inside : s.console.debug_uart.locked ≡ false → (j : ℕ) → j < n → inside (s.points j) ≡ 0
  none_inside open' j lt' = ground (arith, inv.counted, le-tally inside n s.points j lt')

  only_inside : inside (s.points i) ≡ 1 → (j : ℕ) → i ≢ j → j < n → inside (s.points j) ≡ 0
  only_inside in_i j ne lt' = elim (dec_lt 0 (inside (s.points j))) [
    | yes in_j ↦ absurd (
        ne (
          tally_unique inside n s.points i j
            (omega (arith, inv.counted, flag-le s.console.debug_uart.locked)) lt lt' (omega arith)
            in_j))
    | no out ↦ omega arith
  ]

  same_begun : (texts : List (List ℕ)) → texts ≡ [] → s.begun ++ texts ≡ s.begun
  same_begun texts e = ap (λ l. s.begun ++ l) e ∙ append-nil s.begun

  -- What is to hold of a core behind the step.
  abbrev HeldAfter : Console → Point → ℕ → Point → Type 0
  HeldAfter c' p' j q =
      j < n → 0 < inside q → InPart (s.begun ++ begins (s.points i) p') (fixed_out c') (pending q)

  Turn-held :
      (c' : Console) (p' : Point)
      → Turn s.console (s.points i) c' p'
      → (j : ℕ) → j < n
      → 0 < inside (go_to s.points i p' j)
      → InPart (s.begun ++ begins (s.points i) p') (fixed_out c') (pending (go_to s.points i p' j))
  Turn-held c' p' (aside from to locked out texts) =
      go_to-all (HeldAfter c' p') s.points i p' (λ _ in_j. absurd (omega arith))
        (λ j _ lt' in_j.
          InPart-move (sym (same_begun _ texts)) (sym out) refl (inv.held j lt' in_j))
  Turn-held c' p' (takes from to free locked out texts) =
      go_to-all (HeldAfter c' p') s.points i p'
        (λ _ _.
          InPart-move (ap (λ l. s.begun ++ l) (sym texts)) (sym out) refl
            (InPart-begin s.begun _ (pending p') (inv.free free)))
        (λ j _ lt' in_j. absurd (omega (arith, none_inside free j lt')))
  Turn-held c' p' (works d from to locked out left texts) =
      go_to-all (HeldAfter c' p') s.points i p'
        (λ _ _.
          InPart-move (sym (same_begun _ texts)) (sym out) refl
            (InPart-work d (pending p') (InPart-move refl refl left (inv.held i lt (omega arith)))))
        (λ j ne lt' in_j. absurd (omega (arith, only_inside from j ne lt')))
  Turn-held c' p' (leaves from to locked out left texts) =
      go_to-all (HeldAfter c' p') s.points i p' (λ _ in_j. absurd (omega arith))
        (λ j ne lt' in_j. absurd (omega (arith, only_inside from j ne lt')))

  Turn-counted :
      (c' : Console) (p' : Point)
      → Turn s.console (s.points i) c' p'
      → tally inside n (go_to s.points i p') ≡ flag c'.debug_uart.locked
  Turn-counted c' p' (aside from to locked out texts) =
      omega (arith, tally-go_to inside n s.points i p' lt, inv.counted, ap flag locked)
  Turn-counted c' p' (takes from to free locked out texts) =
      omega
        (arith, tally-go_to inside n s.points i p' lt, inv.counted, ap flag free, ap flag locked)
  Turn-counted c' p' (works d from to locked out left texts) =
      omega (arith, tally-go_to inside n s.points i p' lt, inv.counted, ap flag locked)
  Turn-counted c' p' (leaves from to locked out left texts) = omega (
    arith,
    tally-go_to inside n s.points i p' lt,
    inv.counted,
    ap flag locked,
    le-tally inside n s.points i lt,
    flag-le s.console.debug_uart.locked,
  )

  Turn-free :
      (c' : Console) (p' : Point)
      → Turn s.console (s.points i) c' p'
      → c'.debug_uart.locked ≡ false
      → fixed_out c' ≡ concat (s.begun ++ begins (s.points i) p')
  Turn-free c' p' (aside from to locked out texts) open' =
      out ∙ inv.free (sym locked ∙ open') ∙ ap concat (sym (same_begun _ texts))
  Turn-free c' p' (takes from to free locked out texts) open' = cc
  Turn-free c' p' (works d from to locked out left texts) open' =
      absurd (omega (arith, from, none_inside (sym locked ∙ open') i lt))
  Turn-free c' p' (leaves from to locked out left texts) open' =
      out
      ∙ InPart-end (InPart-move refl refl left (inv.held i lt (omega arith)))
      ∙ ap concat (sym (same_begun _ texts))

  Turn-Inv :
      (c' : Console) (p' : Point)
      → Turn s.console (s.points i) c' p'
      → Inv n (record {
        console = c';
        points = go_to s.points i p';
        begun = s.begun ++ begins (s.points i) p';
      })
  Turn-Inv c' p' turn = record {
    counted = Turn-counted c' p' turn;
    held = Turn-held c' p' turn;
    free = Turn-free c' p' turn;
  }

Step-Inv : {n : ℕ} {s t : System} → Cells n s → Step n s t → Inv n s → Inv n t
Step-Inv {n} {s} cells (call i text lt idles) inv =
    let moved : Turn s.console (s.points i) s.console (lock_debug text) =
      subst (λ p. Turn s.console p s.console (lock_debug text)) (sym idles)
        (aside refl refl refl refl refl) in
    subst (λ texts. Inv n (record s { points = go_to s.points i (lock_debug text); begun = texts }))
      (ap (λ p. s.begun ++ begins p (lock_debug text)) idles ∙ append-nil s.begun)
      (Turn-Inv inv i lt s.console (lock_debug text) moved)
Step-Inv {n} {s} cells (go_on i waits lt) inv =
    Turn-Inv inv i lt _ _ (advance-Turn waits s.console (s.points i) cells.cells (cells.fixed i lt))

pub Reach-Inv : {n : ℕ} {s : System} → Reach n s → Inv n s
Reach-Inv {n} start = record {
  counted = tally-zero inside n _ (λ _. refl);
  held = λ j lt in_j. absurd (omega arith);
  free = λ _. refl;
}
Reach-Inv (later r st) = Step-Inv (Reach-Cells r) st (Reach-Inv r)

-- In every state that the cores reach, the debug UART at the fixed address has sent the texts of the
-- calls, whole and one behind the other, in the order in which the cores got its lock: all of them if
-- the lock is free, and if it is taken, all but a rest of the last one. No other UART has sent
-- anything.
pub messages_whole :
    {n : ℕ} {s : System}
    → Reach n s
    → ((s.console.debug_uart.locked ≡ false) × (fixed_out s.console ≡ concat s.begun)
        ⊎ (rest : List ℕ) × (s.console.debug_uart.locked ≡ true)
          × InPart s.begun (fixed_out s.console) rest)
      × ((o : ℕ) → o ≢ pl011_uart_addr → s.console.sent o ≡ [])
messages_whole {n} {s} r =
    let inv = Reach-Inv r in
    (
      elim (Bool-cases s.console.debug_uart.locked) [
        | inl set ↦
            let (j, lt, in_j) = tally-pos inside n s.points (ground (arith, inv.counted)) in
            inr (pending (s.points j), set, inv.held j lt in_j)
        | inr clear ↦ inl (clear, inv.free clear)
      ],
      (Reach-Cells r).cells.others,
    )
