-- ===== src/Bootloader/Print/Cores/Turns.antt =====
-- What a step of a core in `_print`, bootloader/src/print.rs, does to the fixed UART and to its lock.
use rpi5_baremetal.Base.{ℕ, ◌≡◌, refl, sym, ◌∙◌, inl, inr, Bool, true, false, List, [], ◌∷◌, ◌++◌}
use mathlib.Core.Path.{subst}
use mathlib.Core.List.{append-nil}
use rpi5_baremetal.Mutex.Threads.{go_to_same}
use rpi5_baremetal.Mutex.SpinLock.{drop, deref_mut}
use rpi5_baremetal.Mutex.SpinLock.Exclusion.{lock_round-cases}
use rpi5_baremetal.Bootloader.Print.{pl011_uart_addr}
use rpi5_baremetal.Bootloader.Print.Cores.{
  Console, Point, idle, lock_debug, insert_debug, send_debug, lock_rp1, look_rp1, send_rp1,
  drop_rp1, drop_debug, send, advance, begins,
}
use rpi5_baremetal.Bootloader.Print.Cores.Cells.{AreCells, IsFixed}

-- Whether the core has the guard of the debug UART.
abbrev pub inside : Point → ℕ
inside idle = 0
inside (lock_debug text) = 0
inside _ = 1

-- What is left to be sent by the debug UART.
abbrev pub pending : Point → List ℕ
pending (insert_debug text) = text
pending (send_debug a rest text) = rest
pending _ = []

abbrev pub fixed_out : Console → List ℕ
fixed_out c = c.sent pl011_uart_addr

-- Outside, taking the guard, with it, or giving it back.
pub data Turn (c : Console) (p : Point) (c' : Console) (p' : Point) : Type 0 where
  aside :
      inside p ≡ 0
      → inside p' ≡ 0
      → c'.debug_uart.locked ≡ c.debug_uart.locked
      → fixed_out c' ≡ fixed_out c
      → begins p p' ≡ []
      → Turn c p c' p'
  takes :
      inside p ≡ 0
      → inside p' ≡ 1
      → c.debug_uart.locked ≡ false
      → c'.debug_uart.locked ≡ true
      → fixed_out c' ≡ fixed_out c
      → begins p p' ≡ pending p' ∷ []
      → Turn c p c' p'
  works :
      (d : List ℕ)
      → inside p ≡ 1
      → inside p' ≡ 1
      → c'.debug_uart.locked ≡ c.debug_uart.locked
      → fixed_out c' ≡ fixed_out c ++ d
      → pending p ≡ d ++ pending p'
      → begins p p' ≡ []
      → Turn c p c' p'
  leaves :
      inside p ≡ 1
      → inside p' ≡ 0
      → c'.debug_uart.locked ≡ false
      → fixed_out c' ≡ fixed_out c
      → pending p ≡ []
      → begins p p' ≡ []
      → Turn c p c' p'

-- A step with the guard that sends nothing.
quiet :
    {c : Console} {p : Point} {c' : Console} {p' : Point}
    → inside p ≡ 1
    → inside p' ≡ 1
    → c'.debug_uart.locked ≡ c.debug_uart.locked
    → fixed_out c' ≡ fixed_out c
    → pending p ≡ pending p'
    → begins p p' ≡ []
    → Turn c p c' p'
quiet {c} a b same out left none_begins =
    works [] a b same (out ∙ sym (append-nil (fixed_out c))) left none_begins

lock_debug-Turn :
    (waits : Bool) (c : Console) (text : List ℕ)
    → Turn c
        (lock_debug text)
        (advance waits c (lock_debug text)).0
        (advance waits c (lock_debug text)).1
unfolding advance
lock_debug-Turn waits c text = elim (lock_round-cases waits c.debug_uart) [
  | inl (free, got) ↦ rw got (takes refl refl free refl refl refl)
  | inr same ↦ rw same (aside refl refl refl refl refl)
]

lock_rp1-Turn :
    (waits : Bool) (c : Console) (text : List ℕ)
    → Turn c (lock_rp1 text) (advance waits c (lock_rp1 text)).0 (advance waits c (lock_rp1 text)).1
unfolding advance
lock_rp1-Turn waits c text = elim (lock_round-cases waits c.rp1_uart0) [
  | inl (free, got) ↦ rw got (quiet refl refl refl refl refl refl)
  | inr same ↦ rw same (quiet refl refl refl refl refl refl)
]

pub advance-Turn :
    (waits : Bool) (c : Console) (p : Point)
    → AreCells c
    → IsFixed p
    → Turn c p (advance waits c p).0 (advance waits c p).1
unfolding advance drop deref_mut
advance-Turn waits c idle cells fixed = aside refl refl refl refl refl
advance-Turn waits c (lock_debug text) cells fixed = lock_debug-Turn waits c text
advance-Turn waits c (insert_debug text) cells fixed = quiet refl refl refl refl refl refl
advance-Turn waits c (send_debug a [] text) cells fixed = quiet refl refl refl refl refl refl
advance-Turn true c (send_debug a (b ∷ rest) text) cells fixed = quiet refl refl refl refl refl refl
advance-Turn false c (send_debug a (b ∷ rest) text) cells fixed =
    works (b ∷ []) refl refl refl
      (subst (λ o. (send c a b).sent o ≡ c.sent o ++ b ∷ []) fixed
        (go_to_same c.sent a (c.sent a ++ b ∷ [])))
      refl refl
advance-Turn waits c (lock_rp1 text) cells fixed = lock_rp1-Turn waits c text
advance-Turn waits c (look_rp1 text) cells fixed =
    rw (cells.rp1, advance) (quiet refl refl refl refl refl refl)
advance-Turn waits c (send_rp1 a rest) cells fixed = elim fixed [ ]
advance-Turn waits c drop_rp1 cells fixed = quiet refl refl refl refl refl refl
advance-Turn waits c drop_debug cells fixed = leaves refl refl refl refl refl refl
