-- ===== src/Bootloader/Print/Cores.antt =====
-- bootloader/src/print.rs on several cores: `_print` in small steps, one for each round of a lock, each
-- use of a guard and each character. A UART is what was written to its data register.
pub mod Cells
pub mod Turns
pub mod Parts
pub mod Messages
pub mod Completion
use rpi5_baremetal.Base.{ℕ, ◌<◌, ◌≡◌, Bool, true, false, Option, none, some, List, [], ◌∷◌, ◌++◌}
use rpi5_baremetal.Mutex.Threads.{go_to}
use rpi5_baremetal.Mutex.SpinLock.{SpinLock, on_guard, lock_round, drop, deref_mut}
use rpi5_baremetal.Mutex.SpinLock
use rpi5_baremetal.Bootloader.Print.{pl011_uart_addr, or_insert}

-- The two cells, and what was sent by each UART, by its address.
pub record Console : Type 0 where
  pub debug_uart : SpinLock (Option ℕ)
  pub rp1_uart0 : SpinLock (Option ℕ)
  pub sent : ℕ → List ℕ

-- Where a core is in `_print`, with the text of its call: what `core::fmt` makes of it.
pub data Point : Type 0 where
  idle : Point
  lock_debug : (text : List ℕ) → Point
  insert_debug : (text : List ℕ) → Point
  send_debug : (address : ℕ) (rest text : List ℕ) → Point
  lock_rp1 : (text : List ℕ) → Point
  look_rp1 : (text : List ℕ) → Point
  send_rp1 : (address : ℕ) (rest : List ℕ) → Point
  drop_rp1 : Point
  drop_debug : Point

-- The data register of the UART at the address.
abbrev pub send : Console → ℕ → ℕ → Console
send c a b = record c { sent = go_to c.sent a (c.sent a ++ b ∷ []) }

-- The next step of a core in `_print`. With `waits`, the exchange of a lock fails spuriously, and the
-- FIFO of a UART is full. The guards are dropped in the opposite order.
unfoldable pub advance : (waits : Bool) → Console → Point → Console × Point
unfolding lock_round drop deref_mut
advance waits c idle = (c, idle)
advance waits c (lock_debug text) =
    let (l, pc) = lock_round waits c.debug_uart in
    (record c { debug_uart = l }, on_guard pc (insert_debug text) (lock_debug text))
advance waits c (insert_debug text) =
    let a = or_insert c.debug_uart.value pl011_uart_addr in
    (record c { debug_uart = deref_mut (some a) c.debug_uart }, send_debug a text text)
advance waits c (send_debug a [] text) = (c, lock_rp1 text)
advance true c (send_debug a (b ∷ rest) text) = (c, send_debug a (b ∷ rest) text)
advance false c (send_debug a (b ∷ rest) text) = (send c a b, send_debug a rest text)
advance waits c (lock_rp1 text) =
    let (l, pc) = lock_round waits c.rp1_uart0 in
    (record c { rp1_uart0 = l }, on_guard pc (look_rp1 text) (lock_rp1 text))
advance waits c (look_rp1 text) = elim c.rp1_uart0.value [
  | none ↦ (c, drop_rp1)
  | some a ↦ (c, send_rp1 a text)
]
advance waits c (send_rp1 a []) = (c, drop_rp1)
advance true c (send_rp1 a (b ∷ rest)) = (c, send_rp1 a (b ∷ rest))
advance false c (send_rp1 a (b ∷ rest)) = (send c a b, send_rp1 a rest)
advance waits c drop_rp1 = (record c { rp1_uart0 = drop c.rp1_uart0 }, drop_debug)
advance waits c drop_debug = (record c { debug_uart = drop c.debug_uart }, idle)

-- The text of a core that has just got the guard of the debug UART.
abbrev pub begins : Point → Point → List (List ℕ)
begins (lock_debug text) (insert_debug text') = text ∷ []
begins _ _ = []

-- The cores, and the texts of the calls in the order in which they got the debug UART.
pub record System : Type 0 where
  pub console : Console
  pub points : ℕ → Point
  pub begun : List (List ℕ)

pub data Step (n : ℕ) (s : System) : System → Type 0 where
  call :
      (i : ℕ) (text : List ℕ)
      → i < n
      → s.points i ≡ idle
      → Step n s (record s { points = go_to s.points i (lock_debug text) })
  go_on :
      (i : ℕ) (waits : Bool)
      → i < n
      → Step n s (record {
        console = (advance waits s.console (s.points i)).0;
        points = go_to s.points i (advance waits s.console (s.points i)).1;
        begun = s.begun ++ begins (s.points i) (advance waits s.console (s.points i)).1;
      })

-- The cells as they are made, UARTs that have sent nothing, and no core in `_print`.
abbrev pub at_start : System
at_start = record {
  console = record {
    debug_uart = SpinLock.new none;
    rp1_uart0 = SpinLock.new none;
    sent = λ a. [];
  };
  points = λ i. idle;
  begun = [];
}

-- The states that `n` cores reach.
pub data Reach (n : ℕ) : System → Type 0 where
  start : Reach n at_start
  later : {s t : System} → Reach n s → Step n s t → Reach n t
