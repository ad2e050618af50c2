-- ===== src/Bootloader/Print/Cores/Cells.antt =====
-- The cells of bootloader/src/print.rs while several cores print: nobody sets the cell of RP1's UART.
use rpi5_baremetal.Base.{
  ℕ, ◌<◌, ◌≡◌, ◌≢◌, refl, sym, ◌∙◌, Bool, true, false, Option, none, [], ◌∷◌, arith,
}
use rpi5_baremetal.Mutex.Threads.{go_to, go_to_other, go_to-all}
use rpi5_baremetal.Mutex.SpinLock.{on_guard, SpinLock, lock_round, drop, deref_mut}
use rpi5_baremetal.Mutex.SpinLock
use rpi5_baremetal.Bootloader.Print.{pl011_uart_addr, or_insert}
use rpi5_baremetal.Bootloader.Print.Cores.{
  Console, Point, idle, lock_debug, insert_debug, send_debug, lock_rp1, look_rp1, send_rp1,
  drop_rp1, drop_debug, advance, System, call, go_on, Reach, start, later,
}

-- A core sends to the fixed address alone.
abbrev pub IsFixed : Point → Type 0
IsFixed (send_debug a rest text) = a ≡ pl011_uart_addr
IsFixed (send_rp1 a rest) = ⊥
IsFixed _ = Unit

pub record AreCells (c : Console) : Type 0 where
  pub rp1 : c.rp1_uart0.value ≡ none
  pub debug : or_insert c.debug_uart.value pl011_uart_addr ≡ pl011_uart_addr
  pub others : (o : ℕ) → o ≢ pl011_uart_addr → c.sent o ≡ []

lock_round-value : (waits : Bool) (l : SpinLock (Option ℕ)) → (lock_round waits l).0.value ≡ l.value
unfolding lock_round
lock_round-value waits l = ground arith

on_guard-IsFixed :
    (pc : SpinLock.Pc) (p q : Point) → IsFixed p → IsFixed q → IsFixed (on_guard pc p q)
on_guard-IsFixed SpinLock.guarded p q h h' = h
on_guard-IsFixed SpinLock.locking p q h h' = h'
on_guard-IsFixed SpinLock.outside p q h h' = h'

advance-AreCells :
    (waits : Bool) (c : Console) (p : Point)
    → AreCells c
    → IsFixed p
    → AreCells (advance waits c p).0 × IsFixed (advance waits c p).1
unfolding advance
advance-AreCells waits c idle cells fixed = (cells, tt)
advance-AreCells waits c (lock_debug text) cells fixed = (
  record {
    rp1 = cells.rp1;
    debug = rw (lock_round-value waits c.debug_uart) cells.debug;
    others = cells.others;
  },
  on_guard-IsFixed (lock_round waits c.debug_uart).1 _ _ tt tt,
)
advance-AreCells waits c (insert_debug text) cells fixed =
    (record { rp1 = cells.rp1; debug = cells.debug; others = cells.others }, cells.debug)
advance-AreCells waits c (send_debug a [] text) cells fixed = (cells, tt)
advance-AreCells true c (send_debug a (b ∷ rest) text) cells fixed = (cells, fixed)
advance-AreCells false c (send_debug a (b ∷ rest) text) cells fixed = (
  record {
    rp1 = cells.rp1;
    debug = cells.debug;
    others = λ o ne. go_to_other c.sent a o _ (λ e. ne (sym e ∙ fixed)) ∙ cells.others o ne;
  },
  fixed,
)
advance-AreCells waits c (lock_rp1 text) cells fixed = (
  record {
    rp1 = lock_round-value waits c.rp1_uart0 ∙ cells.rp1;
    debug = cells.debug;
    others = cells.others;
  },
  on_guard-IsFixed (lock_round waits c.rp1_uart0).1 _ _ tt tt,
)
advance-AreCells waits c (look_rp1 text) cells fixed = rw (cells.rp1, advance) (cells, tt)
advance-AreCells waits c (send_rp1 a rest) cells fixed = elim fixed [ ]
advance-AreCells waits c drop_rp1 cells fixed =
    (record { rp1 = cells.rp1; debug = cells.debug; others = cells.others }, tt)
advance-AreCells waits c drop_debug cells fixed =
    (record { rp1 = cells.rp1; debug = cells.debug; others = cells.others }, tt)

pub record Cells (n : ℕ) (s : System) : Type 0 where
  pub cells : AreCells s.console
  pub fixed : (j : ℕ) → j < n → IsFixed (s.points j)

all-IsFixed :
    {n : ℕ} (points : ℕ → Point) (i : ℕ) (p : Point)
    → ((j : ℕ) → j < n → IsFixed (points j))
    → IsFixed p
    → (j : ℕ) → j < n
    → IsFixed (go_to points i p j)
all-IsFixed {n} points i p fixed h =
    go_to-all (λ j q. j < n → IsFixed q) points i p (λ _. h) (λ j _. fixed j)

pub Reach-Cells : {n : ℕ} {s : System} → Reach n s → Cells n s
Reach-Cells start = record {
  cells = record { rp1 = refl; debug = refl; others = λ o ne. refl };
  fixed = λ j lt. tt;
}
Reach-Cells {n} (later {s = s} r (call i text lt idles)) =
    let h = Reach-Cells r in
    record { cells = h.cells; fixed = all-IsFixed s.points i (lock_debug text) h.fixed tt }
Reach-Cells {n} (later {s = s} r (go_on i waits lt)) =
    let h = Reach-Cells r in
    let (cells, fixed) = advance-AreCells waits s.console (s.points i) h.cells (h.fixed i lt) in
    record { cells = cells; fixed = all-IsFixed s.points i _ h.fixed fixed }
