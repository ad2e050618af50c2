-- ===== src/Bootloader/Print/Output.antt =====
-- What `_print` of bootloader/src/print.rs writes, and where.
use rpi5_baremetal.Base.{
  ℕ, ◌≡◌, refl, sym, ap, ◌∙◌, Bool, true, false, Option, none, some, List, [], ◌∷◌, ◌++◌, ok,
}
use mathlib.Core.List.{append-nil}
use rpi5_baremetal.Bootloader.Pl011.Sending.{sent}
use rpi5_baremetal.Mutex.SpinLock.{SpinLock, lock_round, compare_exchange_weak, drop}
use rpi5_baremetal.Bootloader.Board.{Board, Hardware}
use rpi5_baremetal.Bootloader.Board.Effects.{Does, Does-seq, told, write_told-Does, IsResponsive}
use rpi5_baremetal.Bootloader.Print.{pl011_uart_addr, lock, or_insert, write_fmt, write_if, print}

-- What is heard at `o` of pieces for the address `a`, one after the other.
unfoldable pub all_told : (o a : ℕ) → List (List ℕ) → List ℕ
unfolding told
all_told o a [] = []
all_told o a (piece ∷ pieces) = told o a piece ++ all_told o a pieces

unfoldable pub told_if : ℕ → Option ℕ → List (List ℕ) → List ℕ
unfolding all_told
told_if o none pieces = []
told_if o (some a) pieces = all_told o a pieces

lock_flag :
    (f : Bool) (v : Option ℕ)
    → f ≡ false
    → lock (record { locked = f; value = v }) ≡ ok (record { locked = true; value = v })
unfolding lock lock_round compare_exchange_weak
lock_flag true v free = cc
lock_flag false v free = refl

lock-free :
    (l : SpinLock (Option ℕ))
    → l.locked ≡ false
    → lock l ≡ ok (record { locked = true; value = l.value })
lock-free l = lock_flag l.locked l.value

module _ {hw : Hardware} {bound : ℕ} (responsive : IsResponsive hw bound) (o : ℕ) where
  write_fmt-Does :
      (a : ℕ) (pieces : List (List ℕ)) → Does o (write_fmt hw a pieces) (all_told o a pieces) []
  unfolding write_fmt all_told
  write_fmt-Does a [] b = record {
    end = b;
    returned = refl;
    gpio = sym (append-nil b.gpio);
    text = sym (append-nil (sent (b.uarts o).log));
    cells = (refl, refl);
  }
  write_fmt-Does a (piece ∷ pieces) b =
      Does-seq (write_told-Does responsive a piece) (write_fmt-Does a pieces) b

  write_if-Does :
      (a : Option ℕ) (pieces : List (List ℕ))
      → Does o (write_if hw a pieces) (told_if o a pieces) []
  unfolding write_if told_if
  write_if-Does none pieces b = record {
    end = b;
    returned = refl;
    gpio = sym (append-nil b.gpio);
    text = sym (append-nil (sent (b.uarts o).log));
    cells = (refl, refl);
  }
  write_if-Does (some a) pieces b = write_fmt-Does a pieces b

  -- On hardware that answers, with both locks free, `_print` returns. Each UART hears the text once for
  -- each of the two cells that stands for it: the cell of the debug UART, which gets the fixed address
  -- if it is empty, and the cell of the UART of RP1, if that is set. Both locks are free again, and the
  -- GPIO registers are as before.
  pub print-writes :
      (pieces : List (List ℕ)) (b : Board)
      → b.debug_uart.locked ≡ false
      → b.rp1_uart0.locked ≡ false
      → (b' : Board) × (print hw pieces b ≡ (b', ok tt))
        × (sent (b'.uarts o).log
            ≡ sent (b.uarts o).log
              ++ told_if o (some (or_insert b.debug_uart.value pl011_uart_addr)) pieces
              ++ told_if o b.rp1_uart0.value pieces)
        × (b'.debug_uart ≡ record {
          locked = false;
          value = some (or_insert b.debug_uart.value pl011_uart_addr);
        })
        × (b'.rp1_uart0 ≡ b.rp1_uart0)
        × (b'.gpio ≡ b.gpio)
  unfolding print told_if
  print-writes pieces b free free' =
      let a : ℕ = or_insert b.debug_uart.value pl011_uart_addr in
      let r =
        write_fmt-Does a pieces
          (record b { debug_uart = record { locked = true; value = some a } }) in
      let lock' : SpinLock (Option ℕ) = record { locked = true; value = r.end.rp1_uart0.value } in
      let free'' : r.end.rp1_uart0.locked ≡ false = ap (λ l. l.locked) r.cells.1 ∙ free' in
      let s = write_if-Does r.end.rp1_uart0.value pieces (record r.end { rp1_uart0 = lock' }) in
      (
        record s.end { debug_uart = drop s.end.debug_uart; rp1_uart0 = drop s.end.rp1_uart0 },
        rw (lock-free b.debug_uart free, r.returned, lock-free r.end.rp1_uart0 free'', s.returned)
            refl,
        s.text
            ∙ ap (λ l. l ++ told_if o r.end.rp1_uart0.value pieces) r.text
            ∙ ap (λ x. sent (b.uarts o).log ++ all_told o a pieces ++ told_if o x pieces)
                (ap (λ l. l.value) r.cells.1),
        ap drop (s.cells.0 ∙ r.cells.0),
        ap drop s.cells.1
            ∙ ap (λ l. record { locked = false; value = l.value }) r.cells.1
            ∙ ap (λ f. record { locked = f; value = b.rp1_uart0.value }) (sym free'),
        s.gpio ∙ append-nil r.end.gpio ∙ r.gpio ∙ append-nil b.gpio,
      )
