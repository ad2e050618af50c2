-- ===== src/Bootloader/Board/Effects.antt =====
-- What a run on the board does, seen at one UART: the characters sent there, and the changes of the
-- GPIO registers.
use rpi5_baremetal.Base.{
  ℕ, ◌+◌, ◌*◌, ◌/◌, ◌^◌, ◌≤◌, ◌<◌, ◌≡◌, ◌≢◌, refl, sym, ap, ◌∙◌, false, some, List, [], ◌++◌, ◌==◌,
  ==_refl, ℕ_discrete, if◌then◌else◌, Outcome, ok, arith,
}
use mathlib.Core.Path.{subst}
use mathlib.Core.List.{append-nil, append_assoc}
use rpi5_baremetal.Bootloader.Registers.{bits}
use rpi5_baremetal.Bootloader.Pl011.{Access, Pl011Peripherals, UartNum, Divisor, divisor}
use rpi5_baremetal.Bootloader.Pl011
use rpi5_baremetal.Bootloader.Pl011.Sending.{sent, Drains, write-sent}
use rpi5_baremetal.Bootloader.Rp1Gpio.{Modify}
use rpi5_baremetal.Bootloader.SysTimer.{SystemTimer}
use rpi5_baremetal.Bootloader.SysTimer.Waits.{wait-ends}
use rpi5_baremetal.Bootloader.Board.{
  Board, Hardware, Action, ◌>>◌, update, at_uart, gpio_calls, uart_write, timer_wait,
}

-- A run that returned.
pub record Runs (o : ℕ) (b : Board) (t : List ℕ) (c : List Modify)
    (x : Board × Outcome ⊥ (Unit {0})) : Type 0 where
  pub end : Board
  pub returned : x ≡ (end, ok tt)
  pub gpio : end.gpio ≡ b.gpio ++ c
  pub text : sent (end.uarts o).log ≡ sent (b.uarts o).log ++ t
  pub cells : (end.debug_uart ≡ b.debug_uart) × (end.rp1_uart0 ≡ b.rp1_uart0)

other_address : (o a : ℕ) → o ≢ a → (o == a) ≡ false
other_address o a ne = ground arith

-- What is heard at `o` of a text for the address `a`.
unfoldable pub told : (o a : ℕ) → List ℕ → List ℕ
told o a text = if o == a then text else []

pub told-same : (o a : ℕ) (text : List ℕ) → o ≡ a → told o a text ≡ text
unfolding told
told-same o a text same = rw (same, ==_refl a) refl

pub told-other : (o a : ℕ) (text : List ℕ) → o ≢ a → told o a text ≡ []
unfolding told
told-other o a text ne = rw (other_address o a ne) refl

-- A run of the action returns from each board.
abbrev pub Does : ℕ → Action (Unit {0}) → List ℕ → List Modify → Type 0
Does o act t c = (b : Board) → Runs o b t c (act b)

module _ {o : ℕ} where
  pub Does-seq :
      {t t' : List ℕ} {c c' : List Modify} {x y : Action (Unit {0})}
      → Does o x t c
      → Does o y t' c'
      → Does o (x >> y) (t ++ t') (c ++ c')
  Does-seq {t} {t'} {c} {c'} r s b =
      let first = r b in
      let second = s first.end in
      record {
        end = second.end;
        returned = rw first.returned second.returned;
        gpio = second.gpio ∙ ap (λ l. l ++ c') first.gpio ∙ append_assoc b.gpio c c';
        text =
            second.text ∙ ap (λ l. l ++ t') first.text ∙ append_assoc (sent (b.uarts o).log) t t';
        cells = (second.cells.0 ∙ first.cells.0, second.cells.1 ∙ first.cells.1);
      }

  -- A step that is not heard.
  pub Does-quiet :
      {t : List ℕ} {c c' : List Modify} {x y : Action (Unit {0})}
      → Does o x t c
      → Does o y [] c'
      → Does o (x >> y) t (c ++ c')
  Does-quiet {t} {c} {c'} {x} {y} r s b =
      subst (λ t. Runs o b t (c ++ c') ((x >> y) b)) (append-nil t) (Does-seq r s b)

  pub gpio_calls-Does : (calls : List Modify) → Does o (gpio_calls (ok calls)) [] calls
  unfolding gpio_calls
  gpio_calls-Does calls b = record {
    end = record b { gpio = b.gpio ++ calls };
    returned = refl;
    gpio = refl;
    text = sym (append-nil (sent (b.uarts o).log));
    cells = (refl, refl);
  }

  -- A method of the UART that is observed.
  at_same-Runs :
      (act : Pl011.Action (Unit {0})) (b : Board) (r : Pl011Peripherals) (text : List ℕ)
      → act (b.uarts o) ≡ (r, ok tt)
      → sent r.log ≡ sent (b.uarts o).log ++ text
      → Runs o b text [] (at_uart o act b)
  unfolding at_uart
  at_same-Runs act b r text e s = record {
    end = record b { uarts = update b.uarts o r };
    returned = rw e refl;
    gpio = sym (append-nil b.gpio);
    text = rw (==_refl o) s;
    cells = (refl, refl);
  }

  -- A method of another UART.
  at_other-Runs :
      (a : ℕ) (act : Pl011.Action (Unit {0})) (b : Board) (r : Pl011Peripherals)
      → o ≢ a
      → act (b.uarts a) ≡ (r, ok tt)
      → Runs o b [] [] (at_uart a act b)
  unfolding at_uart
  at_other-Runs a act b r ne e = record {
    end = record b { uarts = update b.uarts a r };
    returned = rw e refl;
    gpio = sym (append-nil b.gpio);
    text = rw (other_address o a ne) (sym (append-nil (sent (b.uarts o).log)));
    cells = (refl, refl);
  }

  pub at_uart-Runs :
      (a : ℕ) (act : Pl011.Action (Unit {0})) (b : Board) (r : Pl011Peripherals) (text : List ℕ)
      → act (b.uarts a) ≡ (r, ok tt)
      → sent r.log ≡ sent (b.uarts a).log ++ text
      → Runs o b (told o a text) [] (at_uart a act b)
  at_uart-Runs a act b r text e s = elim (ℕ_discrete o a) [
    | yes same ↦ rw (told-same o a text same) (
        subst (λ a. Runs o b text [] (at_uart a act b)) same
          (at_same-Runs act b r text (rw same e) (rw same s)))
    | no ne ↦ rw (told-other o a text ne) (at_other-Runs a act b r ne e)
  ]

-- The hardware answers: within `bound` reads and one more, a UART is not busy, and has room in its
-- FIFO; and from each read of the counter on, the counter does not go back, and goes on by the time
-- that is waited for.
pub record IsResponsive (hw : Hardware) (bound : ℕ) : Type 0 where
  pub enough : bound < hw.fuel
  pub drains : (a : ℕ) → Drains (hw.flags a) bound
  pub idles : (a k : ℕ) → (j : ℕ) × (j ≤ bound) × (bits 3 1 (hw.flags a (k + j)) ≡ 0)
  pub frequency : 0 < hw.frequency
  pub fits : hw.frequency / 1000 / 1000 * 1_000_000 < 2 ^ 128
  pub later : (k j : ℕ) → hw.counter (k + 0) ≤ hw.counter (k + j)
  pub goes_on :
      (k : ℕ)
      → hw.counter (k + 0) + hw.frequency / 1000 / 1000 * 1_000_000 ≤ hw.counter (k + (1 + bound))

module _ {hw : Hardware} {bound : ℕ} (responsive : IsResponsive hw bound) {o : ℕ} where
  pub write_told-Does : (a : ℕ) (text : List ℕ) → Does o (uart_write hw a text) (told o a text) []
  unfolding uart_write
  write_told-Does a text b =
      let (r, e, s) =
        write-sent hw.crate (hw.flags a) hw.fuel bound text (b.uarts a) (responsive.drains a)
          responsive.enough in
      at_uart-Runs a (Pl011.write hw.crate (hw.flags a) hw.fuel text) b r text e s

  pub uart_write-Does : (text : List ℕ) → Does o (uart_write hw o text) text []
  uart_write-Does text b =
      subst (λ t. Runs o b t [] (uart_write hw o text b)) (told-same o o text refl)
        (write_told-Does o text b)

  pub timer_wait-Does :
      (timer : SystemTimer)
      → timer.counter_frequency ≡ some hw.frequency
      → Does o (timer_wait hw timer 1_000_000) [] []
  unfolding timer_wait
  timer_wait-Does timer set b =
      let n : ℕ = b.counter_reads in
      let (k, le, e) =
        wait-ends (λ k. hw.counter (n + k)) hw.frequency 1_000_000 timer set hw.fuel bound
          responsive.fits (responsive.later n) (responsive.goes_on n) responsive.enough in
      record {
        end = record b { counter_reads = n + k + 1 };
        returned = rw (e, timer_wait) refl;
        gpio = sym (append-nil b.gpio);
        text = sym (append-nil (sent (b.uarts o).log));
        cells = (refl, refl);
      }
