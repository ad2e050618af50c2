-- ===== src/Bootloader/Pl011/Ready.antt =====
-- What `init` of bootloader/src/interfaces/pl011.rs leaves in the registers.
use rpi5_baremetal.Base.{
  ℕ, zero, suc, ◌+◌, ◌<◌, ◌≡◌, ◌≢◌, refl, ap, ◌∙◌, inl, inr, some, List, [], ◌∷◌, All, true,
  Bool-cases, ok, arith,
}
use rpi5_baremetal.Bootloader.Registers.{FieldValue, bits, Holds, AreFields, IsApart, RegisterCrate}
use rpi5_baremetal.Bootloader.Pl011.{
  UartNum, debug, rp1, Pl011Peripherals, Divisor, divisor, uart_clk, uarten, txe, rxe, fen,
  wlen_bit8, busy, poll, set_integer_baud_rate, set_fractional_baud_rate, set_line_control,
  set_control, set_interrupt_clear, flush, disabled, start, configure, init,
}
use rpi5_baremetal.Bootloader.Pl011.Sending.{sent}

-- The divisor is programmed; the line has 8 bits, a FIFO and nothing else; the UART is on, for both
-- directions, and nothing else is.
pub record IsReady (r : Pl011Peripherals) (d : Divisor) : Type 0 where
  pub integer : r.integer_baud_rate ≡ d.divisor_i
  pub fraction : r.fractional_baud_rate ≡ d.divisor_f
  pub line : All (Holds r.line_control) (wlen_bit8 ∷ fen 1 ∷ [])
  pub line_rest : (bits 0 4 r.line_control ≡ 0) × (bits 7 1 r.line_control ≡ 0)
  pub control : All (Holds r.control) (uarten 1 ∷ txe ∷ rxe ∷ [])
  pub control_rest : (bits 1 7 r.control ≡ 0) × (bits 10 6 r.control ≡ 0)

module _ (crate : RegisterCrate) (flags : ℕ → ℕ) where
  line_fields : AreFields (wlen_bit8 ∷ fen 1 ∷ [])
  line_fields = (omega arith, (inr (omega arith), tt), (omega arith, tt, tt))

  control_fields : AreFields (uarten 1 ∷ txe ∷ rxe ∷ [])
  control_fields = (
    omega arith,
    (inl (omega arith), (inl (omega arith), tt)),
    (omega arith, (inl (omega arith), tt), (omega arith, tt, tt)),
  )

  written : (vs : List FieldValue) → AreFields vs → All (Holds (crate.write vs)) vs
  written vs fields = rw (crate.write_lem vs) (crate.modify-All vs 0 fields)

  cleared :
      (vs : List FieldValue) (offset numbits : ℕ)
      → All (IsApart offset numbits) vs
      → bits offset numbits 0 ≡ 0
      → bits offset numbits (crate.write vs) ≡ 0
  cleared vs offset numbits apart zeros =
      rw (crate.write_lem vs) (crate.modify_apart vs 0 offset numbits apart ∙ zeros)

  start-IsReady : (d : Divisor) (r : Pl011Peripherals) → IsReady (start crate flags d r) d
  unfolding start set_integer_baud_rate set_fractional_baud_rate set_line_control set_control
  start-IsReady d r = record {
    integer = refl;
    fraction = refl;
    line = written (wlen_bit8 ∷ fen 1 ∷ []) line_fields;
    line_rest = (
      cleared _ 0 4 (inl (omega arith), (inl (omega arith), tt)) refl,
      cleared _ 7 1 (inr (omega arith), (inr (omega arith), tt)) refl,
    );
    control = written (uarten 1 ∷ txe ∷ rxe ∷ []) control_fields;
    control_rest = (
      cleared _ 1 7 (inr (omega arith), (inl (omega arith), (inl (omega arith), tt))) refl,
      cleared _ 10 6 (inr (omega arith), (inr (omega arith), (inr (omega arith), tt))) refl,
    );
  }

  still_busy : (w : ℕ) → crate.matches_all busy w ≡ true → bits 3 1 w ≢ 0
  still_busy w h e = absurd (omega (arith, (crate.matches_all_iff busy w).0 h))

  -- The flush ends at a read of the flags in which the UART is not busy.
  flush-ends :
      (fuel n : ℕ) (r : Pl011Peripherals)
      → bits 3 1 (flags (r.polls + n)) ≡ 0
      → n < fuel
      → (r' : Pl011Peripherals) × (flush crate flags fuel r ≡ (r', ok tt)) × (r'.log ≡ r.log)
  unfolding flush
  flush-ends zero n r idle enough = absurd (omega arith)
  flush-ends (suc fuel) zero r idle enough =
      elim (Bool-cases (crate.matches_all busy (flags r.polls))) [
        | inl waits ↦
            let here : bits 3 1 (flags r.polls) ≡ 0 =
              ap (λ k. bits 3 1 (flags k)) (omega arith) ∙ idle in
            absurd (still_busy (flags r.polls) waits here)
        | inr done ↦ (poll r, rw (done, flush) refl, refl)
      ]
  flush-ends (suc fuel) (suc n) r idle enough =
      elim (Bool-cases (crate.matches_all busy (flags r.polls))) [
        | inl waits ↦
            let next : bits 3 1 (flags (r.polls + 1 + n)) ≡ 0 =
              ap (λ k. bits 3 1 (flags k)) (omega arith) ∙ idle in
            let (r', ends, same) = flush-ends fuel n (poll r) next (omega arith) in
            (r', rw (waits, flush) ends, same)
        | inr done ↦ (poll r, rw (done, flush) refl, refl)
      ]

  -- Neither part writes a character.
  start-sent : (d : Divisor) (r : Pl011Peripherals) → sent (start crate flags d r).log ≡ sent r.log
  unfolding start set_integer_baud_rate set_fractional_baud_rate set_line_control set_control sent
  start-sent d r = refl

  disabled-sent : (r : Pl011Peripherals) → sent (disabled crate flags r).log ≡ sent r.log
  unfolding disabled set_control set_interrupt_clear set_line_control sent
  disabled-sent r = refl

  configure-eq :
      (kind : UartNum) (baudrate : ℕ) (d : Divisor) (r : Pl011Peripherals)
      → divisor kind baudrate ≡ some d
      → configure crate flags kind baudrate r ≡ (start crate flags d r, ok tt)
  unfolding configure uart_clk
  configure-eq debug baudrate d r e = rw e refl
  configure-eq (rp1 device_num) baudrate d r e = rw e refl

  -- If the baud rate has a divisor and the UART is not busy at one of the reads of the flags for which
  -- there is fuel, `init` returns, and leaves the UART ready: with the divisor, a line of 8 bits with a
  -- FIFO, and the UART enabled in both directions, with all other fields of these registers clear. It
  -- sends no character.
  pub init-IsReady :
      (fuel n : ℕ) (kind : UartNum) (baudrate : ℕ) (d : Divisor) (r : Pl011Peripherals)
      → divisor kind baudrate ≡ some d
      → bits 3 1 (flags (r.polls + n)) ≡ 0
      → n < fuel
      → (r' : Pl011Peripherals) × (init crate flags fuel kind baudrate r ≡ (r', ok tt))
        × IsReady r' d
        × (sent r'.log ≡ sent r.log)
  unfolding init
  init-IsReady fuel n kind baudrate d r e idle enough =
      let (r1, ends, same) = flush-ends fuel n r idle enough in
      let off : Pl011Peripherals = disabled crate flags r1 in
      (
        start crate flags d off,
        rw (ends, init) (configure-eq kind baudrate d off e),
        start-IsReady d off,
        start-sent d off ∙ disabled-sent r1 ∙ ap sent same,
      )
