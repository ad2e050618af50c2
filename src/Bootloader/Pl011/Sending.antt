-- ===== src/Bootloader/Pl011/Sending.antt =====
-- What `write` of bootloader/src/interfaces/pl011.rs sends.
use rpi5_baremetal.Base.{
  ℕ, zero, suc, ◌+◌, ◌≤◌, ◌<◌, ◌≡◌, ◌≢◌, refl, sym, ap, ◌∙◌, inl, inr, List, [], ◌∷◌, ◌++◌, true,
  Bool-cases, Outcome, ok, arith,
}
use mathlib.Core.List.{append-nil, append_assoc}
use rpi5_baremetal.Bootloader.Registers.{bits, RegisterCrate}
use rpi5_baremetal.Bootloader.Pl011.{
  Access, to_data, to_integer_baud_rate, to_fractional_baud_rate, to_line_control, to_control,
  to_interrupt_clear, Pl011Peripherals, txff, poll, set_data, write_char, write,
}

-- The characters of a log, in the order in which they were sent.
unfoldable pub sent : List Access → List ℕ
sent [] = []
sent (to_data polls v ∷ older) = sent older ++ v ∷ []
sent (to_integer_baud_rate v ∷ older) = sent older
sent (to_fractional_baud_rate v ∷ older) = sent older
sent (to_line_control v ∷ older) = sent older
sent (to_control v ∷ older) = sent older
sent (to_interrupt_clear v ∷ older) = sent older

-- Within `bound` reads of the flags, one shows room in the FIFO.
abbrev pub Drains : (ℕ → ℕ) → ℕ → Type 0
Drains flags bound = (k : ℕ) → (j : ℕ) × (j ≤ bound) × (bits 5 1 (flags (k + j)) ≡ 0)

-- A run that returned, and sent the characters after what was sent before.
record Sends (r : Pl011Peripherals) (cs : List ℕ) (x : Pl011Peripherals × Outcome ⊥ (Unit {0}))
    : Type 0 where
  end : Pl011Peripherals
  returned : x ≡ (end, ok tt)
  chars : sent end.log ≡ sent r.log ++ cs

module _ (crate : RegisterCrate) (flags : ℕ → ℕ) where
  still_full : (w : ℕ) → crate.is_set txff w ≡ true → bits 5 1 w ≢ 0
  still_full w h e = absurd (omega (arith, (crate.is_set_iff txff w).0 h))

  write_char-Sends :
      (fuel j ch : ℕ) (r : Pl011Peripherals)
      → bits 5 1 (flags (r.polls + j)) ≡ 0
      → j < fuel
      → Sends r (ch ∷ []) (write_char crate flags fuel ch r)
  unfolding write_char set_data sent
  write_char-Sends zero j ch r room enough = absurd (omega arith)
  write_char-Sends (suc fuel) zero ch r room enough =
      elim (Bool-cases (crate.is_set txff (flags r.polls))) [
        | inl full ↦
            let here : bits 5 1 (flags r.polls) ≡ 0 =
              ap (λ k. bits 5 1 (flags k)) (omega arith) ∙ room in
            absurd (still_full (flags r.polls) full here)
        | inr free ↦ record {
          end = set_data (poll r) ch;
          returned = rw (free, write_char) refl;
          chars = refl;
        }
      ]
  write_char-Sends (suc fuel) (suc j) ch r room enough =
      elim (Bool-cases (crate.is_set txff (flags r.polls))) [
        | inl full ↦
            let next : bits 5 1 (flags (r.polls + 1 + j)) ≡ 0 =
              ap (λ k. bits 5 1 (flags k)) (omega arith) ∙ room in
            let rest = write_char-Sends fuel j ch (poll r) next (omega arith) in
            record {
              end = rest.end;
              returned = rw (full, write_char) rest.returned;
              chars = rest.chars;
            }
        | inr free ↦ record {
          end = set_data (poll r) ch;
          returned = rw (free, write_char) refl;
          chars = refl;
        }
      ]

  write-Sends :
      (fuel bound : ℕ) (cs : List ℕ) (r : Pl011Peripherals)
      → Drains flags bound
      → bound < fuel
      → Sends r cs (write crate flags fuel cs r)
  unfolding write
  write-Sends fuel bound [] r drains enough = record {
    end = r;
    returned = refl;
    chars = sym (append-nil (sent r.log));
  }
  write-Sends fuel bound (ch ∷ cs) r drains enough =
      let (j, le, room) = drains r.polls in
      let one = write_char-Sends fuel j ch r room (omega arith) in
      let rest = write-Sends fuel bound cs one.end drains enough in
      record {
        end = rest.end;
        returned = rw (one.returned, write) rest.returned;
        chars = rest.chars ∙ ap (λ l. l ++ cs) one.chars ∙ append_assoc (sent r.log) (ch ∷ []) cs;
      }

  -- If one of every `bound` reads of the flags in a row, and one more, shows room in the FIFO, `write`
  -- returns with fuel for them for each character, and has sent its characters, in their order, after
  -- what was sent before.
  pub write-sent :
      (fuel bound : ℕ) (cs : List ℕ) (r : Pl011Peripherals)
      → Drains flags bound
      → bound < fuel
      → (r' : Pl011Peripherals) × (write crate flags fuel cs r ≡ (r', ok tt))
        × (sent r'.log ≡ sent r.log ++ cs)
  write-sent fuel bound cs r drains enough =
      let s = write-Sends fuel bound cs r drains enough in (s.end, s.returned, s.chars)
