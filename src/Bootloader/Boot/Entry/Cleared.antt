-- ===== src/Bootloader/Boot/Entry/Cleared.antt =====
-- What the assembly of bootloader/src/main.rs has done when it calls `main`.
use rpi5_baremetal.Base.{
  ℕ, zero, suc, ◌+◌, ◌*◌, ◌%◌, ◌^◌, ◌≤◌, ◌<◌, ◌≡◌, ◌≢◌, ◌⊎◌, inl, inr, ◌∙◌, dec_lt, refl, ok,
  out_of_fuel, arith, dec_lt,
}
use rpi5_baremetal.Bootloader.Boot.Entry.{Symbols, Cpu, str_xzr, clear_bss_loop, clear_bss, start}

-- From `c`, with `x0` at `from`, the bytes up to `to` become zero.
pub record IsCleared (from to : ℕ) (c c' : Cpu) : Type 0 where
  pub zeros : (i : ℕ) → from ≤ i → i < to → c'.memory i ≡ 0
  pub before : (i : ℕ) → i < from → c'.memory i ≡ c.memory i
  pub behind : (i : ℕ) → to ≤ i → c'.memory i ≡ c.memory i

str_xzr-inside : (c : Cpu) (i : ℕ) → c.x0 ≤ i → i < c.x0 + 8 → (str_xzr c).memory i ≡ 0
unfolding str_xzr
str_xzr-inside c i ge lt = ground arith

str_xzr-outside :
    (c : Cpu) (i : ℕ) → (i < c.x0) ⊎ (c.x0 + 8 ≤ i) → (str_xzr c).memory i ≡ c.memory i
unfolding str_xzr
str_xzr-outside c i out = ground arith

str_xzr-x0 : (c : Cpu) → c.x0 + 8 < 2 ^ 64 → (str_xzr c).x0 ≡ c.x0 + 8
unfolding str_xzr
str_xzr-x0 c fits = omega arith

str_xzr-x1 : (c : Cpu) → (str_xzr c).x1 ≡ c.x1
unfolding str_xzr
str_xzr-x1 c = refl

str_xzr-sp : (c : Cpu) → (str_xzr c).sp ≡ c.sp
unfolding str_xzr
str_xzr-sp c = refl

clear_bss_loop-clears :
    (k fuel : ℕ) (c : Cpu)
    → c.x0 + 8 * k ≡ c.x1
    → c.x1 < 2 ^ 64
    → k < fuel
    → (c' : Cpu) × (clear_bss_loop fuel c ≡ ok c') × (c'.sp ≡ c.sp) × IsCleared c.x0 c.x1 c c'
unfolding clear_bss_loop
clear_bss_loop-clears k zero c ends fits lt = absurd (omega arith)
clear_bss_loop-clears zero (suc fuel) c ends fits lt = (
  c,
  ground arith,
  refl,
  record { zeros = λ i ge lt. absurd (omega arith); before = λ i lt. refl; behind = λ i ge. refl },
)
clear_bss_loop-clears (suc k) (suc fuel) c ends fits lt =
    let goes_on : (str_xzr c).x0 ≡ c.x0 + 8 = str_xzr-x0 c (omega arith) in
    let same_end : (str_xzr c).x1 ≡ c.x1 = str_xzr-x1 c in
    let (c', ran, sp, cleared) =
      clear_bss_loop-clears k fuel (str_xzr c) (omega (arith, goes_on, same_end))
        (omega (arith, same_end)) (omega arith) in
    (
      c',
      ground (arith, ran),
      sp ∙ str_xzr-sp c,
      record {
        zeros = λ i ge lt'. elim (dec_lt i (c.x0 + 8)) [
          | yes inside ↦ cleared.before i (omega (arith, goes_on)) ∙ str_xzr-inside c i ge inside
          | no beyond ↦ cleared.zeros i (omega (arith, goes_on)) (omega (arith, same_end))
        ];
        before = λ i lt'. cleared.before i (omega (arith, goes_on)) ∙ str_xzr-outside c i (inl lt');
        behind = λ i ge.
            cleared.behind i (omega (arith, same_end)) ∙ str_xzr-outside c i (inr (omega arith));
      },
    )

clear_bss_loop-unaligned :
    (fuel : ℕ) (c : Cpu) → c.x0 % 8 ≢ c.x1 % 8 → clear_bss_loop fuel c ≡ out_of_fuel
unfolding clear_bss_loop str_xzr
clear_bss_loop-unaligned zero c apart = refl
clear_bss_loop-unaligned (suc fuel) c apart =
    ground (arith, clear_bss_loop-unaligned fuel (str_xzr c) (omega arith))

-- If `k` words of eight bytes lie between the symbols of the block, and fuel is left for them, the code
-- in front of `main` comes to the call of `main`: with the stack pointer at its symbol, all bytes of
-- the block zero, and every other byte as it was.
pub start-clears :
    (symbols : Symbols) (k fuel : ℕ) (c : Cpu)
    → symbols.bss_start + 8 * k ≡ symbols.bss_end
    → symbols.bss_end < 2 ^ 64
    → k < fuel
    → (c' : Cpu) × (start symbols fuel c ≡ ok c')
      × (c'.sp ≡ symbols.stack_top)
      × IsCleared symbols.bss_start symbols.bss_end c c'
unfolding start clear_bss
start-clears symbols k fuel c ends fits lt =
    let (c', ran, sp, cleared) =
      clear_bss_loop-clears k fuel
        (record {
          x0 = symbols.bss_start;
          x1 = symbols.bss_end;
          sp = symbols.stack_top;
          memory = c.memory;
        })
        ends fits lt in
    (
      c',
      ran,
      sp,
      record { zeros = cleared.zeros; before = cleared.before; behind = cleared.behind },
    )

-- Where the block is no whole number of words, the code never comes to the call of `main`.
start-unaligned :
    (symbols : Symbols) (fuel : ℕ) (c : Cpu)
    → symbols.bss_start % 8 ≢ symbols.bss_end % 8
    → start symbols fuel c ≡ out_of_fuel
unfolding start clear_bss
start-unaligned symbols fuel c apart = clear_bss_loop-unaligned fuel _ apart
