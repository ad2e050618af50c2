-- ===== src/Dtb/Regs.antt =====
-- `read_regs` of dtb/src/lib.rs against the number that big-endian cells stand for.
use rpi5_baremetal.Base.{ℕ, zero, suc, ◌+◌, ◌*◌, ◌%◌, ◌^◌, ◌≤◌, ◌<◌, ◌≡◌, arith}
use rpi5_baremetal.Dtb.BigEndian.{Memory, Regs, read_u32_from_ptr, read_regs_loop, read_regs}

abbrev pub IsBytes : Memory → Type 0
IsBytes m = (a : ℕ) → m a < 256

-- The number that `n` cells at the address stand for, the most significant first.
unfoldable pub cells_value : Memory → ℕ → ℕ → ℕ
cells_value m a zero = 0
cells_value m a (suc n) = cells_value m a n * 2 ^ 32 + read_u32_from_ptr m (a + 4 * n)

pub read_u32_from_ptr-lt : (m : Memory) (a : ℕ) → IsBytes m → read_u32_from_ptr m a < 2 ^ 32
unfolding read_u32_from_ptr
read_u32_from_ptr-lt m a b = omega (arith, b a, b (a + 1), b (a + 2), b (a + 3))

-- What the loop has after `k` rounds.
record IsRead (m : Memory) (a k : ℕ) (r : Regs) : Type 0 where
  value : r.value ≡ cells_value m a k % 2 ^ 64
  consumed : r.consumed ≡ 4 * k

read_regs_loop-IsRead :
    (size k j : ℕ) (m : Memory) (a : ℕ) (r : Regs)
    → IsBytes m
    → k + size ≡ j
    → IsRead m a k r
    → IsRead m a j (read_regs_loop m a size r)
unfolding read_regs_loop cells_value
read_regs_loop-IsRead zero k j m a r b e h = ground arith
read_regs_loop-IsRead (suc size) k j m a r b e h =
    read_regs_loop-IsRead size (suc k) j m a _ b (omega arith) (record {
      value = rw h.consumed (omega (arith, h.value, read_u32_from_ptr-lt m (a + 4 * k) b));
      consumed = omega arith;
    })

-- In a memory of bytes, `read_regs` gives the number that the cells stand for, modulo 2 ^ 64, and
-- consumes four bytes for each cell.
pub read_regs-value :
    (m : Memory) (a size : ℕ)
    → IsBytes m
    → ((read_regs m a size).value ≡ cells_value m a size % 2 ^ 64)
      × ((read_regs m a size).consumed ≡ 4 * size)
unfolding read_regs cells_value
read_regs-value m a size b =
    let h =
      read_regs_loop-IsRead size 0 size m a (record { value = 0; consumed = 0 }) b (omega arith)
        (record { value = omega arith; consumed = omega arith }) in
    (h.value, h.consumed)

-- Up to two cells, which `read_reg_internal` lets pass, nothing is lost.
pub read_regs-exact :
    (m : Memory) (a size : ℕ)
    → IsBytes m
    → size ≤ 2
    → (read_regs m a size).value ≡ cells_value m a size
unfolding cells_value
read_regs-exact m a zero b small = omega (arith, (read_regs-value m a 0 b).0)
read_regs-exact m a (suc zero) b small =
    omega (arith, (read_regs-value m a 1 b).0, read_u32_from_ptr-lt m (a + 4 * 0) b)
read_regs-exact m a (suc (suc zero)) b small = omega (
  arith,
  (read_regs-value m a 2 b).0,
  read_u32_from_ptr-lt m (a + 4 * 0) b,
  read_u32_from_ptr-lt m (a + 4 * 1) b,
)
read_regs-exact m a (suc (suc (suc size))) b small = absurd (omega arith)
