-- ===== src/Dtb/Reserve/Entries.antt =====
-- The memory reservation block as the format of the blob lays it out.
use rpi5_baremetal.Base.{
  ℕ, zero, suc, ◌+◌, ◌*◌, ◌/◌, ◌%◌, ◌^◌, ◌<◌, ◌≡◌, ap, some, List, [], ◌∷◌, get_elem?, All, arith,
}
use mathlib.Core.Path.{subst}
use rpi5_baremetal.Dtb.BigEndian.{Memory, read_u32_from_ptr}
use rpi5_baremetal.Dtb.Layout.Bytes.{word, At, At-word, At-behind, At-move}
use rpi5_baremetal.Dtb.Reserve.{read_u64, get_address, get_size}

-- The reserved memory that an entry stands for.
pub record ReserveEntry : Type 0 where
  pub address : ℕ
  pub size : ℕ

abbrev pub double_word : ℕ → List ℕ → List ℕ
double_word n rest = word (n / 2 ^ 32) (word (n % 2 ^ 32) rest)

abbrev pub enc_entries : List ReserveEntry → List ℕ → List ℕ
enc_entries [] rest = rest
enc_entries (e ∷ es) rest = double_word e.address (double_word e.size (enc_entries es rest))

-- Both numbers have 64 bits.
abbrev pub AreDoubleWords : List ReserveEntry → Type 0
AreDoubleWords es = All (λ e. (e.address < 2 ^ 64) × (e.size < 2 ^ 64)) es

read_u64-words :
    (m : Memory) (a : ℕ)
    → read_u64 m a ≡ read_u32_from_ptr m a * 2 ^ 32 + read_u32_from_ptr m (a + 4)
unfolding read_u64 read_u32_from_ptr
read_u64-words m a = omega (
  arith,
  ap m {x = a + 4 + 1} {y = a + 5} (omega arith),
  ap m {x = a + 4 + 2} {y = a + 6} (omega arith),
  ap m {x = a + 4 + 3} {y = a + 7} (omega arith),
)

At-double_word :
    {n : ℕ} {m : Memory} {p : ℕ} {bs : List ℕ}
    → n < 2 ^ 64
    → At m p (double_word n bs)
    → read_u64 m p ≡ n
At-double_word {n} {m} {p} lt h = omega (
  arith,
  read_u64-words m p,
  At-word {n = n / 2 ^ 32} (omega arith) h,
  At-word {n = n % 2 ^ 32} (omega arith) (At-behind h),
)

At-behind_double :
    (n : ℕ) {m : Memory} {p : ℕ} {bs : List ℕ} → At m p (double_word n bs) → At m (p + 8) bs
At-behind_double n h = At-move (omega arith) (At-behind (At-behind h))

some-injective : {A : Type 0} {a b : A} → some a ≡ some b → a ≡ b
some-injective h = cc

-- What the code reads of the entry at `p`.
abbrev pub IsRead : Memory → ℕ → ReserveEntry → Type 0
IsRead m p e = (get_address m p ≡ e.address) × (get_size m p ≡ e.size)

-- Where memory holds the entries of the memory reservation block, each of 64-bit numbers, the entry with
-- the number `i` is read, 16 bytes for each before it, with the address and the size that it has.
pub reserve_entry-IsRead :
    (es : List ReserveEntry) (rest : List ℕ) (i : ℕ) (e : ReserveEntry) {m : Memory} {p : ℕ}
    → AreDoubleWords es
    → At m p (enc_entries es rest)
    → get_elem? es i ≡ some e
    → IsRead m (p + 16 * i) e
unfolding get_address get_size
reserve_entry-IsRead [] rest i e fits h found = cc
reserve_entry-IsRead (e' ∷ es) rest zero e {m} {p} ((address, size), fits) h found =
    subst (IsRead m (p + 16 * zero)) {x = e'} {y = e} (some-injective found) (
      At-double_word address (At-move (omega arith) h),
      At-double_word size (At-move (omega arith) (At-behind_double e'.address h)),
    )
reserve_entry-IsRead (e' ∷ es) rest (suc i) e {m} {p} (_, fits) h found =
    subst (λ q. IsRead m q e) {x = p + 8 + 8 + 16 * i} {y = p + 16 * suc i} (omega arith)
      (reserve_entry-IsRead es rest i e fits
        (At-behind_double e'.size (At-behind_double e'.address h)) found)
