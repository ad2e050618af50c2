-- ===== src/Dtb/Layout/Bytes.antt =====
-- Bytes in memory: big-endian words, padding, strings, and what a read at their address gives.
use rpi5_baremetal.Base.{
  ℕ, true, ok, zero, suc, ◌+◌, ◌/◌, ◌%◌, ◌^◌, ◌<◌, ◌≡◌, ap, ◌∙◌, some, List, [], ◌∷◌, ◌++◌, length,
  All, arith,
}
use rpi5_baremetal.Dtb.BigEndian.{Memory, read_u32_from_ptr, c_str, read_char_str}
use rpi5_baremetal.Dtb.Utf8.{is_utf8}
use rpi5_baremetal.Dtb.Token.{Token, token_of, get_types}

abbrev pub zeros : ℕ → List ℕ → List ℕ
zeros zero rest = rest
zeros (suc n) rest = 0 ∷ zeros n rest

abbrev pub word : ℕ → List ℕ → List ℕ
word n rest = (n / 2 ^ 24) ∷ (n / 2 ^ 16 % 256) ∷ (n / 2 ^ 8 % 256) ∷ (n % 256) ∷ rest

abbrev pub Holds : Memory → ℕ → List ℕ → Type 0
Holds m p [] = Unit
Holds m p (b ∷ bs) = (m p ≡ b) × Holds m (p + 1) bs

-- The memory holds the bytes, one behind the other.
pub record At (m : Memory) (p : ℕ) (bs : List ℕ) : Type 0 where
  pub holds : Holds m p bs

pub At-move : {m : Memory} {p q : ℕ} {bs : List ℕ} → p ≡ q → At m p bs → At m q bs
At-move e h = rw e at h

pub At-head : {m : Memory} {p b : ℕ} {bs : List ℕ} → At m p (b ∷ bs) → m p ≡ b
At-head h = h.holds.0

At-tail : {m : Memory} {p b : ℕ} {bs : List ℕ} → At m p (b ∷ bs) → At m (p + 1) bs
At-tail h = record { holds = h.holds.1 }

pub At-append :
    (s : List ℕ) {m : Memory} {p : ℕ} {bs : List ℕ} → At m p (s ++ bs) → At m (p + length s) bs
At-append [] h = At-move (omega arith) h
At-append (b ∷ s) h = At-move (omega arith) (At-append s (At-tail h))

pub At-zeros : (n : ℕ) {m : Memory} {p : ℕ} {bs : List ℕ} → At m p (zeros n bs) → At m (p + n) bs
At-zeros zero h = At-move (omega arith) h
At-zeros (suc n) h = At-move (omega arith) (At-zeros n (At-tail h))

-- Four bytes at the addresses at which the code reads them.
record Four (m : Memory) (p a b c d : ℕ) : Type 0 where
  b0 : m p ≡ a
  b1 : m (p + 1) ≡ b
  b2 : m (p + 2) ≡ c
  b3 : m (p + 3) ≡ d

At-Four :
    {m : Memory} {p a b c d : ℕ} {bs : List ℕ} → At m p (a ∷ b ∷ c ∷ d ∷ bs) → Four m p a b c d
At-Four {m} h = record {
  b0 = At-head h;
  b1 = At-head (At-tail h);
  b2 = ap m (omega arith) ∙ At-head (At-tail (At-tail h));
  b3 = ap m (omega arith) ∙ At-head (At-tail (At-tail (At-tail h)));
}

pub At-behind :
    {m : Memory} {p a b c d : ℕ} {bs : List ℕ} → At m p (a ∷ b ∷ c ∷ d ∷ bs) → At m (p + 4) bs
At-behind h = At-move (omega arith) (At-tail (At-tail (At-tail (At-tail h))))

-- The token whose last byte is `d`.
pub At-token :
    {m : Memory} {p d : ℕ} {bs : List ℕ} {t : Token}
    → token_of 0 0 0 d ≡ t
    → At m p (0 ∷ 0 ∷ 0 ∷ d ∷ bs)
    → get_types m p ≡ t
unfolding get_types
At-token e h = let f = At-Four h in rw (f.b0, f.b1, f.b2, f.b3) e

pub At-word :
    {m : Memory} {p n : ℕ} {bs : List ℕ}
    → n < 2 ^ 32
    → At m p (word n bs)
    → read_u32_from_ptr m p ≡ n
unfolding read_u32_from_ptr
At-word lt h = let f = At-Four h in rw (f.b0, f.b1, f.b2, f.b3) (omega arith)

-- A C string is read up to its NUL.
pub At-c_str :
    (limit : ℕ) (s bs : List ℕ) {m : Memory} {p : ℕ}
    → All (λ b. 0 < b) s
    → length s < limit
    → At m p (s ++ 0 ∷ bs)
    → c_str limit m p ≡ some s
unfolding c_str
At-c_str zero s bs ne lt h = absurd (omega arith)
At-c_str (suc limit) [] bs ne lt h = rw (At-head h)
At-c_str (suc limit) (b ∷ s) bs ne lt h =
    rw (At-c_str limit s bs ne.1 (omega arith) (At-tail h), At-head h) (ground arith)

pub read_char_str-eq :
    (limit : ℕ) (m : Memory) (a : ℕ) {name : List ℕ}
    → c_str limit m a ≡ some name
    → is_utf8 name ≡ true
    → read_char_str limit m a ≡ ok name
unfolding read_char_str
read_char_str-eq limit m a e u = rw e (rw u)
