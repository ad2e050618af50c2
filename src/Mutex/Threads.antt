-- ===== src/Mutex/Threads.antt =====
-- Threads by number, each at a point of its program, and sums over the first `n` of them.
use rpi5_baremetal.Base.{ℕ, zero, suc, ◌+◌, ◌*◌, ◌≤◌, ◌<◌, ◌≡◌, ◌≢◌, refl, sym, arith, ℕ_discrete}
use mathlib.Core.Path.{subst}
use mathlib.Core.Logic.{ite}
use native.Mathlib.Nat.{suc-mul}
use native.Mathlib.Decide.{dec_lt}

-- Thread `i` goes to the point `a`; the others stay.
abbrev pub go_to {ℓ} : {A : Type ℓ} → (ℕ → A) → ℕ → A → ℕ → A
go_to pc i a j = ite (ℕ_discrete i j) a (pc j)

pub go_to_same {ℓ} : {A : Type ℓ} (pc : ℕ → A) (i : ℕ) (a : A) → go_to pc i a i ≡ a
go_to_same pc i a = ground arith

pub go_to_other {ℓ} : {A : Type ℓ} (pc : ℕ → A) (i j : ℕ) (a : A) → i ≢ j → go_to pc i a j ≡ pc j
go_to_other pc i j a ne = ground arith

-- What holds where the others stay and where the thread goes to, holds everywhere.
pub go_to-all {ℓ κ} :
    {A : Type ℓ} (P : ℕ → A → Type κ) (pc : ℕ → A) (i : ℕ) (a : A)
    → P i a
    → ((j : ℕ) → i ≢ j → P j (pc j))
    → (j : ℕ) → P j (go_to pc i a j)
go_to-all P pc i a here others j = elim (ℕ_discrete i j) [
  | yes same ↦ subst (λ k. P k (go_to pc i a k)) same (subst (P i) (sym (go_to_same pc i a)) here)
  | no other ↦ subst (P j) (sym (go_to_other pc i j a other)) (others j other)
]

-- The same where two things of the thread change.
pub go_to-both {ℓ κ ρ} :
    {A : Type ℓ} {B : Type κ} (P : ℕ → A → B → Type ρ) (f : ℕ → A) (g : ℕ → B) (i : ℕ) (a : A)
    (b : B)
    → P i a b
    → ((j : ℕ) → i ≢ j → P j (f j) (g j))
    → (j : ℕ) → P j (go_to f i a j) (go_to g i b j)
go_to-both P f g i a b here others =
    go_to-all (λ j x. P j x (go_to g i b j)) f i a (subst (P i a) (sym (go_to_same g i b)) here)
      (λ j ne. subst (P j (f j)) (sym (go_to_other g i j b ne)) (others j ne))

-- How much the first `n` threads weigh.
module _ {ℓ} {A : Type ℓ} (w : A → ℕ) where
  unfoldable pub tally : ℕ → (ℕ → A) → ℕ
  tally zero pc = 0
  tally (suc n) pc = w (pc n) + tally n pc

  tally-go_to_of_le :
      (n : ℕ) (pc : ℕ → A) (i : ℕ) (a : A) → n ≤ i → tally n (go_to pc i a) ≡ tally n pc
  unfolding tally
  tally-go_to_of_le zero pc i a h = refl
  tally-go_to_of_le (suc n) pc i a h = ground (arith, tally-go_to_of_le n pc i a)

  -- A thread that moves takes its old weight away and adds its new one.
  pub tally-go_to :
      (n : ℕ) (pc : ℕ → A) (i : ℕ) (a : A)
      → i < n
      → tally n (go_to pc i a) + w (pc i) ≡ tally n pc + w a
  unfolding tally
  tally-go_to zero pc i a h = absurd (omega arith)
  tally-go_to (suc n) pc i a h = elim (dec_lt i n) [
    | yes below ↦ ground (arith, tally-go_to n pc i a below)
    | no last ↦ ground (arith, tally-go_to_of_le n pc i a)
  ]

  pub le-tally : (n : ℕ) (pc : ℕ → A) (i : ℕ) → i < n → w (pc i) ≤ tally n pc
  unfolding tally
  le-tally zero pc i h = absurd (omega arith)
  le-tally (suc n) pc i h = elim (dec_lt i n) [
    | yes below ↦ omega (arith, le-tally n pc i below)
    | no last ↦ ground arith
  ]

  -- Two threads weigh at most what all weigh.
  pub pair-le-tally :
      (n : ℕ) (pc : ℕ → A) (i j : ℕ) → i < j → j < n → w (pc i) + w (pc j) ≤ tally n pc
  unfolding tally
  pair-le-tally zero pc i j lt h = absurd (omega arith)
  pair-le-tally (suc n) pc i j lt h = elim (dec_lt j n) [
    | yes below ↦ omega (arith, pair-le-tally n pc i j lt below)
    | no last ↦ ground (arith, le-tally n pc i)
  ]

  pub tally-le : ((a : A) → w a ≤ 1) → (n : ℕ) (pc : ℕ → A) → tally n pc ≤ n
  unfolding tally
  tally-le small zero pc = omega arith
  tally-le small (suc n) pc = omega (arith, small (pc n), tally-le small n pc)

  pub tally-le_mul : (c : ℕ) → ((a : A) → w a ≤ c) → (n : ℕ) (pc : ℕ → A) → tally n pc ≤ n * c
  unfolding tally
  tally-le_mul c small zero pc = omega arith
  tally-le_mul c small (suc n) pc =
      omega (arith, small (pc n), tally-le_mul c small n pc, suc-mul n c)

  pub tally-zero : (n : ℕ) (pc : ℕ → A) → ((i : ℕ) → w (pc i) ≡ 0) → tally n pc ≡ 0
  unfolding tally
  tally-zero zero pc h = refl
  tally-zero (suc n) pc h = omega (arith, h n, tally-zero n pc h)

  -- All at one point.
  pub tally-same : (n : ℕ) (a : A) → tally n (λ _. a) ≡ n * w a
  unfolding tally
  tally-same zero a = omega arith
  tally-same (suc n) a = omega (arith, tally-same n a, suc-mul n (w a))

  -- A weight that is there is that of some thread.
  pub tally-pos : (n : ℕ) (pc : ℕ → A) → 0 < tally n pc → (i : ℕ) × (i < n) × (0 < w (pc i))
  unfolding tally
  tally-pos zero pc h = absurd (omega arith)
  tally-pos (suc n) pc h = elim (dec_lt 0 (w (pc n))) [
    | yes heavy ↦ (n, omega arith, heavy)
    | no light ↦ let (i, lt, heavy) = tally-pos n pc (omega arith) in (i, omega arith, heavy)
  ]

  -- If all weigh one at most, a thread that weighs something is the only one.
  pub tally_unique :
      (n : ℕ) (pc : ℕ → A) (i j : ℕ)
      → tally n pc ≤ 1
      → i < n
      → j < n
      → 0 < w (pc i)
      → 0 < w (pc j)
      → i ≡ j
  tally_unique n pc i j h lt_i lt_j in_i in_j = elim (dec_lt i j) [
    | yes lt ↦ absurd (omega (arith, pair-le-tally n pc i j lt lt_j))
    | no ge ↦ elim (dec_lt j i) [
      | yes lt ↦ absurd (omega (arith, pair-le-tally n pc j i lt lt_i))
      | no le ↦ omega arith
    ]
  ]

pub tally_mono {ℓ} :
    {A : Type ℓ} (w v : A → ℕ) (n : ℕ) (pc : ℕ → A)
    → ((a : A) → w a ≤ v a)
    → tally w n pc ≤ tally v n pc
unfolding tally
tally_mono w v zero pc h = omega arith
tally_mono w v (suc n) pc h = omega (arith, h (pc n), tally_mono w v n pc h)
