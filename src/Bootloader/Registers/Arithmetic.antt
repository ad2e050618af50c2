-- ===== src/Bootloader/Registers/Arithmetic.antt =====
-- The register crate can be had: fields put into a word by division and remainder.
use rpi5_baremetal.Base.{
  ℕ, zero, suc, ◌+◌, ◌-◌, ◌*◌, ◌/◌, ◌%◌, ◌^◌, ◌≤◌, ◌<◌, ◌≡◌, ◌↔◌, refl, ap, sym, ◌∙◌, inl, inr,
  true, List, [], ◌∷◌, All, ◌==◌, ltb, arith,
}
use native.Mathlib.Nat.{
  mul-add-div, div-div-eq-div-mul, div-eq_of_lt, mul-add-mod_self_left, mod-eq_of_lt, div-add-mod,
  mod-lt, pow-suc, mul_assoc,
}
use rpi5_baremetal.Bootloader.Registers.{FieldValue, bits, Holds, IsApart, AreFields, RegisterCrate}

pow_pos : (n : ℕ) → 0 < 2 ^ n
pow_pos zero = omega arith
pow_pos (suc n) = omega (arith, pow_pos n, pow-suc 2 n)

pow_add : (a b : ℕ) → 2 ^ (a + b) ≡ 2 ^ a * 2 ^ b
pow_add a zero = grind arith
pow_add a (suc b) = grind (arith, pow_add a b, pow-suc 2 (a + b), pow-suc 2 b)

-- A word whose field, of B values above the A of the bits below it, is `v`.
module _ (A B : ℕ) (pos : 0 < A) (pos' : 0 < B) where
  abbrev word : ℕ → ℕ → ℕ → ℕ
  word h v l = A * (B * h + v) + l

  above : (h v l : ℕ) → l < A → word h v l / A ≡ B * h + v
  above h v l lo = mul-add-div pos (B * h + v) l ∙ omega (arith, div-eq_of_lt lo)

  middle : (h v l : ℕ) → l < A → v < B → word h v l / A % B ≡ v
  middle h v l lo fits = rw (above h v l lo) (mul-add-mod_self_left B h v ∙ mod-eq_of_lt fits)

  top : (h v l : ℕ) → l < A → v < B → word h v l / A / B ≡ h
  top h v l lo fits = rw (above h v l lo) (mul-add-div pos' h v ∙ omega (arith, div-eq_of_lt fits))

-- The bits below a multiple of P * (Q * D), in a field of Q values above P.
below : (P Q D q l : ℕ) → 0 < P → (P * (Q * D) * q + l) / P % Q ≡ l / P % Q
below P Q D q l pos =
    ap (λ n. (n + l) / P % Q) (mul_assoc P (Q * D) q)
    ∙ ap (λ n. n % Q) (mul-add-div pos (Q * D * q) l)
    ∙ ap (λ n. (n + l / P) % Q) (mul_assoc Q D q)
    ∙ mul-add-mod_self_left Q (D * q) (l / P)

below_of_eq : (A P Q D q l : ℕ) → A ≡ P * (Q * D) → 0 < P → (A * q + l) / P % Q ≡ l / P % Q
below_of_eq A P Q D q l e pos = rw e (below P Q D q l pos)

thrice : (x A B D : ℕ) → x / (A * (B * D)) ≡ x / A / B / D
thrice x A B D = sym (div-div-eq-div-mul (x / A) B D ∙ div-div-eq-div-mul x A (B * D))

pow_split : (a b c d : ℕ) → a + b + c ≡ d → 2 ^ d ≡ 2 ^ a * (2 ^ b * 2 ^ c)
pow_split a b c d e =
    ap (λ n. 2 ^ n) (sym e)
    ∙ pow_add (a + b) c
    ∙ ap (λ n. n * 2 ^ c) (pow_add a b)
    ∙ mul_assoc (2 ^ a) (2 ^ b) (2 ^ c)

unfoldable pub put : FieldValue → ℕ → ℕ
put v w =
    let a = 2 ^ v.offset in let b = 2 ^ v.numbits in a * (b * (w / a / b) + v.value % b) + w % a

put-Holds : (v : FieldValue) (w : ℕ) → v.value < 2 ^ v.numbits → Holds (put v w) v
unfolding put
put-Holds v w fits =
    middle (2 ^ v.offset) (2 ^ v.numbits) (pow_pos v.offset) (pow_pos v.numbits) _
      (v.value % 2 ^ v.numbits) _ (mod-lt w (pow_pos v.offset)) (mod-lt v.value (pow_pos v.numbits))
    ∙ mod-eq_of_lt fits

put_low : (v : FieldValue) (w o n : ℕ) → o + n ≤ v.offset → bits o n (put v w) ≡ bits o n w
unfolding put
put_low v w o n le =
    let a : ℕ = 2 ^ v.offset in
    let split : a ≡ 2 ^ o * (2 ^ n * 2 ^ (v.offset - (o + n))) =
      pow_split o n _ v.offset (omega arith) in
    below_of_eq a (2 ^ o) (2 ^ n) _ _ (w % a) split (pow_pos o)
    ∙ sym (
        ap (λ x. x / 2 ^ o % 2 ^ n) (sym (div-add-mod w a))
        ∙ below_of_eq a (2 ^ o) (2 ^ n) _ (w / a) (w % a) split (pow_pos o))

put_high : (v : FieldValue) (w o n : ℕ) → v.offset + v.numbits ≤ o → bits o n (put v w) ≡ bits o n w
unfolding put
put_high v w o n le =
    let a : ℕ = 2 ^ v.offset in
    let b : ℕ = 2 ^ v.numbits in
    let d : ℕ = 2 ^ (o - (v.offset + v.numbits)) in
    let split : 2 ^ o ≡ a * (b * d) = pow_split v.offset v.numbits _ o (omega arith) in
    ap (λ p. put v w / p % 2 ^ n) split
    ∙ ap (λ q. q % 2 ^ n) (thrice (put v w) a b d)
    ∙ ap (λ q. q / d % 2 ^ n)
        (top a b (pow_pos v.offset) (pow_pos v.numbits) (w / a / b) (v.value % b) (w % a)
          (mod-lt w (pow_pos v.offset)) (mod-lt v.value (pow_pos v.numbits)))
    ∙ ap (λ q. q % 2 ^ n) (sym (thrice w a b d))
    ∙ ap (λ p. w / p % 2 ^ n) (sym split)

put_apart : (v : FieldValue) (w o n : ℕ) → IsApart o n v → bits o n (put v w) ≡ bits o n w
put_apart v w o n (inl low) = put_low v w o n low
put_apart v w o n (inr high) = put_high v w o n high

unfoldable pub put_all : List FieldValue → ℕ → ℕ
put_all [] w = w
put_all (v ∷ vs) w = put v (put_all vs w)

pub put_all_apart :
    (vs : List FieldValue) (w o n : ℕ) → All (IsApart o n) vs → bits o n (put_all vs w) ≡ bits o n w
unfolding put_all
put_all_apart [] w o n apart = refl
put_all_apart (v ∷ vs) w o n apart =
    put_apart v (put_all vs w) o n apart.0 ∙ put_all_apart vs w o n apart.1

put-keeps :
    (v : FieldValue) (us : List FieldValue) (w : ℕ)
    → All (IsApart v.offset v.numbits) us
    → All (Holds w) us
    → All (Holds (put v w)) us
put-keeps v [] w apart held = tt
put-keeps v (u ∷ us) w apart held =
    (put_apart v w u.offset u.numbits (swap apart.0) ∙ held.0, put-keeps v us w apart.1 held.1)
  where
    swap : IsApart v.offset v.numbits u → IsApart u.offset u.numbits v
    swap (inl a) = inr a
    swap (inr a) = inl a

pub put_all-All : (vs : List FieldValue) (w : ℕ) → AreFields vs → All (Holds (put_all vs w)) vs
unfolding put_all
put_all-All [] w fields = tt
put_all-All (v ∷ vs) w (fits, apart, fields) =
    (put-Holds v (put_all vs w) fits, put-keeps v vs (put_all vs w) apart (put_all-All vs w fields))

pub is_set_iff :
    (v : FieldValue) (w : ℕ)
    → (ltb 0 (bits v.offset v.numbits w) ≡ true) ↔ (0 < bits v.offset v.numbits w)
is_set_iff v w = ground arith

pub matches_all_iff :
    (v : FieldValue) (w : ℕ) → ((bits v.offset v.numbits w == v.value) ≡ true) ↔ Holds w v
matches_all_iff v w = ground arith

-- A crate with the documented behaviour.
abbrev pub arithmetic : RegisterCrate
unfolding put_all
arithmetic = record {
  modify = put_all;
  write = λ vs. put_all vs 0;
  is_set = λ v w. ltb 0 (bits v.offset v.numbits w);
  matches_all = λ v w. bits v.offset v.numbits w == v.value;
  modify-All = put_all-All;
  modify_apart = put_all_apart;
  write_lem = λ vs. refl;
  is_set_iff = is_set_iff;
  matches_all_iff = matches_all_iff;
}
