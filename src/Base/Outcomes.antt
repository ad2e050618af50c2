-- ===== src/Base/Outcomes.antt =====
-- What a fallible function of the program does: it returns a value or an error of type `E`, it
-- panics, or the model's fuel ends before it has returned.
use mathlib.Core.Path.{◌≡◌, refl}

pub data Outcome {ℓ κ} (E : Type ℓ) (A : Type κ) : Type (ℓ ⊔ κ) where
  ok : A → Outcome E A
  err : E → Outcome E A
  panicked : Outcome E A
  out_of_fuel : Outcome E A

infixl 5 ◌>>=◌
abbrev pub ◌>>=◌ {ℓ κ ι} :
    {E : Type ℓ} {A : Type κ} {B : Type ι} → Outcome E A → (A → Outcome E B) → Outcome E B
ok a >>= f = f a
err e >>= f = err e
panicked >>= f = panicked
out_of_fuel >>= f = out_of_fuel

-- A bind gives a value only through a value of its first part.
pub >>=-eq-ok {ℓ κ ι} :
    {E : Type ℓ} {A : Type κ} {B : Type ι} (part : Outcome E A) (rest : A → Outcome E B) {last : B}
    → part >>= rest ≡ ok last
    → (mid : A) × (part ≡ ok mid) × (rest mid ≡ ok last)
>>=-eq-ok (ok mid) rest whole = (mid, refl, whole)
>>=-eq-ok panicked rest whole = cc
>>=-eq-ok out_of_fuel rest whole = cc
>>=-eq-ok (err _) rest whole = cc

-- Two continuations need to agree only on the value that there is.
pub >>=-cong {ℓ κ ι} :
    {E : Type ℓ} {A : Type κ} {B : Type ι} (m : Outcome E A) {f g : A → Outcome E B}
    → ((a : A) → m ≡ ok a → f a ≡ g a)
    → (m >>= f) ≡ (m >>= g)
>>=-cong (ok a) h = h a refl
>>=-cong (err e) h = refl
>>=-cong panicked h = refl
>>=-cong out_of_fuel h = refl

-- `?` on a result that comes with a state: what ends the run ends it with the state as it is.
infixl 5 ◌>>?◌
abbrev pub ◌>>?◌ {ℓ κ ι σ} :
    {E : Type ℓ} {A : Type κ} {B : Type ι} {S : Type σ}
    → S × Outcome E A
    → (S → A → S × Outcome E B)
    → S × Outcome E B
◌>>?◌ (s, ok a) k = k s a
◌>>?◌ (s, err e) k = (s, err e)
◌>>?◌ (s, panicked) k = (s, panicked)
◌>>?◌ (s, out_of_fuel) k = (s, out_of_fuel)

module _ {ℓ κ ι σ} {E : Type ℓ} {A : Type κ} {B : Type ι} {S : Type σ} where
  -- A run that went on, and two runs that go on alike.
  pub >>?-eq-ok :
      (x : S × Outcome E A) (k : S → A → S × Outcome E B) {s' : S} {b : B}
      → (x >>? k) ≡ (s', ok b)
      → (s : S) × (a : A) × (x ≡ (s, ok a)) × (k s a ≡ (s', ok b))
  >>?-eq-ok (s, ok a) k h = (s, a, refl, h)
  >>?-eq-ok (s, err e) k h = cc
  >>?-eq-ok (s, panicked) k h = cc
  >>?-eq-ok (s, out_of_fuel) k h = cc

  pub >>?-cong :
      (x : S × Outcome E A) {k l : S → A → S × Outcome E B}
      → ((s : S) (a : A) → x ≡ (s, ok a) → k s a ≡ l s a)
      → (x >>? k) ≡ (x >>? l)
  >>?-cong (s, ok a) h = h s a refl
  >>?-cong (s, err e) h = refl
  >>?-cong (s, panicked) h = refl
  >>?-cong (s, out_of_fuel) h = refl

  -- What both parts keep of the state, the whole keeps.
  pub >>?-keeps {ρ} :
      (P : S → Type ρ) (x : S × Outcome E A) (k : S → A → S × Outcome E B)
      → P x.0
      → ((s : S) (a : A) → P s → P (k s a).0)
      → P (x >>? k).0
  >>?-keeps P (s, ok a) k h go = go s a h
  >>?-keeps P (s, err e) k h go = h
  >>?-keeps P (s, panicked) k h go = h
  >>?-keeps P (s, out_of_fuel) k h go = h
