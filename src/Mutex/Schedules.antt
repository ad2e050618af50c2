-- ===== src/Mutex/Schedules.antt =====
-- Steps one after the other, and schedules that bring a measure to zero.
use rpi5_baremetal.Base.{ℕ, zero, suc, ◌≤◌, ◌<◌, ◌≡◌, arith, dec_lt}

module _ {S : Type 0} (R : S → S → Type 0) where
  pub data Steps (s : S) : S → Type 0 where
    none_left : Steps s s
    then_one : {t u : S} → Steps s t → R t u → Steps s u

module _ {S : Type 0} {R : S → S → Type 0} where
  pub Steps-append : {s t u : S} → Steps R s t → Steps R t u → Steps R s u
  Steps-append a none_left = a
  Steps-append a (then_one b st) = then_one (Steps-append a b) st

  -- What one step keeps, any number of them keeps.
  pub Steps-keep :
      (P : S → Type 0) → ((s t : S) → P s → R s t → P t) → {s t : S} → Steps R s t → P s → P t
  Steps-keep P step none_left h = h
  Steps-keep P step (then_one b st) h = step _ _ (Steps-keep P step b h) st

  -- If the measure can be made smaller by some steps wherever it is not 0, and the property kept by
  -- them, it can be made 0.
  module _ (P : S → Type 0) (measure : S → ℕ)
      (smaller : (s : S)
        → P s
        → 0 < measure s
        → (t : S) × Steps R s t × P t × (measure t < measure s)) where
    runs_down_within :
        (k : ℕ) (s : S) → P s → measure s ≤ k → (t : S) × Steps R s t × (measure t ≡ 0)
    runs_down_within zero s h le = (s, none_left, omega arith)
    runs_down_within (suc k) s h le = elim (dec_lt 0 (measure s)) [
      | yes some ↦
          let (t, steps, h', lt) = smaller s h some in
          let (u, rest, done) = runs_down_within k t h' (omega arith) in
          (u, Steps-append steps rest, done)
      | no none ↦ (s, none_left, omega arith)
    ]

    pub runs_down_keeping : (s : S) → P s → (t : S) × Steps R s t × (measure t ≡ 0)
    runs_down_keeping s h = runs_down_within (measure s) s h (omega arith)

  -- Here every step keeps the property.
  pub runs_down :
      (P : S → Type 0)
      → ((s t : S) → P s → R s t → P t)
      → (measure : S → ℕ)
      → ((s : S) → P s → 0 < measure s → (t : S) × Steps R s t × (measure t < measure s))
      → (s : S) → P s
      → (t : S) × Steps R s t × (measure t ≡ 0)
  runs_down P step measure smaller = runs_down_keeping P measure (λ s h some.
      let (t, steps, lt) = smaller s h some in (t, steps, Steps-keep P step steps h, lt))
