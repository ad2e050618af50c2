-- ===== src/Dtb/ItWorks/Passes.antt =====
-- When the test `it_works` of dtb/src/lib.rs passes.
use rpi5_baremetal.Base.{
  ℕ, suc, ◌+◌, ◌==◌, ◌&&◌, ◌≡◌, ◌≢◌, ◌↔◌, refl, ap, sym, ◌∙◌, inl, inr, Bool, true, false,
  Bool-cases, Option, none, some, List, [], ◌∷◌, length, codes, if◌then◌else◌, ok, err, panicked,
  out_of_fuel, >>=-eq-ok, arith,
}
use rpi5_baremetal.Dtb.BigEndian.{Memory, Result}
use rpi5_baremetal.Dtb.Header.{DtbHeader}
use rpi5_baremetal.Dtb.Header
use rpi5_baremetal.Dtb.AddressIter.{Callback, continue}
use rpi5_baremetal.Dtb.Parser.{Search, find_node}
use rpi5_baremetal.Dtb.Naturality.{on_state, find_node-on_state}
use rpi5_baremetal.Dtb.Agree.Walks.{find_node-agree}
use rpi5_baremetal.Dtb.ItWorks.{
  debug_uart, memory_block, Checks, fresh, expects, counts, unwrap, searched, search, it_works,
}

-- A callback that keeps what it is given, the last first.
abbrev pub collects : Callback (List (ℕ × ℕ))
collects s a = (a ∷ s, continue)

-- The callback `expects`, if a failed assertion did not end the search.
abbrev goes_on : ℕ × ℕ → Callback Checks
goes_on want s a = (
  if a.0 == want.0 && a.1 == want.1
      then record s { counter = s.counter + 1 }
      else record s { failed = true },
  continue,
)

abbrev checks : ℕ × ℕ → List (ℕ × ℕ) → Checks
checks want [] = fresh
checks want (a ∷ l) = (goes_on want (checks want l) a).0

abbrev IsBad : Checks → Type 0
IsBad s = s.failed ≡ true

goes_on-stays : (want : ℕ × ℕ) (s : Checks) (a : ℕ × ℕ) → IsBad s → IsBad (goes_on want s a).0
goes_on-stays want s a bad = ground arith

expects-stays : (want : ℕ × ℕ) (s : Checks) (a : ℕ × ℕ) → IsBad s → IsBad (expects want s a).0
unfolding expects
expects-stays want s a bad = ground arith

expects-goes_on :
    (want : ℕ × ℕ) (s : Checks) (a : ℕ × ℕ)
    → ¬ IsBad (goes_on want s a).0
    → expects want s a ≡ goes_on want s a
unfolding expects
expects-goes_on want s a well = elim (Bool-cases (a.0 == want.0 && a.1 == want.1)) [
  | inl good ↦ rw good refl
  | inr wrong ↦ absurd (well (rw wrong refl))
]

goes_on-expects :
    (want : ℕ × ℕ) (s : Checks) (a : ℕ × ℕ)
    → ¬ IsBad (expects want s a).0
    → goes_on want s a ≡ expects want s a
unfolding expects
goes_on-expects want s a well = elim (Bool-cases (a.0 == want.0 && a.1 == want.1)) [
  | inl good ↦ rw good refl
  | inr wrong ↦ absurd (well (rw wrong refl))
]

true-ne : ◌≢◌ {A = Bool} true false
true-ne e = cc e

searched-passed :
    (n : ℕ) (y : Checks × Result (Unit {0}))
    → searched n y ≡ ok tt
    → (y.1 ≡ ok tt) × (y.0.failed ≡ false) × (y.0.counter ≡ n)
unfolding searched unwrap
searched-passed n (s, ok u) h = (refl, ground (arith, h), ground (arith, h))
searched-passed n (s, err e) h = absurd (cc h)
searched-passed n (s, panicked) h = absurd (cc h)
searched-passed n (s, out_of_fuel) h = absurd (cc h)

searched-one : searched 1 (record { counter = 1; failed = false }, ok tt) ≡ ok tt
unfolding searched unwrap
searched-one = refl

pair_eq : (a b : ℕ × ℕ) → a.0 ≡ b.0 → a.1 ≡ b.1 → a ≡ b
pair_eq a b e e' = λ i. (e i, e' i)

module _ (want : ℕ × ℕ) where
  checks-length :
      (l : List (ℕ × ℕ)) → (checks want l).failed ≡ false → (checks want l).counter ≡ length l
  checks-length [] well = refl
  checks-length (a ∷ l) well = elim (Bool-cases (a.0 == want.0 && a.1 == want.1)) [
    | inl good ↦ rw good (omega (arith, checks-length l (rw good at well)))
    | inr wrong ↦ absurd (cc (rw wrong at well))
  ]

  checks-once :
      (l : List (ℕ × ℕ))
      → (checks want l).failed ≡ false
      → (checks want l).counter ≡ 1
      → l ≡ want ∷ []
  checks-once [] well one = absurd (omega arith)
  checks-once (a ∷ []) well one = elim (Bool-cases (a.0 == want.0 && a.1 == want.1)) [
    | inl good ↦ ap (λ x. x ∷ []) (pair_eq a want (ground (arith, good)) (ground (arith, good)))
    | inr wrong ↦ absurd (cc (rw wrong at well))
  ]
  checks-once (a ∷ b ∷ l) well one = absurd (omega (arith, checks-length (a ∷ b ∷ l) well, one))

  once-checks : checks want (want ∷ []) ≡ record { counter = 1; failed = false }
  once-checks = ground arith

  module _ (env : Search) (fuel : ℕ) where
    along :
        find_node env (goes_on want) fuel fresh
        ≡ on_state (checks want) (find_node env collects fuel [])
    along = find_node-on_state (checks want) collects (goes_on want) (λ s a. refl) env fuel []

    searched_iff :
        (searched 1 (find_node env (expects want) fuel fresh) ≡ ok tt)
        ↔ (find_node env collects fuel [] ≡ (want ∷ [], ok tt))
    searched_iff = (
      λ passed.
          let (ended, well, one) =
            searched-passed 1 (find_node env (expects want) fuel fresh) passed in
          let agree : find_node env (goes_on want) fuel fresh
              ≡ find_node env (expects want) fuel fresh =
            find_node-agree IsBad env (goes_on want) (expects want) (expects-stays want)
              (goes_on-expects want) fuel fresh (λ bad. true-ne (sym bad ∙ well)) in
          let e = sym along ∙ agree in
          let given =
            checks-once (find_node env collects fuel []).0 (ap (λ y. y.0.failed) e ∙ well)
              (ap (λ y. y.0.counter) e ∙ one) in
          let end_well = ap (λ y. y.1) e ∙ ended in λ i. (given i, end_well i),
      λ once.
          let e : find_node env (goes_on want) fuel fresh
              ≡ (record { counter = 1; failed = false }, ok tt) =
            along ∙ ap (on_state (checks want)) once ∙ ap (λ c. (c, ok tt)) once-checks in
          let agree : find_node env (expects want) fuel fresh
              ≡ find_node env (goes_on want) fuel fresh =
            find_node-agree IsBad env (expects want) (goes_on want) (goes_on-stays want)
              (expects-goes_on want) fuel fresh
              (λ bad. true-ne (sym bad ∙ ap (λ y. y.0.failed) e)) in
          ap (searched 1) (agree ∙ e) ∙ searched-one,
    )

counted : List (ℕ × ℕ) → Checks
counted l = record { counter = length l; failed = false }

module _ (env : Search) (fuel : ℕ) where
  count-along : find_node env counts fuel fresh ≡ on_state counted (find_node env collects fuel [])
  unfolding counts counted
  count-along =
      find_node-on_state counted collects counts
        (λ s a.
          ap (λ k. (record { counter = k; failed = false }, continue)) {x = length s + 1}
            {y = suc (length s)} (omega arith))
        env fuel []

  counted_iff :
      (n : ℕ)
      → (searched n (find_node env counts fuel fresh) ≡ ok tt)
        ↔ ((l : List (ℕ × ℕ)) × (find_node env collects fuel [] ≡ (l, ok tt)) × (length l ≡ n))
  unfolding counted searched unwrap
  counted_iff n = (
    λ passed.
        let (ended, _, number) = searched-passed n (find_node env counts fuel fresh) passed in
        let end_well = ap (λ y. y.1) (sym count-along) ∙ ended in
        (
          (find_node env collects fuel []).0,
          λ i. ((find_node env collects fuel []).0, end_well i),
          ap (λ y. y.0.counter) (sym count-along) ∙ number,
        ),
    λ (l, given, number).
        let e : find_node env counts fuel fresh ≡ (counted l, ok tt) =
          count-along ∙ ap (on_state counted) given in
        ap (searched n) e ∙ ground (arith, number),
  )

module _ (limit rounds fuel : ℕ) (m : Memory) where
  -- What a search gives to a callback that keeps it, in the blob with the header.
  abbrev pub given :
      DtbHeader → Option (List ℕ) → Option (List ℕ) → List (ℕ × ℕ) × Result (Unit {0})
  given header device_name compatible_name =
      find_node (search m limit rounds header device_name compatible_name) collects fuel []

  -- At a header that the parser takes, the test passes exactly when its searches end well and give a callback that breaks off nothing: for the compatible name `arm,pl011` the block
  -- of the debug UART and no other, for the device name `memory` the block of the memory and no other,
  -- and for the compatible name `arm,gic-400` four blocks.
  pub it_works_iff :
      (a : ℕ) (header : DtbHeader)
      → Header.new m a ≡ ok header
      → (it_works limit rounds fuel m a ≡ ok tt) ↔ (
          (given header none (some (codes "arm,pl011")) ≡ (debug_uart ∷ [], ok tt))
          × (given header (some (codes "memory")) none ≡ (memory_block ∷ [], ok tt))
          × ((l : List (ℕ × ℕ)) × (given header none (some (codes "arm,gic-400")) ≡ (l, ok tt))
              × (length l ≡ 4)))
  unfolding it_works unwrap
  it_works_iff a header read =
      let find = search m limit rounds header in
      let first = searched_iff debug_uart (find none (some (codes "arm,pl011"))) fuel in
      let second = searched_iff memory_block (find (some (codes "memory")) none) fuel in
      let third = counted_iff (find none (some (codes "arm,gic-400"))) fuel 4 in
      (
        λ passed.
            let (_, one, more) =
              >>=-eq-ok
                (searched 1 (
                  find_node (find none (some (codes "arm,pl011"))) (expects debug_uart) fuel fresh))
                _ (rw read at passed) in
            let (_, two, last) =
              >>=-eq-ok
                (searched 1
                  (find_node (find (some (codes "memory")) none) (expects memory_block) fuel fresh))
                _ more in
            (first.0 one, second.0 two, third.0 last),
        λ (one, two, three). rw (read, first.1 one, second.1 two) (third.1 three),
      )
