-- ===== src/Mutex/RwLock/Counting/Completion.antt =====
-- The threads of `rw_lock_data` of mutex/src/lib.rs come to their ends, where there is no deadlock.
use rpi5_baremetal.Base.{
  ℕ, ◌*◌, ◌^◌, ◌≤◌, ◌<◌, ◌≡◌, ◌⊎◌, ◌↔◌, inl, inr, refl, Option, arith, dec_lt,
}
use rpi5_baremetal.Mutex.Threads.{tally, le-tally, tally-pos, tally_mono}
use rpi5_baremetal.Mutex.Schedules.{Steps, Steps-keep, runs_down_keeping}
use rpi5_baremetal.Mutex.RwLock.Counting.{Point, System, Step, Reach, later}
use rpi5_baremetal.Mutex.RwLock.Counting.Invariant.{reads, owns, writes, Reach-Inv}
use rpi5_baremetal.Mutex.RwLock.Counting.Total.{IsDone}
use rpi5_baremetal.Mutex.RwLock.Counting.Deadlock.{
  half, waits, IsDeadlocked, Steps-IsDeadlocked, done-free,
}
use rpi5_baremetal.Mutex.RwLock.Counting.Turns.{
  left, left_zero, plan, after, free-closer, owner-closer, reader-closer, turns-Moved,
}

reads-le-left : (p : Point) → reads p ≤ left p
reads-le-left p = ground arith

half_one : (p : Point) → 0 < half p → half p ≡ 1
half_one p h = ground arith

waits_one : (p : Point) → 0 < waits p → waits p ≡ 1
waits_one p h = ground arith

-- Either no reader asks for a second guard, or no writer waits.
abbrev IsFree : ℕ → System → Type 0
IsFree n s = (tally half n s.points ≡ 0) ⊎ (tally waits n s.points ≡ 0)

waits-owns : (p : Point) → waits p ≤ owns p
waits-owns p = ground arith

alone_waits : (p : Point) → 0 < owns p → writes p ≡ 0 → waits p ≡ 1
alone_waits p own no_guard = ground arith

-- Some steps bring the threads closer to their ends, and to no deadlock.
abbrev Closer : ℕ → System → Type 0
Closer n s =
    (t : System) × Steps (Step n) s t × IsFree n t × (tally left n t.points < tally left n s.points)

module _ {n : ℕ} where
  goes_free :
      (s : System) (i : ℕ)
      → i < n
      → tally waits n s.points ≡ 0
      → (left (after s.lock (s.points i)) < left (s.points i))
        × (waits (after s.lock (s.points i)) ≡ 0)
      → Closer n s
  goes_free s i lt none_waits (less, out) =
      let (t, moved) = turns-Moved (plan (s.points i)) s i s.lock (s.points i) lt refl refl in
      (
        t,
        moved.steps,
        inr (omega (arith, moved.weights waits)),
        omega (arith, moved.weights left, less),
      )

  goes_whole :
      (s : System) (i : ℕ)
      → i < n
      → IsFree n s
      → (left (after s.lock (s.points i)) < left (s.points i))
        × (waits (after s.lock (s.points i)) ≡ 0)
        × (half (after s.lock (s.points i)) ≡ 0)
      → Closer n s
  goes_whole s i lt free (less, out, whole) =
      let (t, moved) = turns-Moved (plan (s.points i)) s i s.lock (s.points i) lt refl refl in
      (
        t,
        moved.steps,
        elim free [
          | inl none_half ↦ inl (omega (arith, moved.weights half))
          | inr none_waits ↦ inr (omega (arith, moved.weights waits))
        ],
        omega (arith, moved.weights left, less),
      )

not_deadlocked-IsFree : (n : ℕ) (s : System) → ¬ IsDeadlocked n s → IsFree n s
not_deadlocked-IsFree n s alive = elim (dec_lt 0 (tally half n s.points)) [
  | no none_half ↦ inl (omega arith)
  | yes some_half ↦ elim (dec_lt 0 (tally waits n s.points)) [
    | no none_waits ↦ inr (omega arith)
    | yes some_wait ↦
        let (i, lt, in_i) = tally-pos half n s.points some_half in
        let (j, lt', in_j) = tally-pos waits n s.points some_wait in
        absurd (alive (i, j, lt, lt', half_one (s.points i) in_i, waits_one (s.points j) in_j))
  ]
]

module _ {n : ℕ} {kinds : ℕ → Option ℕ} (few : 2 * n < 2 ^ 63) where
  reader_goes :
      (s : System) → Reach n kinds s → IsFree n s → 0 < tally reads n s.points → Closer n s
  reader_goes s r free some_read =
      let inv = Reach-Inv few r in
      let (i, lt, read) = tally-pos reads n s.points some_read in
      elim (dec_lt 0 (tally owns n s.points)) [
        | no none_owns ↦
            goes_free s i lt (omega (arith, tally_mono waits owns n s.points waits-owns)) (
              free-closer s.lock (s.points i) (omega (arith, inv.counted, inv.few))
                (omega (arith, le-tally owns n s.points i lt)) (inl read)
                (omega (arith, reads-le-left (s.points i))))
        | yes some_owns ↦
            let (j, lt', own) = tally-pos owns n s.points some_owns in
            let none_writes : tally writes n s.points ≡ 0 = ground (arith, inv.alone) in
            let waiting : waits (s.points j) ≡ 1 =
              alone_waits (s.points j) own (omega (arith, le-tally writes n s.points j lt')) in
            elim free [
              | inl none_half ↦ goes_whole s i lt (inl none_half) (
                  reader-closer s.lock (s.points i) read
                    (omega (arith, le-tally half n s.points i lt)))
              | inr none_waits ↦ absurd (omega (arith, waiting, le-tally waits n s.points j lt'))
            ]
      ]

  closer : (s : System) → Reach n kinds s → IsFree n s → 0 < tally left n s.points → Closer n s
  closer s r free some =
      let inv = Reach-Inv few r in
      elim (dec_lt 0 (tally reads n s.points)) [
        | yes some_read ↦ reader_goes s r free some_read
        | no none_read ↦ elim (dec_lt 0 (tally owns n s.points)) [
          | yes some_owns ↦
              let (j, lt, own) = tally-pos owns n s.points some_owns in
              goes_whole s j lt free
                (owner-closer s.lock (s.points j) (omega (arith, inv.counted)) own)
          | no none_owns ↦
              let (i, lt, heavy) = tally-pos left n s.points some in
              goes_free s i lt (omega (arith, tally_mono waits owns n s.points waits-owns)) (
                free-closer s.lock (s.points i) (omega (arith, inv.counted))
                  (omega (arith, le-tally owns n s.points i lt)) (inr (omega (arith, inv.counted)))
                  heavy)
        ]
      ]

  -- With fewer than 2 ^ 62 threads: from a state that the threads of the test reach, some steps lead to
  -- one in which all of them are done if and only if it is not so that one reader has its first
  -- guard and not its second, while a writer has the flag and waits for the readers.
  pub threads_finish_iff :
      (s : System)
      → Reach n kinds s
      → ((t : System) × Steps (Step n) s t × ((i : ℕ) → i < n → IsDone (t.points i)))
        ↔ (¬ IsDeadlocked n s)
  threads_finish_iff s r = (
    λ finished_in dead.
        let (t, steps, done) = finished_in in
        done-free t done (Steps-IsDeadlocked few steps r dead),
    λ alive.
        let (t, steps, done) =
          runs_down_keeping (λ u. Reach n kinds u × IsFree n u) (λ u. tally left n u.points)
            (λ u h some.
              let (v, steps, free, less) = closer u h.0 h.1 some in
              (
                v,
                steps,
                (Steps-keep (Reach n kinds) (λ _ _ h st. later h st) steps h.0, free),
                less,
              ))
            s (r, not_deadlocked-IsFree n s alive) in
        (
          t,
          steps,
          λ i lt. left_zero (t.points i) (omega (arith, done, le-tally left n t.points i lt)),
        ),
  )
