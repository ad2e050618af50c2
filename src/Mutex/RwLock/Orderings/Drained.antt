-- ===== src/Mutex/RwLock/Orderings/Drained.antt =====
-- What a writer of `RWLock` of mutex/src/lib.rs does not know that has waited for readers: the loop in
-- which it waits loads the word with `Relaxed`.
use rpi5_baremetal.Base.{ℕ, suc, ◌≤◌, ◌<◌, ◌≡◌, ◌≢◌, sym, ap, ◌∙◌, ℕ_discrete, arith}
use mathlib.Core.Path.{subst}
use rpi5_baremetal.Mutex.Threads.{go_to, go_to_same, go_to_other, go_to-all}
use rpi5_baremetal.Mutex.Schedules.{Steps, Steps-keep}
use rpi5_baremetal.Mutex.Clocks.{
  Clocks, Effect, relaxed, acquire, release, release_store, read_data, write_data, happen,
}
use rpi5_baremetal.Mutex.RwLock.{Pc, draining}
use rpi5_baremetal.Mutex.RwLock.Orderings.{ordering, State, Step, move, deref}
use rpi5_baremetal.Mutex.RwLock.Orderings.Kinds.{holds, Kind, waits, gains, drops, puts, Move-Kind}

-- A step behind which thread `i` has the flag, or a guard.
abbrev pub StepHolding : {T : Type 0} → ℕ → ℕ → State T → State T → Type 0
StepHolding n i s t = Step n s t × (holds (t.system.pc i) ≡ 1)

-- Thread `i` does not know of a read that thread `k` has made.
abbrev pub IsUnknown : ℕ → ℕ → Clocks → Type 0
IsUnknown i k c = (c.views i).reads k < c.made.reads k

le-go_to : (f : ℕ → ℕ) (j k : ℕ) → f k ≤ go_to f j (suc (f j)) k
le-go_to f j = go_to-all (λ k x. f k ≤ x) f j (suc (f j)) (omega arith) (λ k ne. omega arith)

module _ (i k : ℕ) (ne : i ≢ k) (c : Clocks) (unknown : IsUnknown i k c) where
  -- What another thread does leaves the view as it is, and no read is taken back.
  other-IsUnknown : (e : Effect) (j : ℕ) → j ≢ i → IsUnknown i k (happen e j c)
  unfolding happen
  other-IsUnknown relaxed j other = unknown
  other-IsUnknown acquire j other =
      omega (arith, unknown, ap (λ v. v.reads k) (go_to_other c.views j i _ other))
  other-IsUnknown release j other = unknown
  other-IsUnknown release_store j other = unknown
  other-IsUnknown read_data j other = omega (
    arith,
    unknown,
    ap (λ v. v.reads k) (go_to_other c.views j i _ other),
    le-go_to c.made.reads j k,
  )
  other-IsUnknown write_data j other =
      omega (arith, unknown, ap (λ v. v.reads k) (go_to_other c.views j i _ other))

  -- Nor does the thread come to know of it by its own reads and writes.
  own_write-IsUnknown : IsUnknown i k (happen write_data i c)
  unfolding happen
  own_write-IsUnknown = omega (arith, unknown, ap (λ v. v.reads k) (go_to_same c.views i _))

  own_read-IsUnknown : IsUnknown i k (happen read_data i c)
  unfolding happen
  own_read-IsUnknown =
      let r : ℕ = suc (c.made.reads i) in
      omega (
        arith,
        unknown,
        ap (λ v. v.reads k) (go_to_same c.views i _),
        go_to_other (c.views i).reads i k r ne,
        go_to_other c.made.reads i k r ne,
      )

  -- Its moves from where it has the flag to where it has it still do not acquire.
  own_move-IsUnknown :
      {word : ℕ} {p p' : Pc} {e : Effect}
      → Kind word p p' e
      → holds p ≡ 1
      → holds p' ≡ 1
      → IsUnknown i k (happen e i c)
  unfolding happen
  own_move-IsUnknown (waits _ _ _) before behind = unknown
  own_move-IsUnknown (gains _ out) before behind = absurd (omega (arith, out, before))
  own_move-IsUnknown (drops _ out) before behind = absurd (omega (arith, out, behind))
  own_move-IsUnknown (puts _ _) before behind = own_write-IsUnknown

module _ {T : Type 0} {n : ℕ} (i k : ℕ) (ne : i ≢ k) where
  Step-IsUnknown :
      {s t : State T}
      → (holds (s.system.pc i) ≡ 1) × IsUnknown i k s.clocks
      → StepHolding n i s t
      → (holds (t.system.pc i) ≡ 1) × IsUnknown i k t.clocks
  Step-IsUnknown {s} (before, unknown) (move j {p = p} lt mv, behind) = (
    behind,
    elim (ℕ_discrete j i) [
      | yes same ↦
          let at_j : holds (s.system.pc j) ≡ 1 = ap (λ m. holds (s.system.pc m)) same ∙ before in
          let still : holds p ≡ 1 =
            ap holds (sym (go_to_same s.system.pc j p))
            ∙ ap (λ m. holds (go_to s.system.pc j p m)) same
            ∙ behind in
          subst (λ m. IsUnknown m k (happen (ordering mv) j s.clocks)) same
            (own_move-IsUnknown j k (λ e. ne (sym same ∙ e)) s.clocks
              (subst (λ m. IsUnknown m k s.clocks) (sym same) unknown) (Move-Kind mv) at_j still)
      | no other ↦ other-IsUnknown i k ne s.clocks unknown (ordering mv) j other
    ],
  )
  Step-IsUnknown {s} (before, unknown) (deref j lt guard, behind) = (
    behind,
    elim (ℕ_discrete j i) [
      | yes same ↦
          subst (λ m. IsUnknown m k (happen read_data j s.clocks)) same
            (own_read-IsUnknown j k (λ e. ne (sym same ∙ e)) s.clocks
              (subst (λ m. IsUnknown m k s.clocks) (sym same) unknown))
      | no other ↦ other-IsUnknown i k ne s.clocks unknown read_data j other
    ],
  )

  -- If thread `i` waits for the readers and does not know of a read that another thread has made, then
  -- however the threads go on, as long as it has the flag, through the end of its wait and its own
  -- reads and writes of the data too, it does not know of all the reads of that thread.
  pub drained-IsUnknown :
      {s t : State T}
      → s.system.pc i ≡ draining
      → IsUnknown i k s.clocks
      → Steps (StepHolding n i) s t
      → IsUnknown i k t.clocks
  drained-IsUnknown {s} waiting unknown steps =
      (Steps-keep (λ u. (holds (u.system.pc i) ≡ 1) × IsUnknown i k u.clocks)
        (λ u w h st. Step-IsUnknown h st) steps (ap holds waiting, unknown)).1
