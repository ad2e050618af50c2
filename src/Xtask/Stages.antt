-- ===== src/Xtask/Stages.antt =====
-- What xtask/src/main.rs has run when it is done, and the codes it exits with.
use rpi5_baremetal.Base.{
  ℕ, zero, suc, ◌≡◌, ◌≢◌, refl, sym, ap, ◌∙◌, true, false, Option, none, some, List, [], ◌∷◌, ◌++◌,
  map, Outcome, ok, err, panicked, arith,
}
use mathlib.Core.List.{append-nil, append_assoc}
use rpi5_baremetal.Process.{
  Text, Command, Event, ran, not_spawned, not_waited, finished, Finish, Host, success, after,
}
use rpi5_baremetal.Xtask.{Stop, exit, code_or_1, run_each}

pub failure_code : (c : Option ℕ) → success c ≡ false → code_or_1 c ≢ 0
failure_code none h e = omega (arith, e)
failure_code (some zero) h e = cc
failure_code (some (suc c)) h e = omega (arith, e)

pub suc_fails : (c : ℕ) → success (some (suc c)) ≡ false
suc_fails c = ground arith

module _ (host : Host) (command : Text → Command) where
  -- Each command ends with the code 0, when it is run behind the log and those before it.
  unfoldable pub Succeed : List Event → List Text → Type 0
  Succeed log [] = Unit
  Succeed log (name ∷ names) =
      ((stdout : List ℕ) × (host.run log (command name) ≡ finished (some 0) stdout))
      × Succeed (after log (command name)) names

  abbrev pub all_after : List Event → List Text → List Event
  all_after log names = log ++ map (λ name. ran (command name)) names

  -- What the loop does at a package, given how its command ends.
  abbrev pub round : List Text → List Event → Finish → List Event × Outcome Stop (Unit {0})
  round names log1 not_spawned = (log1, panicked)
  round names log1 not_waited = (log1, panicked)
  round names log1 (finished code stdout) = elim (success code) [
    | true ↦ run_each host command names log1
    | false ↦ (log1, err (exit (code_or_1 code)))
  ]

  pub run_each-round :
      (name : Text) (names : List Text) (log : List Event) (f : Finish)
      → host.run log (command name) ≡ f
      → run_each host command (name ∷ names) log ≡ round names (after log (command name)) f
  unfolding run_each
  run_each-round name names log not_spawned e = rw (e, run_each) refl
  run_each-round name names log not_waited e = rw (e, run_each) refl
  run_each-round name names log (finished code stdout) e = rw (e, run_each) refl

  pub round-failed :
      (names : List Text) (log1 : List Event) (code : Option ℕ) (stdout : List ℕ)
      → success code ≡ false
      → round names log1 (finished code stdout) ≡ (log1, err (exit (code_or_1 code)))
  round-failed names log1 code stdout bad = rw (round, bad) refl

  -- If a round goes on to an end without error, its command ended with the code 0.
  round-eq-ok :
      (names : List Text) (log1 log' : List Event) (f : Finish)
      → round names log1 f ≡ (log', ok tt)
      → ((stdout : List ℕ) × (f ≡ finished (some 0) stdout))
        × (run_each host command names log1 ≡ (log', ok tt))
  round-eq-ok names log1 log' not_spawned h = cc
  round-eq-ok names log1 log' not_waited h = cc
  round-eq-ok names log1 log' (finished none stdout) h = cc
  round-eq-ok names log1 log' (finished (some zero) stdout) h = ((stdout, refl), h)
  round-eq-ok names log1 log' (finished (some (suc c)) stdout) h =
      cc (sym (round-failed names log1 (some (suc c)) stdout (suc_fails c)) ∙ h)

  pub run_each-eq-ok :
      (names : List Text) (log log' : List Event)
      → run_each host command names log ≡ (log', ok tt)
      → Succeed log names × (log' ≡ all_after log names)
  unfolding run_each Succeed
  run_each-eq-ok [] log log' h = (tt, sym (ap (λ x. x.0) h) ∙ sym (append-nil log))
  run_each-eq-ok (name ∷ names) log log' h =
      let f : Finish = host.run log (command name) in
      let log1 : List Event = after log (command name) in
      let (good, rest) =
        round-eq-ok names log1 log' f (sym (run_each-round name names log f refl) ∙ h) in
      let (others, ends) = run_each-eq-ok names log1 log' rest in
      ((good, others), ends ∙ append_assoc log (ran (command name) ∷ []) _)

  -- If the commands for the packages before one end with the code 0, and its own does not, the loop
  -- exits at once, with the code of that command, or with 1 if it has none, and never with 0. No
  -- command was run for the packages behind it.
  pub run_each-stops :
      (before behind : List Text) (name : Text) (code : Option ℕ) (stdout : List ℕ)
      (log : List Event)
      → Succeed log before
      → host.run (all_after log before) (command name) ≡ finished code stdout
      → success code ≡ false
      → (run_each host command (before ++ name ∷ behind) log
          ≡ (all_after log (before ++ name ∷ []), err (exit (code_or_1 code))))
        × (code_or_1 code ≢ 0)
  unfolding Succeed
  run_each-stops [] behind name code stdout log good e bad = (
    run_each-round name behind log (finished code stdout)
          (ap (λ l. host.run l (command name)) (sym (append-nil log)) ∙ e)
        ∙ round-failed behind (after log (command name)) code stdout bad,
    failure_code code bad,
  )
  run_each-stops (n ∷ before) behind name code stdout log ((out, first), good) e bad =
      let log1 : List Event = after log (command n) in
      let (stops, nonzero) =
        run_each-stops before behind name code stdout log1 good
          (ap (λ l. host.run l (command name)) (append_assoc log (ran (command n) ∷ []) _) ∙ e)
          bad in
      (
        run_each-round n (before ++ name ∷ behind) log (finished (some 0) out) first
            ∙ stops
            ∙ ap (λ l. (l, err (exit (code_or_1 code))))
                (append_assoc log (ran (command n) ∷ []) _),
        nonzero,
      )
