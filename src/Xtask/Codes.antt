-- ===== src/Xtask/Codes.antt =====
-- The codes that `main` of xtask/src/main.rs exits with.
use rpi5_baremetal.Base.{
  ℕ, zero, suc, ◌≡◌, ◌≢◌, refl, true, false, Bool, Option, none, some, List, [], ◌∷◌, codes, str_eq,
  Outcome, ok, err, panicked, out_of_fuel, ◌>>?◌, if◌then◌else◌, arith,
}
use mathlib.Core.Path.{subst}
use rpi5_baremetal.Process.{
  Text, PathBuf, Command, Event, not_spawned, not_waited, finished, Finish, Host, success, after,
}
use rpi5_baremetal.Xtask.{
  Stop, exit, error, Library, cargo_metadata, cargo_build, cargo_test, objcopy, rustc_host,
  run_each, move_binary, moved_to, unwrap, or_exit, get_workspace_members, members_of, names_of,
  waited, tuple_of, CargoMetadata, build_names, build, run, test_on, test, main, retain_not,
  binary_name,
}
use rpi5_baremetal.Xtask.Stages.{suc_fails, failure_code, round, run_each-round, round-failed}

-- An exit with a code has a code that says so.
unfoldable Honest : {A : Type 0} → Outcome Stop A → Type 0
Honest (ok a) = Unit
Honest (err (exit code)) = code ≢ 0
Honest (err error) = Unit
Honest panicked = Unit
Honest out_of_fuel = Unit

>>?-Honest :
    {A B : Type 0} (x : List Event × Outcome Stop A)
    (k : List Event → A → List Event × Outcome Stop B)
    → Honest x.1
    → ((log : List Event) (a : A) → Honest (k log a).1)
    → Honest (x >>? k).1
unfolding Honest
>>?-Honest (log, ok a) k h go = go log a
>>?-Honest (log, err (exit c)) k h go = h
>>?-Honest (log, err error) k h go = h
>>?-Honest (log, panicked) k h go = h
>>?-Honest (log, out_of_fuel) k h go = h

unwrap-Honest : {A : Type 0} (x : Outcome Stop A) → Honest x → Honest (unwrap x)
unfolding unwrap Honest
unwrap-Honest (ok a) h = h
unwrap-Honest (err (exit c)) h = h
unwrap-Honest (err error) h = tt
unwrap-Honest panicked h = h
unwrap-Honest out_of_fuel h = h

or_exit-Honest : {A : Type 0} (x : Outcome Stop A) → Honest (or_exit x)
unfolding or_exit Honest
or_exit-Honest (ok a) = tt
or_exit-Honest (err e) = λ z. omega (arith, z)
or_exit-Honest panicked = tt
or_exit-Honest out_of_fuel = tt

if-Honest :
    {A : Type 0} (b : Bool) (x y : Outcome Stop A)
    → Honest x
    → Honest y
    → Honest (if b then x else y)
if-Honest true x y h h' = h
if-Honest false x y h h' = h'

branch-Honest :
    {A : Type 0} (b : Bool) (x y : List Event × Outcome Stop A)
    → Honest x.1
    → Honest y.1
    → Honest (if b then x else y).1
branch-Honest true x y h h' = h
branch-Honest false x y h h' = h'

waited-Honest : (f : Finish) → Honest (waited f)
unfolding waited Honest
waited-Honest not_spawned = tt
waited-Honest not_waited = tt
waited-Honest (finished code stdout) = tt

module _ (host : Host) where
  round-Honest :
      (command : Text → Command) (names : List Text) (log1 : List Event) (f : Finish)
      → Honest (run_each host command names log1).1
      → Honest (round host command names log1 f).1
  unfolding Honest
  round-Honest command names log1 not_spawned h = tt
  round-Honest command names log1 not_waited h = tt
  round-Honest command names log1 (finished none stdout) h = failure_code none refl
  round-Honest command names log1 (finished (some zero) stdout) h = h
  round-Honest command names log1 (finished (some (suc c)) stdout) h =
      rw (round-failed host command names log1 (some (suc c)) stdout (suc_fails c))
        (failure_code (some (suc c)) (suc_fails c))

  run_each-Honest :
      (command : Text → Command) (names : List Text) (log : List Event)
      → Honest (run_each host command names log).1
  unfolding run_each Honest
  run_each-Honest command [] log = tt
  run_each-Honest command (name ∷ names) log =
      rw (run_each-round host command name names log (host.run log (command name)) refl) (
        round-Honest command names (after log (command name)) (host.run log (command name))
          (run_each-Honest command names (after log (command name))))

  move_binary-Honest :
      (dir : Option PathBuf) (log : List Event) → Honest (move_binary host dir log).1
  unfolding move_binary moved_to Honest
  move_binary-Honest none log = tt
  move_binary-Honest (some dir) log = ground arith

  module _ (library : Library) where
    names_of-Honest : (m : Option CargoMetadata) → Honest (names_of library m)
    unfolding names_of Honest
    names_of-Honest none = tt
    names_of-Honest (some m) = tt

    members_of-Honest : (f : Finish) → Honest (members_of library f)
    unfolding members_of Honest
    members_of-Honest not_spawned = tt
    members_of-Honest not_waited = tt
    members_of-Honest (finished code stdout) =
        if-Honest (success code) (names_of library (library.from_slice stdout)) (err error)
          (names_of-Honest (library.from_slice stdout)) tt

    tuple_of-Honest : (f : Finish) → Honest (tuple_of library f)
    unfolding tuple_of Honest
    tuple_of-Honest not_spawned = tt
    tuple_of-Honest not_waited = tt
    tuple_of-Honest (finished code stdout) = ground arith

    build_names-Honest :
        (args names : List Text) (log : List Event)
        → Honest (build_names host library args names log).1
    unfolding build_names Honest
    build_names-Honest args [] log = tt
    build_names-Honest args (name ∷ names) log =
        >>?-Honest (run_each host (cargo_build args) (name ∷ names) log) _
          (run_each-Honest (cargo_build args) (name ∷ names) log)
          (λ log1 _.
            >>?-Honest (move_binary host host.current_dir log1) _
              (move_binary-Honest host.current_dir log1) (λ log2 to. tt))

    build-Honest : (args : List Text) (log : List Event) → Honest (build host library args log).1
    unfolding build get_workspace_members
    build-Honest args log =
        >>?-Honest
          (after log cargo_metadata, or_exit (members_of library (host.run log cargo_metadata))) _
          (or_exit-Honest (members_of library (host.run log cargo_metadata)))
          (λ log1 names. build_names-Honest args names log1)

    run-Honest : (args : List Text) (log : List Event) → Honest (run host library args log).1
    unfolding run
    run-Honest args log =
        >>?-Honest (build host library args log) _ (build-Honest args log)
          (λ log1 binary. waited-Honest (host.run log1 (objcopy binary)))

    test-Honest : (args : List Text) (log : List Event) → Honest (test host library args log).1
    unfolding test test_on get_workspace_members
    test-Honest args log =
        >>?-Honest (after log rustc_host, tuple_of library (host.run log rustc_host)) _
          (tuple_of-Honest (host.run log rustc_host))
          (λ log1 host_tuple.
            >>?-Honest
              (
                after log1 cargo_metadata,
                unwrap (members_of library (host.run log1 cargo_metadata)),
              )
              _
              (unwrap-Honest (members_of library (host.run log1 cargo_metadata))
                (members_of-Honest (host.run log1 cargo_metadata)))
              (λ log2 names.
                run_each-Honest (cargo_test host_tuple args) (retain_not binary_name names) log2))

    main-Honest : (args : List Text) (log : List Event) → Honest (main host library args log).1
    unfolding main Honest
    main-Honest [] log = λ z. omega (arith, z)
    main-Honest (cmd ∷ args) log =
        branch-Honest (str_eq cmd (codes "build")) _ _
          (>>?-Honest ((build host library args log).0, unwrap (build host library args log).1) _
            (unwrap-Honest (build host library args log).1 (build-Honest args log)) (λ log2 _. tt))
          (branch-Honest (str_eq cmd (codes "run")) _ _
            (unwrap-Honest (run host library args log).1 (run-Honest args log))
            (branch-Honest (str_eq cmd (codes "test")) _ _ (test-Honest args log)
              (λ z. omega (arith, z))))

    -- Whatever the commands answer, `main` never exits with the code 0 through `process::exit`.
    pub main-exits :
        (args : List Text) (log : List Event) (code : ℕ)
        → (main host library args log).1 ≡ err (exit code)
        → code ≢ 0
    unfolding Honest
    main-exits args log code h = subst Honest h (main-Honest args log)
