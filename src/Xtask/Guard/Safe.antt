-- ===== src/Xtask/Guard/Safe.antt =====
-- Which commands xtask/src/main.rs runs, whatever they answer.
use rpi5_baremetal.Base.{
  ◌≡◌, refl, ap, inl, inr, Bool, true, false, Bool-cases, Option, none, some, List, [], ◌∷◌, ◌++◌,
  All, codes, str_eq, if◌then◌else◌, Outcome, ok, err, panicked, out_of_fuel, ◌>>?◌,
}
use rpi5_baremetal.Process.{
  Text, Command, Event, ran, Finish, not_spawned, not_waited, finished, Host, success, after,
}
use rpi5_baremetal.Xtask.{
  Stop, Library, cargo_metadata, cargo_build, cargo_test, objcopy, rustc_host, binary_name,
  retain_not, run_each, move_binary, members_of, tuple_of, get_workspace_members, build_names,
  build, run, test_on, test, main, or_exit, unwrap,
}
use rpi5_baremetal.Bootloader.BuildScript.{Var, value}
use rpi5_baremetal.Bootloader.BuildScript
use rpi5_baremetal.Process.{PathBuf}
use rpi5_baremetal.Xtask.Stages.{round, run_each-round}
use rpi5_baremetal.Xtask.Guard.{
  seen, Passes, IsSafe, asks_members, asks_host, makes_image, builds, tests, AreSafe,
}
use rpi5_baremetal.Xtask.Guard.Names.{
  retain_not-keeps, All-imp, NotXtask, unwrap-ok, or_exit-ok, members_of-OthersFound,
}

cargo_build-Passes : (args : List Text) (name : Text) → Passes (cargo_build args name)
unfolding BuildScript.main BuildScript.is_ok seen str_eq
cargo_build-Passes args name inherited = refl

module _ (args : List Text) where
  AreSafe-append :
      (log log' : List Event) → AreSafe args log → AreSafe args log' → AreSafe args (log ++ log')
  AreSafe-append [] log' s s' = s'
  AreSafe-append (e ∷ log) log' (here, s) s' = (here, AreSafe-append log log' s s')

  AreSafe-after :
      (log : List Event) (c : Command)
      → AreSafe args log
      → IsSafe args c
      → AreSafe args (after log c)
  AreSafe-after log c s here = AreSafe-append log (ran c ∷ []) s (here, tt)

  >>?-AreSafe :
      {A B : Type 0} (x : List Event × Outcome Stop A)
      (f : List Event → A → List Event × Outcome Stop B)
      → AreSafe args x.0
      → ((log : List Event) (a : A) → x ≡ (log, ok a) → AreSafe args log → AreSafe args (f log a).0)
      → AreSafe args (x >>? f).0
  >>?-AreSafe (log, ok a) f s h = h log a refl s
  >>?-AreSafe (log, err e) f s h = s
  >>?-AreSafe (log, panicked) f s h = s
  >>?-AreSafe (log, out_of_fuel) f s h = s

  module _ (host : Host) where
    round-AreSafe :
        (command : Text → Command) (names : List Text) (log1 : List Event) (f : Finish)
        → AreSafe args log1
        → AreSafe args (run_each host command names log1).0
        → AreSafe args (round host command names log1 f).0
    round-AreSafe command names log1 not_spawned s rest = s
    round-AreSafe command names log1 not_waited s rest = s
    round-AreSafe command names log1 (finished code stdout) s rest =
        elim (Bool-cases (success code)) [
          | inl good ↦ rw (round, good) rest
          | inr bad ↦ rw (round, bad) s
        ]

    run_each-AreSafe :
        (command : Text → Command) (names : List Text) (log : List Event)
        → All (λ name. IsSafe args (command name)) names
        → AreSafe args log
        → AreSafe args (run_each host command names log).0
    unfolding run_each
    run_each-AreSafe command [] log safe s = s
    run_each-AreSafe command (name ∷ names) log (here, safe) s =
        let s1 : AreSafe args (after log (command name)) =
          AreSafe-after log (command name) s here in
        rw (run_each-round host command name names log (host.run log (command name)) refl) (
          round-AreSafe command names (after log (command name)) (host.run log (command name)) s1
            (run_each-AreSafe command names (after log (command name)) safe s1))

    move_binary-AreSafe :
        (dir : Option PathBuf) (log : List Event)
        → AreSafe args log
        → AreSafe args (move_binary host dir log).0
    unfolding move_binary
    move_binary-AreSafe none log s = s
    move_binary-AreSafe (some dir) log s =
        AreSafe-append _ _ (AreSafe-append log _ s (tt, tt)) (tt, tt)

    module _ (library : Library) where
      build_names-AreSafe :
          (names : List Text) (log : List Event)
          → All NotXtask names
          → AreSafe args log
          → AreSafe args (build_names host library args names log).0
      unfolding build_names
      build_names-AreSafe [] log others s = s
      build_names-AreSafe (name ∷ names) log others s =
          >>?-AreSafe (run_each host (cargo_build args) (name ∷ names) log) _
            (run_each-AreSafe (cargo_build args) (name ∷ names) log
              (All-imp {Q = λ n. IsSafe args (cargo_build args n)} (name ∷ names)
                (λ n other. builds n other refl (cargo_build-Passes args n)) others)
              s)
            (λ log1 _ _ s1.
              >>?-AreSafe (move_binary host host.current_dir log1) _
                (move_binary-AreSafe host.current_dir log1 s1) (λ log2 _ _ s2. s2))

      build-AreSafe :
          (log : List Event) → AreSafe args log → AreSafe args (build host library args log).0
      unfolding build get_workspace_members
      build-AreSafe log s =
          >>?-AreSafe
            (after log cargo_metadata, or_exit (members_of library (host.run log cargo_metadata))) _
            (AreSafe-after log cargo_metadata s (asks_members refl))
            (λ log1 names e s1.
              build_names-AreSafe names log1
                (members_of-OthersFound library (host.run log cargo_metadata) names
                  (or_exit-ok _ names (ap (λ x. x.1) e)))
                s1)

      run-AreSafe :
          (log : List Event) → AreSafe args log → AreSafe args (run host library args log).0
      unfolding run
      run-AreSafe log s =
          >>?-AreSafe (build host library args log) _ (build-AreSafe log s)
            (λ log1 binary _ s1. AreSafe-after log1 (objcopy binary) s1 (makes_image binary refl))

      test-AreSafe :
          (log : List Event) → AreSafe args log → AreSafe args (test host library args log).0
      unfolding test test_on get_workspace_members
      test-AreSafe log s =
          >>?-AreSafe (after log rustc_host, tuple_of library (host.run log rustc_host)) _
            (AreSafe-after log rustc_host s (asks_host refl))
            (λ log1 host_tuple _ s1.
              >>?-AreSafe
                (
                  after log1 cargo_metadata,
                  unwrap (members_of library (host.run log1 cargo_metadata)),
                )
                _ (AreSafe-after log1 cargo_metadata s1 (asks_members refl))
                (λ log2 names e s2.
                  run_each-AreSafe (cargo_test host_tuple args) (retain_not binary_name names) log2
                    (All-imp _ (λ n p. tests host_tuple n p.0 p.1 refl)
                      (retain_not-keeps NotXtask binary_name names (
                        members_of-OthersFound library (host.run log1 cargo_metadata) names
                          (unwrap-ok _ names (ap (λ x. x.1) e)))))
                    s2))

      if-AreSafe :
          {A : Type 0} (t : Bool) (x y : List Event × Outcome Stop A)
          → AreSafe args x.0
          → AreSafe args y.0
          → AreSafe args (if t then x else y).0
      if-AreSafe true x y s s' = s
      if-AreSafe false x y s s' = s'

      -- Whatever command `main` is called with, with any arguments behind it, and whatever
      -- the commands that it runs answer: each of these asks for the metadata or for the
      -- host, makes the image, builds a package, or tests one. The package that xtask
      -- chooses for a build is not xtask, and the one for a test is neither xtask nor the
      -- bootloader; the arguments go behind its name as they are, and what else they may
      -- choose is not looked at. A build has the variable with which the build script of
      -- the bootloader lets it pass, whatever is inherited.
      pub main-AreSafe : (cmd : Text) → AreSafe args (main host library (cmd ∷ args) []).0
      unfolding main
      main-AreSafe cmd =
          if-AreSafe (str_eq cmd (codes "build")) _ _
            (>>?-AreSafe ((build host library args []).0, unwrap (build host library args []).1) _
              (build-AreSafe [] tt) (λ log _ _ s. s))
            (if-AreSafe (str_eq cmd (codes "run")) _ _ (run-AreSafe [] tt)
              (if-AreSafe (str_eq cmd (codes "test")) _ _ (test-AreSafe [] tt) tt))
