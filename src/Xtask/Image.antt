-- ===== src/Xtask/Image.antt =====
-- What `build` and `run` of xtask/src/main.rs have done when they return.
use rpi5_baremetal.Base.{
  ℕ, ◌≡◌, ◌≢◌, refl, sym, ap, ◌∙◌, true, false, Bool, Option, none, some, List, [], ◌∷◌, ◌++◌,
  codes, Outcome, ok, err, panicked, out_of_fuel, >>?-eq-ok,
}
use mathlib.Core.Path.{subst}
use rpi5_baremetal.Process.{Text, PathBuf, Event, created_dir, renamed, finished, Host, after}
use rpi5_baremetal.Xtask.{
  Stop, Library, cargo_metadata, cargo_build, objcopy, built, moved, moved_to, waited, run_each,
  move_binary, or_exit, members_of, get_workspace_members, build_names, build, run,
}
use rpi5_baremetal.Xtask.Stages.{Succeed, all_after, run_each-eq-ok}

or_exit-eq-ok : {A : Type 0} (x : Outcome Stop A) {a : A} → or_exit x ≡ ok a → x ≡ ok a
unfolding or_exit
or_exit-eq-ok (ok b) h = h
or_exit-eq-ok (err e) h = cc
or_exit-eq-ok panicked h = cc
or_exit-eq-ok out_of_fuel h = cc

module _ (host : Host) where
  -- The binary was moved, from a place in the current directory: the last events are the making of the
  -- directory for it, which may have failed, and a rename that succeeded.
  pub record Moved (log log' : List Event) (to : PathBuf) : Type 0 where
    pub dir : PathBuf
    pub current : host.current_dir ≡ some dir
    pub log_end :
        log'
        ≡ log
          ++ created_dir (dir ++ codes "build" ∷ []) ∷ []
          ++ renamed (built dir) (moved dir) ∷ []
    pub succeeded :
        host.rename (log ++ created_dir (dir ++ codes "build" ∷ []) ∷ []) (built dir) ≡ true
    pub target : to ≡ moved dir

  moved_to-eq-ok :
      (dir : PathBuf) (b : Bool) {to : PathBuf}
      → moved_to dir b ≡ ok to
      → (b ≡ true) × (to ≡ moved dir)
  unfolding moved_to
  moved_to-eq-ok dir true h = (refl, cc)
  moved_to-eq-ok dir false h = cc

  move_binary-Moved :
      (current : Option PathBuf) (log log' : List Event) (to : PathBuf)
      → host.current_dir ≡ current
      → move_binary host current log ≡ (log', ok to)
      → Moved log log' to
  unfolding move_binary
  move_binary-Moved none log log' to e h = cc
  move_binary-Moved (some dir) log log' to e h = record {
    dir = dir;
    current = e;
    log_end = sym (ap (λ x. x.0) h);
    succeeded = (moved_to-eq-ok dir _ (ap (λ x. x.1) h)).0;
    target = (moved_to-eq-ok dir _ (ap (λ x. x.1) h)).1;
  }

  module _ (library : Library) where
    -- A run of `build` that returned: `cargo metadata` gave members, at least one; the builds of them
    -- all ended with the code 0, in their order; then the rename of the binary succeeded.
    pub record Built (args : List Text) (log log' : List Event) (binary : Text) : Type 0 where
      pub names : List Text
      pub members : members_of library (host.run log cargo_metadata) ≡ ok names
      pub nonempty : names ≢ []
      pub succeed : Succeed host (cargo_build args) (after log cargo_metadata) names
      pub to : PathBuf
      pub end : Moved (all_after host (cargo_build args) (after log cargo_metadata) names) log' to
      pub path : binary ≡ library.to_string_lossy to

    build_names-Built :
        (args names : List Text) (log log' : List Event) (binary : Text)
        → members_of library (host.run log cargo_metadata) ≡ ok names
        → build_names host library args names (after log cargo_metadata) ≡ (log', ok binary)
        → Built args log log' binary
    unfolding build_names
    build_names-Built args [] log log' binary e h = cc
    build_names-Built args (name ∷ names) log log' binary e h =
        let (log1, x, each, rest) =
          >>?-eq-ok (run_each host (cargo_build args) (name ∷ names) (after log cargo_metadata)) _
            h in
        let (log2, to, move, last) = >>?-eq-ok (move_binary host host.current_dir log1) _ rest in
        let (succeed, at) =
          run_each-eq-ok host (cargo_build args) (name ∷ names) (after log cargo_metadata) log1
            each in
        record {
          names = name ∷ names;
          members = e;
          nonempty = λ z. cc;
          succeed = succeed;
          to = to;
          end =
              subst (λ l. Moved l log' to) at
                (subst (λ l. Moved log1 l to) (ap (λ x. x.0) last)
                  (move_binary-Moved host.current_dir log1 log2 to refl move));
          path = cc (ap (λ x. x.1) last);
        }

    -- If `build` returns, `cargo metadata` gave members, at least one, the builds of all of them ended
    -- with the code 0, in their order, and then the rename of the binary to its place succeeded; nothing
    -- else was run.
    pub build-Built :
        (args : List Text) (log log' : List Event) (binary : Text)
        → build host library args log ≡ (log', ok binary)
        → Built args log log' binary
    unfolding build get_workspace_members
    build-Built args log log' binary h =
        let (log1, names, found, rest) =
          >>?-eq-ok
            (after log cargo_metadata, or_exit (members_of library (host.run log cargo_metadata))) _
            h in
        build_names-Built args names log log' binary
          (or_exit-eq-ok (members_of library (host.run log cargo_metadata)) (ap (λ x. x.1) found))
          (ap (λ l. build_names host library args names l) (ap (λ x. x.0) found) ∙ rest)

    -- If `build` gives a path and `objcopy` comes to an end on it, `run` returns without an error,
    -- whatever code `objcopy` ended with.
    pub run-ignores :
        (args : List Text) (log log1 : List Event) (binary : Text) (code : Option ℕ)
        (stdout : List ℕ)
        → build host library args log ≡ (log1, ok binary)
        → host.run log1 (objcopy binary) ≡ finished code stdout
        → run host library args log ≡ (after log1 (objcopy binary), ok tt)
    unfolding run waited
    run-ignores args log log1 binary code stdout e f = rw (e, f) refl
