-- ===== src/Dtb/Build/Checks.antt =====
-- What dtb/build.rs has checked when it is done, and what it has not.
use rpi5_baremetal.Base.{
  ℕ, zero, suc, ◌≡◌, ◌↔◌, ◌⊎◌, inl, inr, refl, sym, ap, ◌∙◌, Bool, true, false, Option, none, some,
  List, [], ◌∷◌, ◌++◌, codes, if◌then◌else◌, Outcome, ok, panicked, ◌>>?◌, >>?-eq-ok, arith,
}
use mathlib.Core.Path.{subst}
use rpi5_baremetal.Process.{
  Text, Event, created_dir, Finish, not_spawned, not_waited, finished, Host, success, after,
}
use rpi5_baremetal.Dtb.Build.{
  version, git_clone, dtc, dts_path, dtb_path, is_err, succeeded, command_installed, fetch, compile,
  prepare, main,
}

-- The command ended, with the code 0.
abbrev pub Succeeded : Finish → Type 0
Succeeded f = (stdout : List ℕ) × (f ≡ finished (some 0) stdout)

suc_fails : (c : ℕ) → success (some (suc c)) ≡ false
suc_fails c = ground arith

succeeded-Succeeded : (f : Finish) → succeeded f ≡ true → Succeeded f
unfolding succeeded
succeeded-Succeeded not_spawned h = cc
succeeded-Succeeded not_waited h = cc
succeeded-Succeeded (finished none stdout) h = cc
succeeded-Succeeded (finished (some zero) stdout) h = (stdout, refl)
succeeded-Succeeded (finished (some (suc c)) stdout) h = cc (sym h ∙ suc_fails c)

-- The command could be started and waited for.
abbrev pub Ran : Finish → Type 0
Ran f = (code : Option ℕ) × (stdout : List ℕ) × (f ≡ finished code stdout)

is_err_iff : (f : Finish) → (is_err f ≡ false) ↔ Ran f
unfolding is_err
is_err_iff not_spawned = (λ h. cc h, λ (code, stdout, e). cc e)
is_err_iff not_waited = (λ h. cc h, λ (code, stdout, e). cc e)
is_err_iff (finished code stdout) = ((λ h. (code, stdout, refl)), (λ e. refl))

abbrev nothing_wrong : Outcome ⊥ (Unit {0})
nothing_wrong = ok tt

either_iff :
    (b c : Bool) (x : List Event × Outcome ⊥ (Unit {0})) (log : List Event) {P : Type 0}
    → (x.1 ≡ ok tt) ↔ P
    → ((if b then x else if c then (log, ok tt) else x).1 ≡ ok tt)
      ↔ (((b ≡ false) × (c ≡ true)) ⊎ P)
either_iff true c x log h =
    (λ e. inr (h.0 e), λ found. elim found [ inl (e, _) ↦ absurd (cc e) | inr p ↦ h.1 p ])
either_iff false true x log h = (λ e. inl (refl, refl), λ found. refl)
either_iff false false x log h =
    (λ e. inr (h.0 e), λ found. elim found [ inl (_, e) ↦ absurd (cc e) | inr p ↦ h.1 p ])

steps_iff :
    (b c : Bool) (log : List Event) (k : List Event → Unit {0} → List Event × Outcome ⊥ (Unit {0}))
    → (((log, if b then (if c then ok tt else panicked) else nothing_wrong) >>? k).1 ≡ ok tt)
      ↔ (((b ≡ false) ⊎ (c ≡ true)) × ((k log tt).1 ≡ ok tt))
steps_iff false c log k = (λ e. (inl refl, e), λ h. h.1)
steps_iff true true log k = (λ e. (inr refl, e), λ h. h.1)
steps_iff true false log k =
    (λ e. cc e, λ (found, _). elim found [ inl e ↦ absurd (cc e) | inr e ↦ absurd (cc e) ])

unless_iff : (d : Bool) → ((if d then panicked else nothing_wrong) ≡ ok tt) ↔ (d ≡ false)
unless_iff false = (λ e. refl, λ e. refl)
unless_iff true = (λ e. cc e, λ e. cc e)

-- Where the blob is to go.
abbrev pub made : List Event → List Event
made log = log ++ created_dir (codes "test" ∷ []) ∷ []

if-ok : (b : Bool) → (if b then ok tt else panicked) ≡ nothing_wrong → b ≡ true
if-ok true h = refl
if-ok false h = cc

module _ (host : Host) where
  command_installed-eq-ok :
      (name : Text) (log log' : List Event)
      → command_installed host name log ≡ (log', ok tt)
      → (log' ≡ after log (version name)) × Succeeded (host.run log (version name))
  unfolding command_installed
  command_installed-eq-ok name log log' h = (
    sym (ap (λ x. x.0) h),
    succeeded-Succeeded (host.run log (version name)) (if-ok _ (ap (λ x. x.1) h)),
  )

  -- If the script comes to its end, `git` and then `dtc` have told their versions, both with the code 0,
  -- before anything else was done.
  pub main-installed :
      (log log' : List Event)
      → main host log ≡ (log', ok tt)
      → Succeeded (host.run log (version (codes "git")))
        × Succeeded (host.run (after log (version (codes "git"))) (version (codes "dtc")))
  unfolding main
  main-installed log log' h =
      let (log1, x, git, rest) = >>?-eq-ok (command_installed host (codes "git") log) _ h in
      let (log2, y, dtc', last) = >>?-eq-ok (command_installed host (codes "dtc") log1) _ rest in
      let (same, good) = command_installed-eq-ok (codes "git") log log1 git in
      let (same', good') = command_installed-eq-ok (codes "dtc") log1 log2 dtc' in
      (good, subst (λ l. Succeeded (host.run l (version (codes "dtc")))) same good')

  -- The directory could not be made, and the blob is in it.
  abbrev pub IsThere : List Event → Type 0
  IsThere log =
      (host.create_dir log (codes "test" ∷ []) ≡ false) × (host.is_file (made log) dtb_path ≡ true)

  rest_iff :
      (log : List Event)
      → ((fetch host log >>? λ log2 _. compile host log2).1 ≡ ok tt) ↔ (
          (Ran (host.run log git_clone) ⊎ (host.is_file (after log git_clone) dts_path ≡ true))
          × Ran (host.run (after log git_clone) dtc))
  unfolding fetch compile
  rest_iff log =
      let fetched = is_err_iff (host.run log git_clone) in
      let compiled = is_err_iff (host.run (after log git_clone) dtc) in
      let unless = unless_iff (is_err (host.run (after log git_clone) dtc)) in
      let steps =
        steps_iff (is_err (host.run log git_clone)) (host.is_file (after log git_clone) dts_path)
          (after log git_clone) (λ log2 _. compile host log2) in
      (
        λ e.
            let (found, compiled') = steps.0 e in
            (
              elim found [ inl ran ↦ inl (fetched.0 ran) | inr there ↦ inr there ],
              compiled.0 (unless.0 compiled'),
            ),
        λ (found, ran_dtc). steps.1 (
          elim found [ inl ran ↦ inl (fetched.1 ran) | inr there ↦ inr there ],
          unless.1 (compiled.1 ran_dtc),
        ),
      )

  -- The part of the script behind the search for the tools ends without a panic exactly when it cannot
  -- make the directory and finds the blob in it; or when `dtc` could be started and waited for, and
  -- `git` could, or the source is there. The codes that the two end with make no difference.
  pub prepare_iff :
      (log : List Event)
      → ((prepare host log).1 ≡ ok tt) ↔ (
          IsThere log
          ⊎ ((Ran (host.run (made log) git_clone)
                ⊎ (host.is_file (after (made log) git_clone) dts_path ≡ true))
              × Ran (host.run (after (made log) git_clone) dtc)))
  unfolding prepare fetch compile
  prepare_iff log =
      either_iff (host.create_dir log (codes "test" ∷ [])) (host.is_file (made log) dtb_path)
        (fetch host (made log) >>? λ log2 _. compile host log2) (made log) (rest_iff (made log))
