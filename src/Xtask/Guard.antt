-- ===== src/Xtask/Guard.antt =====
-- The commands that xtask/src/main.rs runs, and the test in bootloader/build.rs on who has started the
-- build.
pub mod Names
pub mod Safe
use rpi5_baremetal.Base.{
  ◌≡◌, ◌≢◌, refl, sym, ap, ◌∙◌, inl, inr, Bool, true, false, Bool-cases, Option, none, some, List,
  [], ◌∷◌, ◌++◌, All, codes, str_eq, str_eq_refl, if◌then◌else◌, Outcome, ok, err, panicked,
  out_of_fuel, ◌>>?◌,
}
use rpi5_baremetal.Process.{
  Text, Command, Event, ran, created_dir, renamed, Finish, not_spawned, not_waited, finished, Host,
  success, after,
}
use rpi5_baremetal.Xtask.{
  Stop, Library, cargo_metadata, cargo_build, cargo_test, objcopy, rustc_host, binary_name,
  retain_not, run_each, move_binary, names_of, members_of, tuple_of, get_workspace_members,
  build_names, build, run, test_on, test, main, or_exit, unwrap, waited, member_names, moved_to,
}
use rpi5_baremetal.Bootloader.BuildScript.{Var, value}
use rpi5_baremetal.Bootloader.BuildScript

-- What a build script finds in the environment, behind a command that was run in an environment with
-- what is inherited.
unfoldable pub seen : Text → List (Text × Text) → Var → Var
seen key [] inherited = inherited
seen key ((k, v) ∷ env) inherited = if str_eq k key then value v else seen key env inherited

-- The build script of the bootloader lets the command build it, whatever is inherited.
abbrev pub Passes : Command → Type 0
Passes c =
    (inherited : Var) → (BuildScript.main (seen (codes "XTASK_BUILD") c.env inherited)).1 ≡ ok tt

-- What a command of xtask is: a question to the tools, the making of the image, a build that the build
-- script of the bootloader lets pass, or a test. A build and a test are for the package of a name, with
-- the arguments of xtask behind it, whatever these say.
pub data IsSafe (args : List Text) (c : Command) : Type 0 where
  asks_members : c ≡ cargo_metadata → IsSafe args c
  asks_host : c ≡ rustc_host → IsSafe args c
  makes_image : (binary : Text) → c ≡ objcopy binary → IsSafe args c
  builds :
      (name : Text) → name ≢ codes "xtask" → c ≡ cargo_build args name → Passes c → IsSafe args c
  tests :
      (host_tuple name : Text)
      → name ≢ codes "xtask"
      → name ≢ binary_name
      → c ≡ cargo_test host_tuple args name
      → IsSafe args c

abbrev pub IsSafeEvent : List Text → Event → Type 0
IsSafeEvent args (ran c) = IsSafe args c
IsSafeEvent args (created_dir dir) = Unit
IsSafeEvent args (renamed from to) = Unit

-- Each command of the log is safe.
abbrev pub AreSafe : List Text → List Event → Type 0
AreSafe args log = All (IsSafeEvent args) log
