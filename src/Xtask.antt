-- ===== src/Xtask.antt =====
-- xtask/src/main.rs: the commands that are run to build, to make the image and to test. The messages
-- that are printed are left out.
mod Commands
pub mod Codes
pub mod Guard
pub mod Image
pub mod Members
pub mod Stages
mod Tests
use rpi5_baremetal.Base.{
  ℕ, Bool, true, false, Option, none, some, List, [], ◌∷◌, ◌++◌, codes, str_eq, if◌then◌else◌,
  Outcome, ok, err, panicked, out_of_fuel, ◌>>?◌,
}
use rpi5_baremetal.Process.{
  Text, PathBuf, Command, Event, created_dir, renamed, Finish, not_spawned, not_waited, finished,
  Host, success, after,
}
unfoldable pub use Commands.*

pub record Package : Type 0 where
  pub id : Text
  pub name : Text

pub record CargoMetadata : Type 0 where
  pub packages : List Package
  pub workspace_members : List Text

-- `packages.iter().find(|p| p.id == member_id)`
unfoldable pub find_package : Text → List Package → Option Package
find_package id [] = none
find_package id (p ∷ ps) = elim (str_eq p.id id) [ true ↦ some p | false ↦ find_package id ps ]

-- The loop over the members.
unfoldable pub member_names : List Package → List Text → List Text
unfolding find_package
member_names packages [] = []
member_names packages (id ∷ ids) = elim (find_package id packages) [
  | none ↦ member_names packages ids
  | some pkg ↦ pkg.name ∷ member_names packages ids
]

-- `retain(|name| name != …)`
unfoldable pub retain_not : Text → List Text → List Text
retain_not out [] = []
retain_not out (name ∷ names) = elim (str_eq name out) [
  | true ↦ retain_not out names
  | false ↦ name ∷ retain_not out names
]

-- `process::exit`, or the error of a `Result`.
pub data Stop : Type 0 where
  exit : (code : ℕ) → Stop
  error : Stop

abbrev pub Action : Type 0 → Type 0
Action A = List Event → List Event × Outcome Stop A

-- `unwrap` and `expect`
unfoldable pub unwrap : {A : Type 0} → Outcome Stop A → Outcome Stop A
unwrap (ok a) = ok a
unwrap (err (exit code)) = err (exit code)
unwrap (err error) = panicked
unwrap panicked = panicked
unwrap out_of_fuel = out_of_fuel

-- `match get_workspace_members() { … }` of `build`
unfoldable pub or_exit : {A : Type 0} → Outcome Stop A → Outcome Stop A
or_exit (ok a) = ok a
or_exit (err e) = err (exit 1)
or_exit panicked = panicked
or_exit out_of_fuel = out_of_fuel

-- `status.code().unwrap_or(1)`
abbrev pub code_or_1 : Option ℕ → ℕ
code_or_1 none = 1
code_or_1 (some c) = c

-- `spawn().unwrap().wait().unwrap()`, whose status is not looked at.
unfoldable pub waited : Finish → Outcome Stop (Unit {0})
waited not_spawned = panicked
waited not_waited = panicked
waited (finished code stdout) = ok tt

-- `expect` on the result of `rename`.
unfoldable pub moved_to : PathBuf → Bool → Outcome Stop PathBuf
moved_to dir true = ok (moved dir)
moved_to dir false = panicked

module _ (host : Host) where
  -- The loop of `build`, and that of `test`, with the command for a package.
  unfoldable pub run_each : (Text → Command) → List Text → Action (Unit {0})
  run_each command [] log = (log, ok tt)
  run_each command (name ∷ names) log = elim (host.run log (command name)) [
    | not_spawned ↦ (after log (command name), panicked)
    | not_waited ↦ (after log (command name), panicked)
    | finished code stdout ↦ elim (success code) [
      | true ↦ run_each command names (after log (command name))
      | false ↦ (after log (command name), err (exit (code_or_1 code)))
    ]
  ]

  -- The end of `build`, in the current directory: the binary is moved; whether the directory for it
  -- could be made is ignored.
  unfoldable pub move_binary : Option PathBuf → Action PathBuf
  unfolding moved_to
  move_binary none log = (log, panicked)
  move_binary (some dir) log =
      let log1 = log ++ created_dir (dir ++ codes "build" ∷ []) ∷ [] in
      (log1 ++ renamed (built dir) (moved dir) ∷ [], moved_to dir (host.rename log1 (built dir)))

-- From outside: `serde_json`, `to_string_lossy`, `String::from_utf8` and `trim`.
pub record Library : Type 0 where
  pub from_slice : List ℕ → Option CargoMetadata
  pub to_string_lossy : PathBuf → Text
  pub from_utf8 : List ℕ → Option Text
  pub trim : Text → Text

module _ (library : Library) where
  unfoldable pub names_of : Option CargoMetadata → Outcome Stop (List Text)
  unfolding member_names retain_not
  names_of none = err error
  names_of (some metadata) =
      ok (retain_not (codes "xtask") (member_names metadata.packages metadata.workspace_members))

  -- What `get_workspace_members` makes of the end of `cargo metadata`.
  unfoldable pub members_of : Finish → Outcome Stop (List Text)
  unfolding names_of
  members_of not_spawned = err error
  members_of not_waited = err error
  members_of (finished code stdout) =
      if success code then names_of (library.from_slice stdout) else err error

  -- The end of `rustc`, with the text that it printed.
  unfoldable pub tuple_of : Finish → Outcome Stop Text
  tuple_of not_spawned = panicked
  tuple_of not_waited = panicked
  tuple_of (finished code stdout) = elim (library.from_utf8 stdout) [
    | none ↦ panicked
    | some out ↦ ok (library.trim out)
  ]

module _ (host : Host) (library : Library) where
  unfoldable pub get_workspace_members : Action (List Text)
  unfolding members_of
  get_workspace_members log =
      (after log cargo_metadata, members_of library (host.run log cargo_metadata))

  -- `build`, once the members are known.
  unfoldable pub build_names : List Text → List Text → Action Text
  unfolding run_each move_binary
  build_names args [] log = (log, err error)
  build_names args (name ∷ names) log =
      run_each host (cargo_build args) (name ∷ names) log >>? λ log1 _.
      move_binary host host.current_dir log1 >>? λ log2 to. (log2, ok (library.to_string_lossy to))

  unfoldable pub build : List Text → Action Text
  unfolding get_workspace_members or_exit build_names
  build args log =
      (let (log1, found) = get_workspace_members log in (log1, or_exit found)) >>? λ log1 names.
      build_names args names log1

  unfoldable pub run : List Text → Action (Unit {0})
  unfolding build waited
  run args log = build args log >>? λ log1 binary.
      (after log1 (objcopy binary), waited (host.run log1 (objcopy binary)))

  -- `test`, once the host is known.
  unfoldable pub test_on : Text → List Text → Action (Unit {0})
  unfolding get_workspace_members unwrap retain_not run_each
  test_on host_tuple args log =
      (let (log1, found) = get_workspace_members log in (log1, unwrap found)) >>? λ log1 names.
      run_each host (cargo_test host_tuple args) (retain_not binary_name names) log1

  unfoldable pub test : List Text → Action (Unit {0})
  unfolding test_on tuple_of
  test args log =
      (after log rustc_host, tuple_of library (host.run log rustc_host)) >>? λ log1 host_tuple.
      test_on host_tuple args log1

  -- `main`, with the arguments behind the name of the program.
  unfoldable pub main : List Text → Action (Unit {0})
  unfolding build run test unwrap
  main [] log = (log, err (exit 1))
  main (cmd ∷ args) log =
      if str_eq cmd (codes "build")
      then (let (log1, r) = build args log in (log1, unwrap r) >>? λ log2 _. (log2, ok tt))
      else if str_eq cmd (codes "run")
      then (let (log1, r) = run args log in (log1, unwrap r))
      else if str_eq cmd (codes "test")
      then test args log
      else (log, err (exit 1))
