-- ===== src/Dtb/Build.antt =====
-- dtb/build.rs: how the blob for the tests is fetched and compiled. The messages are left out.
pub mod Checks
mod Tests
use rpi5_baremetal.Base.{
  ℕ, Bool, true, false, Option, none, some, List, [], ◌∷◌, ◌++◌, codes, if◌then◌else◌, Outcome, ok,
  panicked, out_of_fuel, ◌>>?◌,
}
use rpi5_baremetal.Process.{
  Text, PathBuf, Command, Event, created_dir, Finish, not_spawned, not_waited, finished, Host,
  success, after,
}

abbrev pub Action : Type 0 → Type 0
Action A = List Event → List Event × Outcome ⊥ A

abbrev pub version : Text → Command
version command_name = record { program = command_name; args = codes "--version" ∷ []; env = [] }

abbrev pub git_clone : Command
git_clone = record {
  program = codes "git";
  args =
      codes "clone"
      ∷ codes "https://gist.github.com/072176edd54cd207c1d800c25d384cd2.git"
      ∷ codes "test"
      ∷ [];
  env = [];
}

abbrev pub dtc : Command
dtc = record {
  program = codes "dtc";
  args =
      codes "-I"
      ∷ codes "dts"
      ∷ codes "-O"
      ∷ codes "dtb"
      ∷ codes "-o"
      ∷ codes "test/test.dtb"
      ∷ codes "test/test.dts"
      ∷ [];
  env = [];
}

abbrev pub dts_path : PathBuf
dts_path = codes "test" ∷ codes "test.dts" ∷ []

abbrev pub dtb_path : PathBuf
dtb_path = codes "test" ∷ codes "test.dtb" ∷ []

-- `status().is_err()`: the command could not be run at all.
unfoldable pub is_err : Finish → Bool
is_err not_spawned = true
is_err not_waited = true
is_err (finished code stdout) = false

-- `status().map_or(false, |status| status.success())`
unfoldable pub succeeded : Finish → Bool
succeeded not_spawned = false
succeeded not_waited = false
succeeded (finished code stdout) = success code

module _ (host : Host) where
  -- `if !command_installed(…) { panic!(…) }`
  unfoldable pub command_installed : Text → Action (Unit {0})
  unfolding succeeded
  command_installed name log = (
    after log (version name),
    if succeeded (host.run log (version name)) then ok tt else panicked,
  )

  unfoldable pub fetch : Action (Unit {0})
  unfolding is_err
  fetch log = (
    after log git_clone,
    if is_err (host.run log git_clone)
        then (if host.is_file (after log git_clone) dts_path then ok tt else panicked)
        else ok tt,
  )

  unfoldable pub compile : Action (Unit {0})
  unfolding is_err
  compile log = (after log dtc, if is_err (host.run log dtc) then panicked else ok tt)

  -- The rest of `main`, once the tools are there: nothing is done if the blob is there already.
  unfoldable pub prepare : Action (Unit {0})
  unfolding fetch compile
  prepare log =
      let log1 = log ++ created_dir (codes "test" ∷ []) ∷ [] in
      if host.create_dir log (codes "test" ∷ [])
      then (fetch log1 >>? λ log2 _. compile log2)
      else if host.is_file log1 dtb_path
      then (log1, ok tt)
      else (fetch log1 >>? λ log2 _. compile log2)

  unfoldable pub main : Action (Unit {0})
  unfolding command_installed prepare
  main log = command_installed (codes "git") log >>? λ log1 _.
      command_installed (codes "dtc") log1 >>? λ log2 _. prepare log2
