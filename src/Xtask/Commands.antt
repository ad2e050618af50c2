-- ===== src/Xtask/Commands.antt =====
-- The commands of xtask/src/main.rs, and the places of the binary.
use rpi5_baremetal.Base.{List, [], ◌∷◌, ◌++◌, codes}
use rpi5_baremetal.Process.{Text, PathBuf, Command}

abbrev pub cargo_metadata : Command
cargo_metadata = record {
  program = codes "cargo";
  args = codes "metadata" ∷ codes "--no-deps" ∷ codes "--format-version" ∷ codes "1" ∷ [];
  env = [];
}

abbrev pub cargo_build : List Text → Text → Command
cargo_build args name = record {
  program = codes "cargo";
  args =
      codes "build"
      ∷ codes "-p"
      ∷ name
      ∷ codes "-Z"
      ∷ codes "build-std=core,compiler_builtins"
      ∷ codes "--target"
      ∷ codes "aarch64-unknown-none"
      ∷ args;
  env = (codes "XTASK_BUILD", codes "1") ∷ [];
}

abbrev pub cargo_test : Text → List Text → Text → Command
cargo_test host_tuple args name = record {
  program = codes "cargo";
  args = codes "test" ∷ codes "--target" ∷ host_tuple ∷ codes "-p" ∷ name ∷ args;
  env = [];
}

abbrev pub objcopy : Text → Command
objcopy binary = record {
  program = codes "aarch64-none-elf-objcopy";
  args = codes "-O" ∷ codes "binary" ∷ binary ∷ codes "build/kernel8.img" ∷ [];
  env = [];
}

abbrev pub rustc_host : Command
rustc_host = record {
  program = codes "rustc";
  args = codes "--print" ∷ codes "host-tuple" ∷ [];
  env = [];
}

abbrev pub binary_name : Text
binary_name = codes "rpi5_baremetal_hello"

abbrev pub built : PathBuf → PathBuf
built dir = dir ++ codes "target" ∷ codes "aarch64-unknown-none" ∷ codes "debug" ∷ binary_name ∷ []

abbrev pub moved : PathBuf → PathBuf
moved dir = dir ++ codes "build" ∷ binary_name ∷ []
