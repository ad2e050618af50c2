-- ===== src/Xtask/Tests.antt =====
-- xtask/src/main.rs in a small workspace, with commands that end as they should, or one that does not.
use rpi5_baremetal.Base.{
  ◌≡◌, refl, some, List, [], ◌∷◌, ◌++◌, map, codes, str_eq, true, false, if◌then◌else◌, ok,
}
use rpi5_baremetal.Process.{Text, Event, finished, Host}
use rpi5_baremetal.Xtask.{
  Package, Library, moved_to, find_package, member_names, retain_not, names_of, members_of,
  run_each, move_binary, or_exit, get_workspace_members, build_names, build, main,
}
use rpi5_baremetal.Xtask.Members.{id_of}
use rpi5_baremetal.Xtask.Image.{Built, build-Built}
use rpi5_baremetal.Xtask.Guard.{AreSafe}
use rpi5_baremetal.Xtask.Guard.Safe.{main-AreSafe}

abbrev member : Text → Package
member name = record { id = codes "path#" ++ name; name = name }

abbrev packages : List Package
packages = member (codes "dtb") ∷ member (codes "xtask") ∷ member (codes "mutex") ∷ []

-- All commands end with the code 0, but for `objcopy`.
abbrev host : Host
host = record {
  run = λ log c.
      if str_eq c.program (codes "aarch64-none-elf-objcopy")
      then finished (some 1) []
      else finished (some 0) [];
  create_dir = λ log p. true;
  rename = λ log p. true;
  is_file = λ log p. false;
  current_dir = some (codes "home" ∷ []);
}

abbrev library : Library
library = record {
  from_slice =
      λ bytes. some (record { packages = packages; workspace_members = map id_of packages });
  to_string_lossy = λ p. codes "build/rpi5_baremetal_hello";
  from_utf8 = λ bytes. some bytes;
  trim = λ t. t;
}

abbrev names : List Text
names = codes "dtb" ∷ codes "mutex" ∷ []

abbrev built_log : List Event
built_log = ((build host library [] [])).0

builds : build host library [] [] ≡ (built_log, ok (codes "build/rpi5_baremetal_hello"))
unfolding build get_workspace_members members_of names_of or_exit build_names run_each move_binary
    moved_to member_names retain_not find_package str_eq
builds = refl

build-Built_example : Built host library [] [] built_log (codes "build/rpi5_baremetal_hello")
build-Built_example =
    build-Built host library [] [] built_log (codes "build/rpi5_baremetal_hello") builds

main-AreSafe_example :
    AreSafe
      (codes "--release" ∷ [])
      (main host library (codes "test" ∷ codes "--release" ∷ []) []).0
main-AreSafe_example = main-AreSafe (codes "--release" ∷ []) host library (codes "test")
