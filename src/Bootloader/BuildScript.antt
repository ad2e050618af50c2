-- ===== src/Bootloader/BuildScript.antt =====
-- bootloader/build.rs: what it tells cargo, and the test that the build was started by xtask.
use rpi5_baremetal.Base.{Bool, true, false, List, [], ◌∷◌, codes, if◌then◌else◌, ok, panicked}
use rpi5_baremetal.Process.{Text}
use rpi5_baremetal.Bootloader.SysTimer.{OrPanic}

-- What `std::env::var` gives.
pub data Var : Type 0 where
  value : Text → Var
  not_present not_unicode : Var

unfoldable pub is_ok : Var → Bool
is_ok (value t) = true
is_ok not_present = false
is_ok not_unicode = false

-- The lines for cargo.
abbrev pub directives : List Text
directives =
    codes "cargo:rerun-if-changed=build.rs"
    ∷ codes "cargo:rerun-if-changed=bootloader/aarch64.lds"
    ∷ codes "cargo:rerun-if-env-changed=XTASK_BUILD"
    ∷ codes "cargo:rustc-link-arg=-Tbootloader/aarch64.lds"
    ∷ []

-- `main`, with what the environment has for `XTASK_BUILD`.
unfoldable pub main : Var → List Text × OrPanic (Unit {0})
unfolding is_ok
main xtask_build = (directives, if is_ok xtask_build then ok tt else panicked)
