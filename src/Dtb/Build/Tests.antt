-- ===== src/Dtb/Build/Tests.antt =====
-- dtb/build.rs with commands that are found, and then fail.
use rpi5_baremetal.Base.{◌≡◌, ◌↔◌, ◌⊎◌, true, false, some, [], ok}
use rpi5_baremetal.Process.{finished, Host, after}
use rpi5_baremetal.Dtb.Build.{prepare, git_clone, dtc, dts_path}
use rpi5_baremetal.Dtb.Build.Checks.{prepare_iff, IsThere, Ran, made}

abbrev host : Host
host = record {
  run = λ log c. finished (some 128) [];
  create_dir = λ log p. true;
  rename = λ log p. true;
  is_file = λ log p. false;
  current_dir = some [];
}

prepare_iff_example : ((prepare host []).1 ≡ ok tt) ↔ (
    IsThere host []
    ⊎ ((Ran (host.run (made []) git_clone)
          ⊎ (host.is_file (after (made []) git_clone) dts_path ≡ true))
        × Ran (host.run (after (made []) git_clone) dtc)))
prepare_iff_example = prepare_iff host []
