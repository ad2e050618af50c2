-- ===== src/Process.antt =====
-- The commands that xtask and the build script of dtb run, and what they ask of the file system. What
-- these answer comes from outside, and may depend on all that was done before.
use rpi5_baremetal.Base.{ℕ, Bool, false, Option, none, some, List, [], ◌∷◌, ◌++◌, ◌==◌}

abbrev pub Text : Type 0
Text = List ℕ

-- `PathBuf`, by its components.
abbrev pub PathBuf : Type 0
PathBuf = List Text

pub record Command : Type 0 where
  pub program : Text
  pub args : List Text
  pub env : List (Text × Text)

-- What is done, in its order.
pub data Event : Type 0 where
  ran : Command → Event
  created_dir : PathBuf → Event
  renamed : (from to : PathBuf) → Event

-- How a command ends: with no code if a signal ends it.
pub data Finish : Type 0 where
  not_spawned not_waited : Finish
  finished : (code : Option ℕ) (stdout : List ℕ) → Finish

pub record Host : Type 0 where
  pub run : List Event → Command → Finish
  pub create_dir : List Event → PathBuf → Bool
  pub rename : List Event → PathBuf → Bool
  pub is_file : List Event → PathBuf → Bool
  pub current_dir : Option PathBuf

-- `status.success()`
abbrev pub success : Option ℕ → Bool
success none = false
success (some c) = c == 0

-- The log behind a command.
abbrev pub after : List Event → Command → List Event
after log c = log ++ ran c ∷ []
