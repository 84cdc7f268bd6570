-- ===== src/Main.antt =====
-- cmd/omny/main.go: what a command line starts, after the parse of its flags. The version that the
-- linker sets and the toolchain's stamp are arguments.
pub mod Panicking
use omny.Base.{
  Bool, true, false, not, List, [], ◌∷◌, Option, none, some, Bytes, bytes, bytes_eq, ℕ,
  if◌then◌else◌,
}
use omny.Loader.{is_empty}
use omny.Edit.Result.{Result, done, failed, panics}
use omny.Edit.Commands.{Flags, Action, cli}

-- The loop over the settings of the build.
unfoldable pub revision : List (Bytes × Bytes) → Bytes
revision [] = bytes "devel"
revision ((k, v) ∷ settings) = if bytes_eq k (bytes "vcs.revision") then v else revision settings

unfoldable pub of_info : Option (List (Bytes × Bytes)) → Bytes
of_info none = bytes "unknown"
of_info (some settings) = revision settings

-- `stamp`.
unfoldable pub stamp : Bytes → Option (List (Bytes × Bytes)) → Bytes
stamp version info = if is_empty version then of_info info else version

-- The three things that `main` does: it prints the version, it runs a command of the editor, or it
-- runs the gateway.
pub data Job : Type 0 where
  prints : Bytes → Job
  commands : Result Action → Job
  serves : Job

module _ (quote : Bytes → Bytes) (blank : Bytes → Bool) (trim : Bytes → Bytes)
    (input : Option Bytes) (fp : Bytes → Bytes)
    (flags : Flags → List Bytes → Option (Flags × List Bytes)) where
  -- `main`, of the flag `version` and the arguments that are left.
  unfoldable pub main : Bytes → Option (List (Bytes × Bytes)) → Bool → List Bytes → Job
  main version info show args =
      if show
      then prints (stamp version info)
      else if is_empty args
      then serves
      else commands (cli quote blank trim input fp flags args)
