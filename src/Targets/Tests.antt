-- ===== src/Targets/Tests.antt =====
-- Concrete runs of the theorems on src/targetManager/targetConfig.ts.
use vscode_cann_debugger.Base.{
  ℕ, Bool, true, none, some, [], ◌∷◌, Text, codes, is_space, arith, ◌≢◌, ◌≡◌, refl,
}
use vscode_cann_debugger.Registers.{lower_case}
use vscode_cann_debugger.Launch.Options.{Host}
use vscode_cann_debugger.Launch.Commands.Errors.{error_of}
use vscode_cann_debugger.Launch.Shell.{join}
use vscode_cann_debugger.Launch.Spawn.{build_debugger_spawn}
use vscode_cann_debugger.PathMapper.SameFile.{basename}
use vscode_cann_debugger.Configuration.{should_translate_paths, spawn_options}
use vscode_cann_debugger.Targets.Validation.{validate_target}
use vscode_cann_debugger.Targets.{
  secret_key, AscendTarget, hardware, default_target, CredentialIdentity, value_or,
  build_launch_configuration, launch_args, replace_all, remote_program_path,
}
use vscode_cann_debugger.Targets.Launches.{build_launch_configuration-spawns}
use vscode_cann_debugger.Targets.Secrets.{secret_key-same}
use vscode_cann_debugger.Targets.Arguments.{launch_args-join}

abbrev no_file : Text → Bool
no_file t = true

abbrev board : AscendTarget
board = record default_target { mode = hardware; host = codes "10.0.0.5" }

abbrev machine : Host
machine = record { win32 = true; process_env = [] }

board-valid : validate_target board ≡ []
unfolding validate_target is_space
board-valid = refl

build_launch_configuration-spawns_example :
    (let a = (build_launch_configuration basename board (some (codes "/w"))).arguments in
      (should_translate_paths a ≡ true)
      × (error_of (build_debugger_spawn machine (spawn_options lower_case no_file a)) ≡ none))
build_launch_configuration-spawns_example =
    build_launch_configuration-spawns basename lower_case no_file machine board (some (codes "/w"))
      board-valid

abbrev first_account : CredentialIdentity
first_account = record { host = some (codes "box"); port = none; user = some (codes "u") }

abbrev second_account : CredentialIdentity
second_account = record { host = some (codes "box"); port = some 22; user = some (codes "u") }

secret_key-same_example :
    (value_or first_account.user [] ≡ value_or second_account.user [])
    × (value_or first_account.host [] ≡ value_or second_account.host [])
    × (value_or first_account.port 22 ≡ value_or second_account.port 22)
unfolding secret_key
secret_key-same_example =
    secret_key-same first_account second_account (unlike, tt) (unlike, tt) refl
  where
    unlike : ◌≢◌ {A = ℕ} b'u' b'@'
    unlike = omega arith

remote-path :
    remote_program_path basename board (some (codes "/w/$$x"))
    ≡ codes "/home/HwHiAiUser/ascend-debug/test_kernel"
unfolding remote_program_path basename
remote-path = refl

replaced : replace_all (codes "${w}") (codes "$$1$&") (codes "a${w}b") ≡ codes "a$1${w}b"
unfolding replace_all
replaced = refl

launch_args-join_example :
    launch_args (join (codes " ") (codes "-n" ∷ codes "4" ∷ [])) ≡ codes "-n" ∷ codes "4" ∷ []
unfolding is_space
launch_args-join_example =
    launch_args-join (codes "-n" ∷ codes "4" ∷ [])
      (((λ e. cc), (refl, (refl, tt))), (((λ e. cc), (refl, tt)), tt))
