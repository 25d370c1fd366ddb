-- ===== src/Launch/Commands/Errors.antt =====
-- When the commands of src/dockerLauncher.ts and src/sshLauncher.ts are refused.
use vscode_cann_debugger.Base.{Bool, Option, none, some, List, [], ◌∷◌, Text, ◌≡◌, refl, ◌∙◌}
use vscode_cann_debugger.Launch.Options.{
  ProcessEnv, WslOptions, DockerOptions, SshOptions, Built, built, threw, ◌>>=◌, ConfigurationError,
  docker_configuration_error, ssh_configuration_error,
}
use vscode_cann_debugger.Launch.Commands.{
  build_container_command, build_docker_exec_argv, build_ssh_command, exec_in, connect_to,
  through_wsl,
}

-- An error where `name` is not set.
abbrev pub unless_set : Option Text → ConfigurationError → Option ConfigurationError
unless_set none e = some e
unless_set (some []) e = some e
unless_set (some (c ∷ t)) e = none

abbrev pub error_of {ℓ} : {A : Type ℓ} → Built A → Option ConfigurationError
error_of (built a) = none
error_of (threw e) = some e

pub error_of-bind {ℓ κ} :
    {A : Type ℓ} {B : Type κ} (b : Built A) (f : A → B)
    → error_of (b >>= (λ a. built (f a))) ≡ error_of b
error_of-bind (built a) f = refl
error_of-bind (threw e) f = refl

error_of-exec_in :
    (name : Option Text) (d : DockerOptions) (inner : List Text)
    → error_of (exec_in name d inner) ≡ unless_set name docker_configuration_error
unfolding exec_in
error_of-exec_in none d inner = refl
error_of-exec_in (some []) d inner = refl
error_of-exec_in (some (c ∷ t)) d inner = refl

pub error_of-build_container_command :
    (d : DockerOptions) (wsl : Option WslOptions) (inner : List Text)
    → error_of (build_container_command d wsl inner)
      ≡ unless_set d.container_name docker_configuration_error
unfolding build_container_command build_docker_exec_argv
error_of-build_container_command d wsl inner =
    error_of-bind (exec_in d.container_name d inner) (through_wsl d.via_wsl wsl)
    ∙ error_of-exec_in d.container_name d inner

error_of-connect_to :
    (host : Option Text) (win32 : Bool) (s : SshOptions) (wsl : Option WslOptions) (command : Text)
    (env : ProcessEnv)
    → error_of (connect_to host win32 s wsl command env) ≡ unless_set host ssh_configuration_error
unfolding connect_to
error_of-connect_to none win32 s wsl command env = refl
error_of-connect_to (some []) win32 s wsl command env = refl
error_of-connect_to (some (c ∷ t)) win32 s wsl command env = refl

pub error_of-build_ssh_command :
    (win32 : Bool) (s : SshOptions) (wsl : Option WslOptions) (command : Text) (env : ProcessEnv)
    → error_of (build_ssh_command win32 s wsl command env)
      ≡ unless_set s.host ssh_configuration_error
unfolding build_ssh_command
error_of-build_ssh_command win32 s wsl command env =
    error_of-connect_to s.host win32 s wsl command env
