-- ===== src/Launch/Spawn/Errors.antt =====
-- When `buildDebuggerSpawn` of src/wslLauncher.ts throws.
use vscode_cann_debugger.Base.{Option, none, ◌≡◌, refl, ◌∙◌}
use vscode_cann_debugger.Launch.Options.{
  ExecutionMode, native_mode, wsl_mode, docker_mode, ssh_mode, Host, DebuggerSpawnOptions,
  ConfigurationError, docker_configuration_error, ssh_configuration_error,
}
use vscode_cann_debugger.Launch.Commands.{build_container_command, build_ssh_command}
use vscode_cann_debugger.Launch.Commands.Errors.{
  unless_set, error_of, error_of-bind, error_of-build_container_command, error_of-build_ssh_command,
}
use vscode_cann_debugger.Launch.Spawn.{
  build_debugger_spawn, spawn_in, docker_or_empty, ssh_or_empty,
}

-- What the configuration lacks for its mode.
unfoldable pub missing : ExecutionMode → DebuggerSpawnOptions → Option ConfigurationError
missing native_mode o = none
missing wsl_mode o = none
missing docker_mode o =
    unless_set (docker_or_empty o.docker).container_name docker_configuration_error
missing ssh_mode o = unless_set (ssh_or_empty o.ssh).host ssh_configuration_error

spawn_in-error :
    (mode : ExecutionMode) (h : Host) (o : DebuggerSpawnOptions)
    → error_of (spawn_in mode h o) ≡ missing mode o
unfolding spawn_in missing
spawn_in-error native_mode h o = refl
spawn_in-error wsl_mode h o = refl
spawn_in-error docker_mode h o =
    error_of-bind (build_container_command (docker_or_empty o.docker) o.wsl _) _
    ∙ error_of-build_container_command (docker_or_empty o.docker) o.wsl _
spawn_in-error ssh_mode h o =
    error_of-bind (build_ssh_command h.win32 (ssh_or_empty o.ssh) o.wsl _ _) _
    ∙ error_of-build_ssh_command h.win32 (ssh_or_empty o.ssh) o.wsl _ _

-- The debugger's command is built, or refused with the error of its mode: a `docker` mode without
-- a container and an `ssh` mode without a host are refused, and nothing else is.
pub build_debugger_spawn-error :
    (h : Host) (o : DebuggerSpawnOptions) → error_of (build_debugger_spawn h o) ≡ missing o.mode o
unfolding build_debugger_spawn
build_debugger_spawn-error h o = spawn_in-error o.mode h o
