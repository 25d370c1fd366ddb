-- ===== src/Launch/Spawn.antt =====
-- The program that starts the debugger and the way that Pause takes to it: `buildDebuggerSpawn`,
-- `buildSignalPrefix`, `buildSignalEnv` and `buildGuestScript` of src/wslLauncher.ts.
pub mod Prefixes
pub mod Guest
pub mod Errors
use vscode_cann_debugger.Base.{Option, none, some, List, [], ◌∷◌, ◌++◌, Text, codes, if◌then◌else◌}
use vscode_cann_debugger.Launch.Options.{
  is_set, or_default, or_empty, first, rest, ProcessEnv, assign_all, ExecutionMode, native_mode,
  wsl_mode, docker_mode, ssh_mode, WslOptions, given, DockerOptions, SshOptions, Host,
  SshInvocation, MiLaunchSpec, DebuggerSpawnOptions, SignalOptions, Built, built, ◌>>=◌,
}
use vscode_cann_debugger.Launch.Shell.{sh_quote, join, quote_all}
use vscode_cann_debugger.Launch.Commands.{
  build_wsl_command, build_container_command, build_ssh_command,
}

abbrev pub guest_pid_echo : Text
guest_pid_echo = codes "echo __ASCEND_GDB_PID__:$$ >&2"

unfoldable pub gdb_argv : DebuggerSpawnOptions → List Text
gdb_argv o =
    o.gdb_path
    ∷ (or_empty o.gdb_args
        ++ (codes "--interpreter=" ++ or_default o.mi_mode (codes "mi2")) ∷ codes "-q" ∷ [])

-- The directory is quoted in the command, and stands as it is in the warning.
cd_part : Option Text → List Text
unfolding sh_quote
cd_part none = []
cd_part (some []) = []
cd_part (some (c ∷ t)) =
    let cwd = c ∷ t in
    (codes "cd "
      ++ sh_quote cwd
      ++ codes " 2>/dev/null || echo \"warning: cannot cd to "
      ++ cwd
      ++ codes "\" >&2")
    ∷ []

export_parts : List (Text × Text) → List Text
unfolding sh_quote
export_parts [] = []
export_parts ((name, value) ∷ es) =
    (codes "export " ++ name ++ codes "=" ++ sh_quote value) ∷ export_parts es

setup_part : Option Text → List Text
unfolding sh_quote
setup_part none = []
setup_part (some []) = []
setup_part (some (c ∷ t)) =
    let script = c ∷ t in
    let q = sh_quote script in
    (codes "if [ -f "
      ++ q
      ++ codes " ]; then . "
      ++ q
      ++ codes " >/dev/null 2>&1 || echo \"warning: "
      ++ script
      ++ codes " failed\" >&2; fi")
    ∷ []

unfoldable pub build_guest_script : DebuggerSpawnOptions → List Text → Text
unfolding cd_part export_parts setup_part join quote_all
build_guest_script o argv = join (codes "; ") (
    cd_part o.cwd
    ++ export_parts (or_empty o.environment)
    ++ setup_part o.setup_script
    ++ guest_pid_echo ∷ (codes "exec " ++ join (codes " ") (quote_all argv)) ∷ [])

-- The spawn of a command line that is all there is to it.
abbrev pub spec_of : List Text → Option Text → ProcessEnv → MiLaunchSpec
spec_of argv cwd env = record { command = first argv; args = rest argv; cwd = cwd; env = some env }

-- `options.hostEnv ?? process.env`.
abbrev pub env_or : Option ProcessEnv → ProcessEnv → ProcessEnv
env_or none env = env
env_or (some own) env = own

-- `options.docker ?? {}` and `options.ssh ?? {}`.
abbrev pub docker_or_empty : Option DockerOptions → DockerOptions
docker_or_empty none = record {
  container_name = none;
  docker_path = none;
  docker_args = none;
  user = none;
  workdir = none;
  via_wsl = none;
}
docker_or_empty (some d) = d

abbrev pub ssh_or_empty : Option SshOptions → SshOptions
ssh_or_empty none = record {
  host = none;
  port = none;
  user = none;
  identity_file = none;
  password = none;
  password_env_var = none;
  ssh_path = none;
  sshpass_path = none;
  ssh_args = none;
  strict_host_key_checking = none;
  via_wsl = none;
  server_alive_interval = none;
  deploy_path = none;
}
ssh_or_empty (some s) = s

abbrev pub guest_shell : Option WslOptions → Text
guest_shell wsl = or_default (given wsl).shell (codes "/bin/bash")

abbrev pub shell_argv : Text → Text → List Text
shell_argv shell script = shell ∷ codes "-lc" ∷ script ∷ []

-- The shell and its script as one word for the login shell of the remote host.
unfoldable pub remote_command : Text → Text → Text
unfolding sh_quote
remote_command shell script = shell ++ codes " -lc " ++ sh_quote script

abbrev pub invocation_spec : ProcessEnv → SshInvocation → MiLaunchSpec
invocation_spec host_env i = spec_of i.argv none (assign_all host_env i.env)

spawn_in : ExecutionMode → Host → DebuggerSpawnOptions → Built MiLaunchSpec
unfolding gdb_argv build_guest_script remote_command build_ssh_command build_container_command
    build_wsl_command assign_all
spawn_in native_mode h o =
    built (spec_of (gdb_argv o) o.host_cwd (assign_all h.process_env (or_empty o.environment)))
spawn_in ssh_mode h o =
    let host_env = env_or o.host_env h.process_env in
    let shell = guest_shell o.wsl in
    let script = build_guest_script o (gdb_argv o) in
    build_ssh_command h.win32 (ssh_or_empty o.ssh) o.wsl (remote_command shell script) host_env
    >>= λ i. built (invocation_spec host_env i)
spawn_in docker_mode h o =
    let host_env = env_or o.host_env h.process_env in
    let script = build_guest_script o (gdb_argv o) in
    build_container_command (docker_or_empty o.docker) o.wsl (shell_argv (guest_shell o.wsl) script)
    >>= λ argv. built (spec_of argv none host_env)
spawn_in wsl_mode h o =
    let host_env = env_or o.host_env h.process_env in
    let script = build_guest_script o (gdb_argv o) in
    built (spec_of (build_wsl_command o.wsl (shell_argv (guest_shell o.wsl) script)) none host_env)

unfoldable pub build_debugger_spawn : Host → DebuggerSpawnOptions → Built MiLaunchSpec
unfolding spawn_in
build_debugger_spawn h o = spawn_in o.mode h o

docker_prefix : Option DockerOptions → Option WslOptions → Built (Option (List Text))
unfolding build_container_command
docker_prefix none wsl = built none
docker_prefix (some d) wsl =
    if is_set d.container_name
    then (build_container_command d wsl [] >>= λ argv. built (some argv))
    else built none

ssh_prefix :
    Host → Option SshOptions → Option WslOptions → Option ProcessEnv → Built (Option (List Text))
unfolding build_ssh_command
ssh_prefix h none wsl env = built none
ssh_prefix h (some s) wsl env =
    if is_set s.host
    then (build_ssh_command h.win32 s wsl [] (env_or env h.process_env) >>= λ i.
        built (some i.argv))
    else built none

prefix_in : ExecutionMode → Host → SignalOptions → Built (Option (List Text))
unfolding docker_prefix ssh_prefix build_wsl_command
prefix_in native_mode h o = built none
prefix_in docker_mode h o = docker_prefix o.docker o.wsl
prefix_in ssh_mode h o = ssh_prefix h o.ssh o.wsl o.host_env
prefix_in wsl_mode h o = built (some (build_wsl_command o.wsl []))

unfoldable pub build_signal_prefix : Host → SignalOptions → Built (Option (List Text))
unfolding prefix_in
build_signal_prefix h o = prefix_in o.mode h o

ssh_env :
    Host → Option SshOptions → Option WslOptions → Option ProcessEnv → Built (Option ProcessEnv)
unfolding build_ssh_command assign_all
ssh_env h none wsl env = built none
ssh_env h (some s) wsl env =
    let host_env = env_or env h.process_env in
    if is_set s.host
    then (build_ssh_command h.win32 s wsl [] host_env >>= λ i.
        built (some (assign_all host_env i.env)))
    else built none

env_in : ExecutionMode → Host → SignalOptions → Built (Option ProcessEnv)
unfolding ssh_env
env_in ssh_mode h o = ssh_env h o.ssh o.wsl o.host_env
env_in native_mode h o = built none
env_in wsl_mode h o = built none
env_in docker_mode h o = built none

unfoldable pub build_signal_env : Host → SignalOptions → Built (Option ProcessEnv)
unfolding env_in
build_signal_env h o = env_in o.mode h o
