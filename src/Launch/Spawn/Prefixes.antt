-- ===== src/Launch/Spawn/Prefixes.antt =====
-- Pause and the debugger go the same way: `buildSignalPrefix` and `buildDebuggerSpawn` of
-- src/wslLauncher.ts over the commands of src/dockerLauncher.ts and src/sshLauncher.ts.
use vscode_cann_debugger.Base.{
  Bool, true, false, Option, none, some, List, [], ◌∷◌, ◌++◌, Text, ◌≡◌, refl, sym, ap,
  if◌then◌else◌,
}
use vscode_cann_debugger.Launch.Options.{
  is_set, first, rest, ProcessEnv, assign_all, ExecutionMode, native_mode, wsl_mode, docker_mode,
  ssh_mode, WslOptions, DockerOptions, SshOptions, Host, SshInvocation, MiLaunchSpec,
  DebuggerSpawnOptions, SignalOptions, Built, built, threw, ◌>>=◌,
}
use vscode_cann_debugger.Launch.Commands.{
  build_wsl_command, build_container_command, build_ssh_command, command_args,
}
use vscode_cann_debugger.Launch.Commands.Append.{
  build_container_command-append, build_ssh_command-append, build_wsl_command-append, extended,
}
use vscode_cann_debugger.Launch.Spawn.{
  build_debugger_spawn, build_signal_prefix, build_guest_script, gdb_argv, guest_shell, shell_argv,
  remote_command, spec_of, invocation_spec, env_or, docker_or_empty, ssh_or_empty, spawn_in,
  prefix_in, docker_prefix, ssh_prefix,
}

-- The options of Pause for the session that was started with `o`.
unfoldable pub signal_of : DebuggerSpawnOptions → SignalOptions
signal_of o = record {
  mode = o.mode;
  wsl = o.wsl;
  docker = o.docker;
  ssh = o.ssh;
  host_env = o.host_env;
}

guest_in : ExecutionMode → DebuggerSpawnOptions → List Text
guest_in native_mode o = gdb_argv o
guest_in wsl_mode o = shell_argv (guest_shell o.wsl) (build_guest_script o (gdb_argv o))
guest_in docker_mode o = shell_argv (guest_shell o.wsl) (build_guest_script o (gdb_argv o))
guest_in ssh_mode o = remote_command (guest_shell o.wsl) (build_guest_script o (gdb_argv o)) ∷ []

-- What stands behind the prefix in the debugger's command: a shell and its arguments, or one word
-- for the remote login shell.
unfoldable pub guest_argv : DebuggerSpawnOptions → List Text
unfolding guest_in
guest_argv o = guest_in o.mode o

-- A spawn that comes about and whose words are those of `argv`.
abbrev pub Runs : Built MiLaunchSpec → List Text → Type 0
Runs b argv =
    (spec : MiLaunchSpec) × (b ≡ built spec) × (spec.command ≡ first argv) × (spec.args ≡ rest argv)

command_args-remote_command :
    (shell script : Text)
    → command_args (remote_command shell script) ≡ remote_command shell script ∷ []
unfolding remote_command
command_args-remote_command [] script = refl
command_args-remote_command (c ∷ shell) script = refl

docker_Runs :
    (b : Built (List Text)) (prefix guest : List Text) (env : ProcessEnv)
    → (b >>= (λ argv. built (some argv))) ≡ built (some prefix)
    → Runs
        ((b >>= (λ argv. built (argv ++ guest))) >>= (λ argv. built (spec_of argv none env)))
        (prefix ++ guest)
docker_Runs (built argv) prefix guest env e =
    let same : argv ≡ prefix = cc in
    (
      spec_of (argv ++ guest) none env,
      refl,
      ap (λ a. first (a ++ guest)) same,
      ap (λ a. rest (a ++ guest)) same,
    )
docker_Runs (threw x) prefix guest env e = cc

ssh_Runs :
    (b : Built SshInvocation) (prefix guest : List Text) (env : ProcessEnv)
    → (b >>= (λ i. built (some i.argv))) ≡ built (some prefix)
    → Runs
        ((b >>= (λ i. built (extended guest i))) >>= (λ i. built (invocation_spec env i)))
        (prefix ++ guest)
unfolding assign_all
ssh_Runs (built i) prefix guest env e =
    let same : i.argv ≡ prefix = cc in
    (
      invocation_spec env (extended guest i),
      refl,
      ap (λ a. first (a ++ guest)) same,
      ap (λ a. rest (a ++ guest)) same,
    )
ssh_Runs (threw x) prefix guest env e = cc

-- What a guarded computation gives is what it computes.
guarded {ℓ} :
    {A : Type ℓ} (b : Bool) (x : Built (Option A)) (a : A)
    → (if b then x else built none) ≡ built (some a)
    → x ≡ built (some a)
guarded true x a e = e
guarded false x a e = cc

docker_prefix-Runs :
    (d : Option DockerOptions) (wsl : Option WslOptions) (prefix guest : List Text)
    (env : ProcessEnv)
    → docker_prefix d wsl ≡ built (some prefix)
    → Runs
        (build_container_command (docker_or_empty d) wsl guest
          >>= (λ argv. built (spec_of argv none env)))
        (prefix ++ guest)
unfolding docker_prefix
docker_prefix-Runs none wsl prefix guest env e = cc
docker_prefix-Runs (some d) wsl prefix guest env e =
    rw (build_container_command-append d wsl guest) (
      docker_Runs (build_container_command d wsl []) prefix guest env
        (guarded (is_set d.container_name) _ prefix e))

ssh_prefix-Runs :
    (h : Host) (s : Option SshOptions) (wsl : Option WslOptions) (prefix : List Text)
    (given_env : Option ProcessEnv) (command : Text)
    → ssh_prefix h s wsl given_env ≡ built (some prefix)
    → Runs
        (build_ssh_command h.win32 (ssh_or_empty s) wsl command (env_or given_env h.process_env)
          >>= (λ i. built (invocation_spec (env_or given_env h.process_env) i)))
        (prefix ++ command_args command)
unfolding ssh_prefix
ssh_prefix-Runs h none wsl prefix given_env command e = cc
ssh_prefix-Runs h (some s) wsl prefix given_env command e =
    let env = env_or given_env h.process_env in
    rw (build_ssh_command-append h.win32 s wsl command env) (
      ssh_Runs (build_ssh_command h.win32 s wsl [] env) prefix (command_args command) env
        (guarded (is_set s.host) _ prefix e))

spawn_in-Runs :
    (mode : ExecutionMode) (h : Host) (o : DebuggerSpawnOptions) (prefix : List Text)
    → prefix_in mode h (signal_of o) ≡ built (some prefix)
    → Runs (spawn_in mode h o) (prefix ++ guest_in mode o)
unfolding prefix_in spawn_in guest_in signal_of
spawn_in-Runs native_mode h o prefix e = cc
spawn_in-Runs docker_mode h o prefix e = docker_prefix-Runs o.docker o.wsl prefix _ _ e
spawn_in-Runs ssh_mode h o prefix e =
    let script = build_guest_script o (gdb_argv o) in
    rw (sym (command_args-remote_command (guest_shell o.wsl) script)) (
      ssh_prefix-Runs h o.ssh o.wsl prefix o.host_env (remote_command (guest_shell o.wsl) script) e)
spawn_in-Runs wsl_mode h o prefix e =
    let guest = shell_argv (guest_shell o.wsl) (build_guest_script o (gdb_argv o)) in
    rw (build_wsl_command-append o.wsl guest) (
      docker_Runs (built (build_wsl_command o.wsl [])) prefix guest
        (env_or o.host_env h.process_env) e)

-- Where Pause has a way to the debugger, the debugger was started along it: its command line is
-- that prefix, followed by the guest's shell with its script, as three words or, under ssh, as
-- the one word for the remote login shell.
pub build_signal_prefix-reaches :
    (h : Host) (o : DebuggerSpawnOptions) (prefix : List Text)
    → build_signal_prefix h (signal_of o) ≡ built (some prefix)
    → (spec : MiLaunchSpec) × (build_debugger_spawn h o ≡ built spec)
      × (spec.command ≡ first (prefix ++ guest_argv o))
      × (spec.args ≡ rest (prefix ++ guest_argv o))
unfolding build_signal_prefix build_debugger_spawn guest_argv signal_of
build_signal_prefix-reaches h o prefix e = spawn_in-Runs o.mode h o prefix e
