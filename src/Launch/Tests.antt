-- ===== src/Launch/Tests.antt =====
-- Concrete runs of the theorems on src/wslLauncher.ts, src/dockerLauncher.ts and
-- src/sshLauncher.ts.
use vscode_cann_debugger.Base.{
  ◌⊎◌, true, false, none, some, List, [], ◌∷◌, ◌++◌, Text, codes, ◌≡◌, refl, ◌===◌, decimal,
}
use vscode_cann_debugger.Launch.Options.{
  first, rest, ProcessEnv, lookup, docker_mode, DockerOptions, SshOptions, Host, MiLaunchSpec,
  DebuggerSpawnOptions, built,
}
use vscode_cann_debugger.Launch.Shell.{join, quote_all}
use vscode_cann_debugger.Launch.Shell.Words.{shell_words, between, shell_words-quote_all}
use vscode_cann_debugger.Launch.Commands.{
  ssh_runs_in_wsl, resolve_ssh_password, build_ssh_command, append_wsl_env, entry_name, wsl_entries,
}
use vscode_cann_debugger.Launch.Commands.Secrets.{
  Delivers, in_options, argv_of, build_ssh_command-argv_secret, build_ssh_command-password,
}
use vscode_cann_debugger.Launch.Commands.WslEnv.{HasName, entry, entries_of, append_wsl_env-entries}
use vscode_cann_debugger.Launch.Spawn.{build_debugger_spawn, build_signal_prefix}
use vscode_cann_debugger.Launch.Spawn.Prefixes.{signal_of, guest_argv, build_signal_prefix-reaches}

abbrev sample_argv : List Text
sample_argv = codes "gdb" ∷ codes "it's $(here)" ∷ [] ∷ codes "a  b;c" ∷ []

shell_words-quote_all_example :
    shell_words between (join (codes " ") (quote_all sample_argv)) ≡ some sample_argv
shell_words-quote_all_example = shell_words-quote_all sample_argv

abbrev windows : Host
windows = record { win32 = true; process_env = (codes "PATH", codes "C:") ∷ [] }

abbrev suites : DockerOptions
suites = record {
  container_name = some (codes "suites");
  docker_path = none;
  docker_args = none;
  user = some (codes "root");
  workdir = none;
  via_wsl = some false;
}

abbrev session : DebuggerSpawnOptions
session = record {
  mode = docker_mode;
  wsl = none;
  docker = some suites;
  ssh = none;
  gdb_path = codes "gdb";
  gdb_args = none;
  mi_mode = none;
  cwd = some (codes "/tests");
  host_cwd = none;
  setup_script = none;
  environment = some ((codes "A", codes "it's") ∷ []);
  host_env = none;
}

abbrev docker_way : List Text
docker_way =
    codes "docker" ∷ codes "exec" ∷ codes "-i" ∷ codes "-u" ∷ codes "root" ∷ codes "suites" ∷ []

session-prefix : build_signal_prefix windows (signal_of session) ≡ built (some docker_way)
unfolding build_signal_prefix signal_of
session-prefix = refl

build_signal_prefix-reaches_example :
    (spec : MiLaunchSpec) × (build_debugger_spawn windows session ≡ built spec)
    × (spec.command ≡ first (docker_way ++ guest_argv session))
    × (spec.args ≡ rest (docker_way ++ guest_argv session))
build_signal_prefix-reaches_example =
    build_signal_prefix-reaches windows session docker_way session-prefix

abbrev target : SshOptions
target = record {
  host = some (codes "10.0.0.5");
  port = some 2222;
  user = some (codes "root");
  identity_file = none;
  password = some (codes "s3cret");
  password_env_var = none;
  ssh_path = none;
  sshpass_path = none;
  ssh_args = none;
  strict_host_key_checking = none;
  via_wsl = none;
  server_alive_interval = none;
  deploy_path = none;
}

abbrev secret_env : ProcessEnv
secret_env = (codes "ASCEND_SSH_PASSWORD", codes "other") ∷ []

build_ssh_command-argv_secret_example :
    argv_of (build_ssh_command true target none (codes "true") [])
    ≡ argv_of
        (build_ssh_command true (record target { password = none }) none (codes "true") secret_env)
unfolding resolve_ssh_password lookup ◌===◌
build_ssh_command-argv_secret_example =
    build_ssh_command-argv_secret true target none none (codes "true") [] secret_env refl

abbrev sent_env : ProcessEnv
sent_env = (codes "SSHPASS", codes "s3cret") ∷ (codes "WSLENV", codes "A/p:SSHPASS/u") ∷ []

abbrev target_argv : List Text
target_argv =
    codes "wsl.exe"
    ∷ codes "-e"
    ∷ codes "sshpass"
    ∷ codes "-e"
    ∷ codes "ssh"
    ∷ codes "-T"
    ∷ codes "-o"
    ∷ codes "StrictHostKeyChecking=accept-new"
    ∷ codes "-o"
    ∷ codes "LogLevel=ERROR"
    ∷ codes "-o"
    ∷ codes "ServerAliveInterval=30"
    ∷ codes "-p"
    ∷ codes "2222"
    ∷ codes "root@10.0.0.5"
    ∷ codes "true"
    ∷ []

abbrev list_env : ProcessEnv
list_env = (codes "WSLENV", codes "A/p:") ∷ []

target-invocation :
    build_ssh_command true target none (codes "true") list_env
    ≡ built (record { argv = target_argv; env = sent_env })
unfolding build_ssh_command ◌===◌ decimal
target-invocation = refl

build_ssh_command-password_example : Delivers (some (codes "s3cret")) true sent_env
unfolding ssh_runs_in_wsl
build_ssh_command-password_example =
    build_ssh_command-password true target none (codes "true") list_env
      (record { argv = target_argv; env = sent_env }) (some (codes "s3cret"))
      (in_options b's' (codes "3cret") (unfold lookup ◌===◌ in refl) refl) target-invocation

append_wsl_env-entries_example :
    (HasName (entry_name (codes "SSHPASS/u")) (entries_of (some (codes ":A/p::B")))
      × (wsl_entries (append_wsl_env (some (codes ":A/p::B")) (codes "SSHPASS/u"))
          ≡ entries_of (some (codes ":A/p::B"))))
    ⊎ ((¬ HasName (entry_name (codes "SSHPASS/u")) (entries_of (some (codes ":A/p::B"))))
        × (wsl_entries (append_wsl_env (some (codes ":A/p::B")) (codes "SSHPASS/u"))
            ≡ entries_of (some (codes ":A/p::B")) ++ codes "SSHPASS/u" ∷ []))
append_wsl_env-entries_example =
    append_wsl_env-entries (some (codes ":A/p::B")) (codes "SSHPASS/u") (
      entry b'S' (codes "SHPASS/u")
        (refl, (refl, (refl, (refl, (refl, (refl, (refl, (refl, (refl, tt))))))))))
