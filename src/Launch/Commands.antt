-- ===== src/Launch/Commands.antt =====
-- The commands that lead to the guest: `buildWslCommand` of src/wslLauncher.ts, all of
-- src/dockerLauncher.ts and src/sshLauncher.ts.
pub mod Append
pub mod Secrets
pub mod Errors
pub mod WslEnv
use vscode_cann_debugger.Base.{
  ℕ, zero, suc, Bool, true, false, ◌||◌, Option, none, some, List, [], ◌∷◌, ◌++◌, Text, codes,
  decimal, ◌==◌, ◌===◌, if◌then◌else◌,
}
use vscode_cann_debugger.Launch.Options.{
  is_set, or_default, or_empty, ProcessEnv, lookup, WslOptions, given, DockerOptions,
  HostKeyChecking, yes_checking, no_checking, accept_new, SshOptions, SshInvocation, Built, built,
  threw, ◌>>=◌, docker_configuration_error, ssh_configuration_error,
}
use vscode_cann_debugger.Launch.Shell.{join}

-- `if (value) { argv.push(flag, value); }`.
abbrev pub flagged : Text → Option Text → List Text
flagged flag none = []
flagged flag (some []) = []
flagged flag (some (c ∷ t)) = flag ∷ (c ∷ t) ∷ []

unfoldable pub wsl_prefix : Option WslOptions → List Text
wsl_prefix wsl =
    or_default (given wsl).wsl_path (codes "wsl.exe")
    ∷ (flagged (codes "-d") (given wsl).distro
        ++ flagged (codes "-u") (given wsl).user
        ++ codes "-e" ∷ [])

unfoldable pub build_wsl_command : Option WslOptions → List Text → List Text
unfolding wsl_prefix
build_wsl_command wsl inner_argv = wsl_prefix wsl ++ inner_argv

docker_exec : Text → DockerOptions → List Text → List Text
docker_exec name docker inner_argv =
    or_default docker.docker_path (codes "docker")
    ∷ codes "exec"
    ∷ codes "-i"
    ∷ (flagged (codes "-u") docker.user
        ++ flagged (codes "-w") docker.workdir
        ++ or_empty docker.docker_args
        ++ name ∷ inner_argv)

exec_in : Option Text → DockerOptions → List Text → Built (List Text)
unfolding docker_exec
exec_in none docker inner_argv = threw docker_configuration_error
exec_in (some []) docker inner_argv = threw docker_configuration_error
exec_in (some (c ∷ name)) docker inner_argv = built (docker_exec (c ∷ name) docker inner_argv)

unfoldable pub build_docker_exec_argv : DockerOptions → List Text → Built (List Text)
unfolding exec_in
build_docker_exec_argv docker inner_argv = exec_in docker.container_name docker inner_argv

-- `docker.viaWsl === false` leaves the hop out.
through_wsl : Option Bool → Option WslOptions → List Text → List Text
unfolding wsl_prefix
through_wsl (some false) wsl argv = argv
through_wsl (some true) wsl argv = wsl_prefix wsl ++ argv
through_wsl none wsl argv = wsl_prefix wsl ++ argv

unfoldable pub build_container_command :
    DockerOptions → Option WslOptions → List Text → Built (List Text)
unfolding build_docker_exec_argv through_wsl
build_container_command docker wsl inner_argv =
    build_docker_exec_argv docker inner_argv >>= λ argv. built (through_wsl docker.via_wsl wsl argv)

abbrev pub default_password_env_var : Text
default_password_env_var = codes "ASCEND_SSH_PASSWORD"

-- `value || undefined`.
abbrev some_if_set : Option Text → Option Text → Option Text
some_if_set none otherwise = otherwise
some_if_set (some []) otherwise = otherwise
some_if_set (some (c ∷ t)) otherwise = some (c ∷ t)

unfoldable pub resolve_ssh_password : SshOptions → ProcessEnv → Option Text
unfolding lookup
resolve_ssh_password ssh host_env =
    some_if_set (lookup host_env (or_default ssh.password_env_var default_password_env_var))
      (some_if_set ssh.password none)

unfoldable pub ssh_runs_in_wsl : Bool → SshOptions → Bool
ssh_runs_in_wsl win32 ssh = elim ssh.via_wsl [ none ↦ win32 | some b ↦ b ]

onto_first : ℕ → List Text → List Text
onto_first x [] = (x ∷ []) ∷ []
onto_first x (p ∷ ps) = (x ∷ p) ∷ ps

-- `text.split(c)`: at least one part.
unfoldable pub split : ℕ → Text → List Text
unfolding onto_first
split c [] = [] ∷ []
split c (x ∷ text) = let parts = split c text in if x == c then [] ∷ parts else onto_first x parts

-- `parts.filter(Boolean)`.
unfoldable pub filter_set : List Text → List Text
filter_set [] = []
filter_set ([] ∷ ps) = filter_set ps
filter_set ((c ∷ t) ∷ ps) = (c ∷ t) ∷ filter_set ps

-- `entry.split('/')[0]`.
unfoldable pub entry_name : Text → Text
entry_name [] = []
entry_name (c ∷ t) = let name = entry_name t in if c == b'/' then [] else c ∷ name

unfoldable pub some_named : Text → List Text → Bool
unfolding entry_name
some_named name [] = false
some_named name (p ∷ ps) = entry_name p === name || some_named name ps

unfoldable pub wsl_entries : Text → List Text
unfolding split filter_set
wsl_entries text = filter_set (split b':' text)

unfoldable pub append_wsl_env : Option Text → Text → Text
unfolding wsl_entries some_named join
append_wsl_env existing entry =
    let parts = wsl_entries (elim existing [ none ↦ [] | some t ↦ t ]) in
    if some_named (entry_name entry) parts
    then join (codes ":") parts
    else join (codes ":") (parts ++ entry ∷ [])

abbrev host_key_text : Option HostKeyChecking → Text
host_key_text none = codes "accept-new"
host_key_text (some accept_new) = codes "accept-new"
host_key_text (some yes_checking) = codes "yes"
host_key_text (some no_checking) = codes "no"

abbrev positive : ℕ → List Text → List Text
positive zero args = []
positive (suc n) args = args

-- `ssh.serverAliveInterval ?? 30`, where it is positive.
alive_args : Option ℕ → List Text
alive_args none = codes "-o" ∷ codes "ServerAliveInterval=30" ∷ []
alive_args (some n) = positive n (codes "-o" ∷ (codes "ServerAliveInterval=" ++ decimal n) ∷ [])

port_args : Option ℕ → List Text
port_args none = []
port_args (some n) = positive n (codes "-p" ∷ decimal n ∷ [])

-- `user ? user@host : host`.
destination : Option Text → Text → Text
destination none host = host
destination (some []) host = host
destination (some (c ∷ t)) host = (c ∷ t) ++ b'@' ∷ host

abbrev pub command_args : Text → List Text
command_args [] = []
command_args (c ∷ t) = (c ∷ t) ∷ []

-- What is pushed in front of the client where there is a password, and `BatchMode` where none is.
sshpass_args : Option Text → SshOptions → List Text
sshpass_args none ssh = []
sshpass_args (some p) ssh = or_default ssh.sshpass_path (codes "sshpass") ∷ codes "-e" ∷ []

batch_args : Option Text → List Text
batch_args none = codes "-o" ∷ codes "BatchMode=yes" ∷ []
batch_args (some p) = []

-- The overlay `env`.
password_env : Option Text → Bool → ProcessEnv → ProcessEnv
unfolding append_wsl_env lookup
password_env none via_wsl host_env = []
password_env (some p) via_wsl host_env =
    let passed : Text × Text =
      (codes "WSLENV", append_wsl_env (lookup host_env (codes "WSLENV")) (codes "SSHPASS/u")) in
    (codes "SSHPASS", p) ∷ (if via_wsl then passed ∷ [] else [])

client_argv : Option Text → Text → SshOptions → Text → List Text
unfolding sshpass_args batch_args alive_args port_args destination
client_argv secret host ssh remote_command =
    sshpass_args secret ssh
    ++ or_default ssh.ssh_path (codes "ssh")
      ∷ codes "-T"
      ∷ codes "-o"
      ∷ (codes "StrictHostKeyChecking=" ++ host_key_text ssh.strict_host_key_checking)
      ∷ (batch_args secret
          ++ codes "-o"
            ∷ codes "LogLevel=ERROR"
            ∷ (alive_args ssh.server_alive_interval
                ++ flagged (codes "-i") ssh.identity_file
                ++ port_args ssh.port
                ++ or_empty ssh.ssh_args
                ++ destination ssh.user host ∷ command_args remote_command))

ssh_invocation :
    Option Text → Bool → Text → SshOptions → Option WslOptions → Text → ProcessEnv → SshInvocation
unfolding client_argv password_env wsl_prefix
ssh_invocation secret via_wsl host ssh wsl remote_command host_env =
    let argv = client_argv secret host ssh remote_command in
    record {
      argv = if via_wsl then wsl_prefix wsl ++ argv else argv;
      env = password_env secret via_wsl host_env;
    }

connect_to :
    Option Text → Bool → SshOptions → Option WslOptions → Text → ProcessEnv → Built SshInvocation
unfolding ssh_invocation resolve_ssh_password ssh_runs_in_wsl
connect_to none win32 ssh wsl remote_command host_env = threw ssh_configuration_error
connect_to (some []) win32 ssh wsl remote_command host_env = threw ssh_configuration_error
connect_to (some (c ∷ host)) win32 ssh wsl remote_command host_env =
    let secret = resolve_ssh_password ssh host_env in
    let via_wsl = ssh_runs_in_wsl win32 ssh in
    built (ssh_invocation secret via_wsl (c ∷ host) ssh wsl remote_command host_env)

unfoldable pub build_ssh_command :
    Bool → SshOptions → Option WslOptions → Text → ProcessEnv → Built SshInvocation
unfolding connect_to
build_ssh_command win32 ssh wsl remote_command host_env =
    connect_to ssh.host win32 ssh wsl remote_command host_env
