-- ===== src/Targets.antt =====
-- The model behind the view of the target manager: src/targetManager/targetConfig.ts, but what it
-- reads from and writes to the settings of VS Code.
pub mod Validation
pub mod Launches
pub mod Secrets
pub mod Arguments
mod Tests
use vscode_cann_debugger.Base.{
  ℕ, zero, suc, ◌-◌, Bool, true, false, not, ◌||◌, Option, none, some, List, [], ◌∷◌, ◌++◌, Text,
  codes, length, drop, ltb, ◌==◌, is_space, trim, decimal, if◌then◌else◌,
}
use vscode_cann_debugger.Launch.Options.{
  ExecutionMode, docker_mode, ssh_mode, WslOptions, DockerOptions, SshOptions,
}
use vscode_cann_debugger.PathMapper.{starts_with, drop_end, to_posix}
use vscode_cann_debugger.Configuration.{ExecutionOptions, AscendArguments}

pub data TargetMode : Type 0 where
  docker hardware : TargetMode

-- The port is a natural number.
pub record AscendTarget : Type 0 where
  pub mode : TargetMode
  pub program : Text
  pub args : Text
  pub stop_at_entry : Bool
  pub host : Text
  pub port : ℕ
  pub username : Text
  pub deploy_path : Text
  pub identity_file : Text
  pub container_name : Text
  pub docker_via_wsl : Bool
  pub wsl_distro : Text
  pub gdb_path : Text
  pub setup_script : Text
  pub update_launch_json : Bool

abbrev pub default_target : AscendTarget
default_target = record {
  mode = docker;
  program = codes "${workspaceFolder}/build/test_kernel";
  args = [];
  stop_at_entry = true;
  host = [];
  port = 22;
  username = codes "HwHiAiUser";
  deploy_path = codes "/home/HwHiAiUser/ascend-debug";
  identity_file = [];
  container_name = codes "ascend-suites";
  docker_via_wsl = true;
  wsl_distro = [];
  gdb_path = codes "/usr/local/Ascend/cann-8.5.0/tools/msdebug/bin/msdebug-mi";
  setup_script = codes "/usr/local/Ascend/ascend-toolkit/set_env.sh";
  update_launch_json = true;
}

pub record CredentialIdentity : Type 0 where
  pub host : Option Text
  pub port : Option ℕ
  pub user : Option Text

-- `value ?? otherwise`.
abbrev pub value_or {ℓ} : {A : Type ℓ} → Option A → A → A
value_or none otherwise = otherwise
value_or (some a) otherwise = a

abbrev pub key_prefix : Text
key_prefix = codes "ascend-gdb.ssh.password:"

unfoldable pub secret_key : CredentialIdentity → Text
unfolding decimal
secret_key id =
    key_prefix
    ++ value_or id.user []
    ++ b'@' ∷ (value_or id.host [] ++ b':' ∷ decimal (value_or id.port 22))

-- The replacement text of `replace`, where `$` names parts of the match.
expand : Text → Text → Text → Text → Text
expand before match after [] = []
expand before match after (c ∷ []) = c ∷ []
expand before match after (c ∷ d ∷ t) =
    let behind = expand before match after t in
    let next = expand before match after (d ∷ t) in
    if not (c == b'$')
    then c ∷ next
    else if d == b'$'
    then c ∷ behind
    else if d == b'&'
    then match ++ behind
    else if d == b'`'
    then before ++ behind
    else if d == b'\''
    then after ++ behind
    else c ∷ next

-- `skip` units are left of a match, and `before` is what was read.
replace_from : Text → Text → ℕ → Text → Text → Text
unfolding starts_with expand
replace_from pattern by skip before [] = []
replace_from pattern by (suc skip) before (c ∷ t) =
    replace_from pattern by skip (before ++ c ∷ []) t
replace_from pattern by zero before (c ∷ t) =
    let next = replace_from pattern by zero (before ++ c ∷ []) t in
    let behind = replace_from pattern by (length pattern - 1) (before ++ c ∷ []) t in
    if starts_with (c ∷ t) pattern
    then expand before pattern (drop (length pattern) (c ∷ t)) by ++ behind
    else c ∷ next

unfoldable pub replace_all : Text → Text → Text → Text
unfolding replace_from
replace_all pattern by t = replace_from pattern by zero [] t

abbrev onto_word : ℕ → List Text → List Text
onto_word c [] = (c ∷ []) ∷ []
onto_word c (w ∷ ws) = (c ∷ w) ∷ ws

-- `split(/\s+/)`; `within` a run of white space or not.
unfoldable pub split_spaces : Bool → Text → List Text
unfolding is_space
split_spaces within [] = [] ∷ []
split_spaces true (c ∷ t) =
    let more = split_spaces true t in
    let word = split_spaces false t in if is_space c then more else onto_word c word
split_spaces false (c ∷ t) =
    let more = split_spaces true t in
    let word = split_spaces false t in if is_space c then [] ∷ more else onto_word c word

words_of : Text → List Text
unfolding split_spaces
words_of [] = []
words_of (c ∷ t) = split_spaces false (c ∷ t)

unfoldable pub launch_args : Text → List Text
unfolding words_of trim
launch_args args = words_of (trim args)

unfoldable pub remote_join : Text → Text → Text
unfolding drop_end
remote_join dir name = drop_end (λ c. c == b'/') dir ++ b'/' ∷ name

-- `text || undefined`.
abbrev pub set_or_none : Text → Option Text
set_or_none [] = none
set_or_none (c ∷ t) = some (c ∷ t)

abbrev pub generated_config_name : Text
generated_config_name = codes "Ascend NPU: Deploy & Debug"

pub record LaunchConfiguration : Type 0 where
  pub kind : Text
  pub request : Text
  pub name : Text
  pub arguments : AscendArguments

-- `path.basename` of the machine; a folder is given by its `fsPath`.
module _ (path_basename : Text → Text) where
  resolved_in : Option Text → Text → Text
  unfolding replace_all
  resolved_in none value = value
  resolved_in (some fs_path) value =
      replace_all (codes "${workspaceFolderBasename}") (path_basename fs_path)
        (replace_all (codes "${workspaceFolder}") fs_path value)

  unfoldable pub resolve_variables : Text → Option Text → Text
  unfolding resolved_in
  resolve_variables [] folder = []
  resolve_variables (c ∷ t) folder = resolved_in folder (c ∷ t)

  unfoldable pub remote_program_path : AscendTarget → Option Text → Text
  unfolding resolve_variables remote_join to_posix
  remote_program_path t folder =
      remote_join t.deploy_path (path_basename (to_posix (resolve_variables t.program folder)))

  wsl_of : AscendTarget → WslOptions
  wsl_of t = record {
    enabled = some true;
    distro = set_or_none t.wsl_distro;
    user = none;
    wsl_path = none;
    shell = none;
  }

  ssh_of : AscendTarget → SshOptions
  ssh_of t = record {
    host = some t.host;
    port = some t.port;
    user = some t.username;
    identity_file = set_or_none t.identity_file;
    password = none;
    password_env_var = none;
    ssh_path = none;
    sshpass_path = none;
    ssh_args = none;
    strict_host_key_checking = none;
    via_wsl = none;
    server_alive_interval = none;
    deploy_path = some t.deploy_path;
  }

  docker_of : AscendTarget → DockerOptions
  docker_of t = record {
    container_name = some t.container_name;
    docker_path = none;
    docker_args = none;
    user = none;
    workdir = none;
    via_wsl = some t.docker_via_wsl;
  }

  -- The fields that both modes share.
  arguments_of : AscendTarget → Text → Text → ExecutionOptions → AscendArguments
  unfolding launch_args wsl_of
  arguments_of t program cwd execution = record {
    program = some program;
    cwd = some cwd;
    args = some (launch_args t.args);
    environment = none;
    gdb_path = some t.gdb_path;
    gdb_args = none;
    mi_mode = none;
    execution = some execution;
    wsl = some (wsl_of t);
    setup_script = some t.setup_script;
    mi_debugger_server_address = none;
    source_file_map = none;
    path_translation = none;
    stop_at_entry = some t.stop_at_entry;
  }

  launch_in : TargetMode → AscendTarget → Option Text → LaunchConfiguration
  unfolding arguments_of remote_program_path ssh_of docker_of
  launch_in hardware t folder = record {
    kind = codes "ascend-gdb";
    request = codes "launch";
    name = generated_config_name ++ codes " (" ++ t.host ++ codes ")";
    arguments =
        arguments_of t (remote_program_path t folder) t.deploy_path
          (record { mode = some ssh_mode; docker = none; ssh = some (ssh_of t) });
  }
  launch_in docker t folder = record {
    kind = codes "ascend-gdb";
    request = codes "launch";
    name = generated_config_name;
    arguments =
        arguments_of t t.program (codes "${workspaceFolder}")
          (record { mode = some docker_mode; docker = some (docker_of t); ssh = none });
  }

  unfoldable pub build_launch_configuration : AscendTarget → Option Text → LaunchConfiguration
  unfolding launch_in
  build_launch_configuration t folder = launch_in t.mode t folder

-- The list that `syncLaunchJson` writes back; each entry has its name and the rest of it.
unfoldable pub kept {ℓ} : {A : Type ℓ} → List (Text × A) → List (Text × A)
unfolding starts_with
kept [] = []
kept ((name, c) ∷ cs) =
    let more = kept cs in if starts_with name generated_config_name then more else (name, c) ∷ more

unfoldable pub sync_launch_json {ℓ} : {A : Type ℓ} → Text × A → List (Text × A) → List (Text × A)
unfolding kept
sync_launch_json config existing = config ∷ kept existing
