-- ===== src/Launch/Options.antt =====
-- The data of src/wslLauncher.ts, src/dockerLauncher.ts and src/sshLauncher.ts, and the JavaScript
-- operations that they use on it. An optional field that is not set is `none`.
use vscode_cann_debugger.Base.{
  ℕ, Bool, true, false, Option, none, some, List, [], ◌∷◌, Text, ◌===◌, if◌then◌else◌,
}

-- An optional string as a condition: neither absent nor empty.
abbrev pub is_set : Option Text → Bool
is_set none = false
is_set (some []) = false
is_set (some (c ∷ t)) = true

-- `text || otherwise`.
abbrev pub or_default : Option Text → Text → Text
or_default none otherwise = otherwise
or_default (some []) otherwise = otherwise
or_default (some (c ∷ t)) otherwise = c ∷ t

-- `items ?? []`.
abbrev pub or_empty {ℓ} : {A : Type ℓ} → Option (List A) → List A
or_empty none = []
or_empty (some xs) = xs

-- `argv[0]`.
abbrev pub first : List Text → Option Text
first [] = none
first (x ∷ xs) = some x

-- `argv.slice(1)`.
abbrev pub rest : List Text → List Text
rest [] = []
rest (x ∷ xs) = xs

-- `NodeJS.ProcessEnv`: names and values in the order of their insertion.
abbrev pub ProcessEnv : Type 0
ProcessEnv = List (Text × Text)

unfoldable pub lookup : ProcessEnv → Text → Option Text
lookup [] k = none
lookup ((j, v) ∷ env) k = if j === k then some v else lookup env k

-- `env[k] = v`.
unfoldable pub assign : ProcessEnv → Text × Text → ProcessEnv
assign [] e = e ∷ []
assign ((j, w) ∷ env) e = if j === e.0 then (j, e.1) ∷ env else (j, w) ∷ assign env e

-- The entries assigned in turn: `{ ...env, ...entries }`, and the loop over `environment`.
unfoldable pub assign_all : ProcessEnv → List (Text × Text) → ProcessEnv
unfolding assign
assign_all env [] = env
assign_all env (e ∷ es) = assign_all (assign env e) es

pub data ExecutionMode : Type 0 where
  native_mode wsl_mode docker_mode ssh_mode : ExecutionMode

pub record WslOptions : Type 0 where
  pub enabled : Option Bool
  pub distro : Option Text
  pub user : Option Text
  pub wsl_path : Option Text
  pub shell : Option Text

-- `options.wsl?.…`: with no record every field is absent.
abbrev pub given : Option WslOptions → WslOptions
given none = record { enabled = none; distro = none; user = none; wsl_path = none; shell = none }
given (some w) = w

pub record DockerOptions : Type 0 where
  pub container_name : Option Text
  pub docker_path : Option Text
  pub docker_args : Option (List Text)
  pub user : Option Text
  pub workdir : Option Text
  pub via_wsl : Option Bool

pub data HostKeyChecking : Type 0 where
  yes_checking no_checking accept_new : HostKeyChecking

pub record SshOptions : Type 0 where
  pub host : Option Text
  pub port : Option ℕ
  pub user : Option Text
  pub identity_file : Option Text
  pub password : Option Text
  pub password_env_var : Option Text
  pub ssh_path : Option Text
  pub sshpass_path : Option Text
  pub ssh_args : Option (List Text)
  pub strict_host_key_checking : Option HostKeyChecking
  pub via_wsl : Option Bool
  pub server_alive_interval : Option ℕ
  pub deploy_path : Option Text

-- What the code reads of its own process: `process.platform === 'win32'` and `process.env`.
pub record Host : Type 0 where
  pub win32 : Bool
  pub process_env : ProcessEnv

pub record SshInvocation : Type 0 where
  pub argv : List Text
  pub env : ProcessEnv

-- `command` is `argv[0]`, so it could be absent.
pub record MiLaunchSpec : Type 0 where
  pub command : Option Text
  pub args : List Text
  pub cwd : Option Text
  pub env : Option ProcessEnv

pub record DebuggerSpawnOptions : Type 0 where
  pub mode : ExecutionMode
  pub wsl : Option WslOptions
  pub docker : Option DockerOptions
  pub ssh : Option SshOptions
  pub gdb_path : Text
  pub gdb_args : Option (List Text)
  pub mi_mode : Option Text
  pub cwd : Option Text
  pub host_cwd : Option Text
  pub setup_script : Option Text
  pub environment : Option (List (Text × Text))
  pub host_env : Option ProcessEnv

pub record SignalOptions : Type 0 where
  pub mode : ExecutionMode
  pub wsl : Option WslOptions
  pub docker : Option DockerOptions
  pub ssh : Option SshOptions
  pub host_env : Option ProcessEnv

-- A thrown `DockerConfigurationError` or `SshConfigurationError`.
pub data ConfigurationError : Type 0 where
  docker_configuration_error ssh_configuration_error : ConfigurationError

pub data Built {ℓ} (A : Type ℓ) : Type ℓ where
  built : A → Built A
  threw : ConfigurationError → Built A

infixl 5 ◌>>=◌
abbrev pub ◌>>=◌ {ℓ κ} : {A : Type ℓ} {B : Type κ} → Built A → (A → Built B) → Built B
built a >>= f = f a
threw e >>= f = threw e
