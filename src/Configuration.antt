-- ===== src/Configuration.antt =====
-- The arguments of a launch and what they decide before a session starts: src/configuration.ts, and
-- how src/ascendDebugSession.ts turns them into the path mapper and the debugger's spawn.
use vscode_cann_debugger.Base.{
  Bool, true, false, not, ◌||◌, Option, none, some, List, [], Text, codes, if◌then◌else◌,
}
use vscode_cann_debugger.Launch.Options.{
  is_set, or_default, or_empty, ExecutionMode, native_mode, wsl_mode, docker_mode, ssh_mode,
  WslOptions, given, DockerOptions, SshOptions, DebuggerSpawnOptions,
}
use vscode_cann_debugger.PathMapper.{PathMapperOptions, path_mapper, to_debugger}

pub record ExecutionOptions : Type 0 where
  pub mode : Option ExecutionMode
  pub docker : Option DockerOptions
  pub ssh : Option SshOptions

pub data PathTranslation : Type 0 where
  automatic on off : PathTranslation

-- The fields that a spawn and the path mapper read, and the debuggee's.
pub record AscendArguments : Type 0 where
  pub program : Option Text
  pub cwd : Option Text
  pub args : Option (List Text)
  pub environment : Option (List (Text × Text))
  pub gdb_path : Option Text
  pub gdb_args : Option (List Text)
  pub mi_mode : Option Text
  pub execution : Option ExecutionOptions
  pub wsl : Option WslOptions
  pub setup_script : Option Text
  pub mi_debugger_server_address : Option Text
  pub source_file_map : Option (List (Text × Text))
  pub path_translation : Option PathTranslation
  pub stop_at_entry : Option Bool

-- `args.execution?.…`: with no record every field is absent.
abbrev pub execution_of : Option ExecutionOptions → ExecutionOptions
execution_of none = record { mode = none; docker = none; ssh = none }
execution_of (some e) = e

-- `args.wsl?.enabled === false ? 'native' : 'wsl'`.
mode_by_switch : Option Bool → ExecutionMode
mode_by_switch (some false) = native_mode
mode_by_switch (some true) = wsl_mode
mode_by_switch none = wsl_mode

unfoldable pub mode_or_switch : Option ExecutionMode → Option WslOptions → ExecutionMode
unfolding mode_by_switch
mode_or_switch (some mode) wsl = mode
mode_or_switch none wsl = mode_by_switch (given wsl).enabled

unfoldable pub resolve_execution_mode : AscendArguments → ExecutionMode
unfolding mode_or_switch
resolve_execution_mode a = mode_or_switch (execution_of a.execution).mode a.wsl

abbrev is_native : ExecutionMode → Bool
is_native native_mode = true
is_native wsl_mode = false
is_native docker_mode = false
is_native ssh_mode = false

unfoldable pub translated_in : Option PathTranslation → AscendArguments → Bool
unfolding resolve_execution_mode
translated_in (some on) a = true
translated_in (some off) a = false
translated_in (some automatic) a =
    not (is_native (resolve_execution_mode a)) || is_set a.mi_debugger_server_address
translated_in none a =
    not (is_native (resolve_execution_mode a)) || is_set a.mi_debugger_server_address

unfoldable pub should_translate_paths : AscendArguments → Bool
unfolding translated_in
should_translate_paths a = translated_in a.path_translation a

-- `mode === 'wsl' ? args.wsl?.distro : undefined`, where absent and empty are alike to the mapper.
distro_in : ExecutionMode → Option WslOptions → Text
distro_in wsl_mode wsl = or_default (given wsl).distro []
distro_in native_mode wsl = []
distro_in docker_mode wsl = []
distro_in ssh_mode wsl = []

unfoldable pub mapper_options : AscendArguments → PathMapperOptions
unfolding resolve_execution_mode should_translate_paths distro_in
mapper_options a = record {
  source_file_map = or_empty a.source_file_map;
  mnt_root = [];
  distro = distro_in (resolve_execution_mode a) a.wsl;
  passthrough = not (should_translate_paths a);
}

-- `text ? f(text) : undefined`.
abbrev mapped_if_set : (Text → Option Text) → Option Text → Option Text
mapped_if_set f none = none
mapped_if_set f (some t) = if is_set (some t) then f t else none

-- `toLowerCase` of a path and `hostFileExists` are arguments.
unfoldable pub spawn_options :
    (Text → Text) → (Text → Bool) → AscendArguments → DebuggerSpawnOptions
unfolding resolve_execution_mode mapper_options path_mapper to_debugger
spawn_options to_lower host_file_exists a =
    let mapper = path_mapper to_lower (mapper_options a) in
    record {
      mode = resolve_execution_mode a;
      wsl = a.wsl;
      docker = (execution_of a.execution).docker;
      ssh = (execution_of a.execution).ssh;
      gdb_path = or_default a.gdb_path (codes "ascend-gdb");
      gdb_args = a.gdb_args;
      mi_mode = a.mi_mode;
      cwd = mapped_if_set (λ cwd. some (to_debugger to_lower mapper cwd)) a.cwd;
      host_cwd = mapped_if_set (λ cwd. if host_file_exists cwd then some cwd else none) a.cwd;
      setup_script = a.setup_script;
      environment = a.environment;
      host_env = none;
    }
