-- ===== src/Targets/Launches.antt =====
-- What `validateTarget` and `buildLaunchConfiguration` of src/targetManager/targetConfig.ts promise
-- the debug session.
use vscode_cann_debugger.Base.{
  Bool, true, false, Option, none, some, List, [], ◌∷◌, ◌++◌, Text, append-nil, codes, not, ◌||◌,
  ltb, trim, ◌≡◌, refl, ◌∙◌,
}
use vscode_cann_debugger.PathMapper.{starts_with}
use vscode_cann_debugger.Launch.Options.{Host, ConfigurationError}
use vscode_cann_debugger.Launch.Commands.Errors.{unless_set, error_of}
use vscode_cann_debugger.Launch.Spawn.{build_debugger_spawn}
use vscode_cann_debugger.Launch.Spawn.Errors.{missing, build_debugger_spawn-error}
use vscode_cann_debugger.Configuration.{
  resolve_execution_mode, should_translate_paths, spawn_options, mode_or_switch, translated_in,
}
use vscode_cann_debugger.Targets.Validation.{
  Problem, push_if, is_blank, problems_in, validate_target, no_program, no_debugger, no_host,
  no_username, bad_port, bad_deploy_path, no_container,
}
use vscode_cann_debugger.Targets.{
  TargetMode, docker, hardware, AscendTarget, launch_in, build_launch_configuration, arguments_of,
  ssh_of, docker_of,
}

push_if-nil :
    (b : Bool) (p : Problem) (ps : List Problem) → push_if b p ++ ps ≡ [] → (b ≡ false) × (ps ≡ [])
push_if-nil false p ps h = (refl, h)
push_if-nil true p ps h = cc

unless_set-solid :
    (t : Text) (e : ConfigurationError) → is_blank t ≡ false → unless_set (some t) e ≡ none
unfolding is_blank
unless_set-solid [] e h = cc
unless_set-solid (c ∷ t) e h = refl

spawns_in :
    (path_basename to_lower : Text → Text) (host_file_exists : Text → Bool) (mode : TargetMode)
    (t : AscendTarget) (folder : Option Text)
    → problems_in mode t ≡ []
    → (let o =
          spawn_options to_lower host_file_exists
            (launch_in path_basename mode t folder).arguments in
        missing o.mode o ≡ none)
unfolding problems_in launch_in arguments_of ssh_of docker_of spawn_options resolve_execution_mode
    mode_or_switch missing
spawns_in path_basename to_lower host_file_exists hardware t folder h =
    unless_set-solid t.host _
      (push_if-nil (is_blank t.host) no_host
        (push_if (is_blank t.username) no_username
          ++ (push_if (ltb t.port 1 || ltb 65535 t.port) bad_port
              ++ push_if (not (starts_with (trim t.deploy_path) (codes "/"))) bad_deploy_path))
        h).0
spawns_in path_basename to_lower host_file_exists docker t folder h =
    unless_set-solid t.container_name _
      (push_if-nil (is_blank t.container_name) no_container [] (append-nil _ ∙ h)).0

translates_in :
    (path_basename : Text → Text) (mode : TargetMode) (t : AscendTarget) (folder : Option Text)
    → should_translate_paths (launch_in path_basename mode t folder).arguments ≡ true
unfolding launch_in arguments_of should_translate_paths translated_in resolve_execution_mode
    mode_or_switch
translates_in path_basename hardware t folder = refl
translates_in path_basename docker t folder = refl

-- A target without a problem gives a launch configuration whose paths are translated and whose
-- debugger command is built: neither the container nor the host is missing, on any machine.
pub build_launch_configuration-spawns :
    (path_basename to_lower : Text → Text) (host_file_exists : Text → Bool) (h : Host)
    (t : AscendTarget) (folder : Option Text)
    → validate_target t ≡ []
    → (let a = (build_launch_configuration path_basename t folder).arguments in
        (should_translate_paths a ≡ true)
        × (error_of (build_debugger_spawn h (spawn_options to_lower host_file_exists a)) ≡ none))
unfolding validate_target build_launch_configuration
build_launch_configuration-spawns path_basename to_lower host_file_exists h t folder valid =
    let behind =
      (push_if-nil (is_blank t.gdb_path) no_debugger (problems_in t.mode t)
        (push_if-nil (is_blank t.program) no_program
          (push_if (is_blank t.gdb_path) no_debugger ++ problems_in t.mode t) valid).1).1 in
    (
      translates_in path_basename t.mode t folder,
      build_debugger_spawn-error h _
          ∙ spawns_in path_basename to_lower host_file_exists t.mode t folder behind,
    )
