-- ===== src/Targets/Validation.antt =====
-- The problems of a target: `validateTarget` of src/targetManager/targetConfig.ts.
use vscode_cann_debugger.Base.{
  Bool, true, false, not, ◌||◌, List, [], ◌∷◌, ◌++◌, Text, codes, ltb, trim,
}
use vscode_cann_debugger.PathMapper.{starts_with}
use vscode_cann_debugger.Targets.{TargetMode, docker, hardware, AscendTarget}

-- The messages of `validateTarget`.
pub data Problem : Type 0 where
  no_program no_debugger no_host no_username bad_port bad_deploy_path no_container : Problem

unfoldable pub is_blank : Text → Bool
unfolding trim
is_blank t = elim (trim t) [ [] ↦ true | c ∷ u ↦ false ]

abbrev pub push_if : Bool → Problem → List Problem
push_if false p = []
push_if true p = p ∷ []

unfoldable pub problems_in : TargetMode → AscendTarget → List Problem
unfolding is_blank starts_with trim
problems_in hardware t =
    push_if (is_blank t.host) no_host
    ++ (push_if (is_blank t.username) no_username
        ++ (push_if (ltb t.port 1 || ltb 65535 t.port) bad_port
            ++ push_if (not (starts_with (trim t.deploy_path) (codes "/"))) bad_deploy_path))
problems_in docker t = push_if (is_blank t.container_name) no_container

unfoldable pub validate_target : AscendTarget → List Problem
unfolding problems_in is_blank
validate_target t =
    push_if (is_blank t.program) no_program
    ++ (push_if (is_blank t.gdb_path) no_debugger ++ problems_in t.mode t)
