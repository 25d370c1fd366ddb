-- ===== src/Mi/Connection/Marked.antt =====
-- How `handleLine` of src/mi/miConnection.ts dispatches a line with a marker.
use vscode_cann_debugger.Base.{Bool, false, All, true, List, ◌≡◌}
use vscode_cann_debugger.Mi.Connection.{inferior_text, Connection, Act}

-- Output of the program that is debugged.
abbrev pub is_inferior : Act → Bool
is_inferior (inferior_text text) = true
is_inferior _ = false

abbrev NotInferior : List Act → Type 0
NotInferior = All (λ a. is_inferior a ≡ false)
