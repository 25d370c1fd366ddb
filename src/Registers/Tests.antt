-- ===== src/Registers/Tests.antt =====
-- Concrete runs of the theorems on src/registers.ts.
use vscode_cann_debugger.Base.{List, [], ◌∷◌, Text, codes, ◌≡◌}
use vscode_cann_debugger.Registers.{vector, group_registers}
use vscode_cann_debugger.Registers.Groups.{names_of, filed_under, group_registers-filed_under}

abbrev reported : List Text
reported = codes "x0" ∷ codes "V31" ∷ [] ∷ codes "pc" ∷ codes "q2" ∷ []

group_registers-filed_under_example :
    names_of vector (group_registers reported) ≡ filed_under vector reported
group_registers-filed_under_example = group_registers-filed_under vector reported

abbrev raw_value : Text
raw_value = codes " 0x2a "
