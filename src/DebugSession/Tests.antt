-- ===== src/DebugSession/Tests.antt =====
-- Concrete runs of the theorems on src/ascendDebugSession.ts.
use vscode_cann_debugger.Base.{
  ℕ, ℤ, Option, true, false, none, some, [], ◌∷◌, codes, ◌≡◌, refl, pos, negsuc, if◌then◌else◌,
  ◌==◌, is_space,
}
use vscode_cann_debugger.Mi.Value.{MiTuple, str, field, no_fields, tuple, arr, item, no_items}
use vscode_cann_debugger.VarObjects.Manager.{done, Debugger, Manager}
use vscode_cann_debugger.DebugSession.Helpers.{
  resolve_address_expression, parse_address, parse_hit_condition,
}
use vscode_cann_debugger.DebugSession.Memory.{Writer, write_bytes}
use vscode_cann_debugger.DebugSession.Memory.Writing.{IsWritten, write_bytes-IsWritten}
use vscode_cann_debugger.DebugSession.Disassembly.{DisassembleResponse, disassemble_request}
use vscode_cann_debugger.DebugSession.Disassembly.Padding.{Responds, disassemble_request-Responds}

annotated : parse_address (codes "0x401000 <main>") ≡ none
unfolding parse_address is_space
annotated = refl

above_five : parse_hit_condition (codes "> 5") ≡ some 4
unfolding parse_hit_condition is_space
above_five = refl

abbrev stopped : Manager
stopped = record { running = true; sent = []; live = [] }

abbrev stored : ℕ → ℕ
stored a = if a == 4096 then 10 else if a == 4097 then 255 else 0

abbrev two_bytes : MiTuple
two_bytes = field (codes "begin") (str (codes "0x1000")) (
    field (codes "end") (str (codes "0x1002"))
      (field (codes "contents") (str (codes "0aff")) no_fields))

abbrev two_bytes_reply : MiTuple
two_bytes_reply = field (codes "memory") (arr (item (tuple two_bytes) no_items)) no_fields

abbrev truthful : Debugger
truthful = record { reply = λ sent command. done two_bytes_reply }

abbrev unsupporting : Writer
unsupporting = record { manager = stopped; supports_write = some false }

abbrev written : Writer
written = (write_bytes truthful (pos 4096) (1 ∷ 2 ∷ []) unsupporting).1

write_bytes-IsWritten_example : IsWritten (pos 4096) (1 ∷ 2 ∷ []) [] 2 written
write_bytes-IsWritten_example =
    write_bytes-IsWritten truthful (pos 4096) (1 ∷ 2 ∷ []) unsupporting written 2
      (unfold write_bytes in refl)

disassemble_request-Responds_example :
    (base : Option ℤ) × (m1 : Manager) × (response : DisassembleResponse)
    × (resolve_address_expression truthful (codes "0x1000") (pos 0) stopped ≡ (done base, m1))
    × ((disassemble_request truthful (codes "0x1000") (pos 0) (negsuc 1) 3 stopped).0
        ≡ done response)
    × Responds truthful (negsuc 1) 3 base m1 response
disassemble_request-Responds_example =
    disassemble_request-Responds truthful (codes "0x1000") (pos 0) (negsuc 1) 3 stopped
