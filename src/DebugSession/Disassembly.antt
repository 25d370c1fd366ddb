-- ===== src/DebugSession/Disassembly.antt =====
-- `disassembleRequest` of src/ascendDebugSession.ts.
pub mod Padding
use vscode_cann_debugger.Base.{
  ℕ, zero, suc, ◌+◌, ◌-◌, ◌*◌, Option, none, some, List, [], ◌∷◌, ◌++◌, Text, codes, length, take,
  ℤ, pos, ◌+ℤ◌, ◌*ℤ◌,
}
use vscode_cann_debugger.Mi.Value.{MiValue, MiTuple, get, mi_list}
use vscode_cann_debugger.Mi.Number.{hexadecimal_ℤ}
use vscode_cann_debugger.VarObjects.Manager.{
  Outcome, done, rejected, Debugger, Manager, Async, ◌>>=◌, return, send, text_of,
}
use vscode_cann_debugger.DebugSession.Helpers.{resolve_address_expression}

pub record DisassembledInstruction : Type 0 where
  pub address : Text
  pub instruction : Text
  pub instruction_bytes : Option Text
  pub symbol : Option Text

pub data DisassembleResponse : Type 0 where
  instructions : List DisassembledInstruction → DisassembleResponse
  disassemble_error : ℕ → Text → DisassembleResponse

-- `text || undefined`
abbrev text_if_any : Text → Option Text
text_if_any [] = none
text_if_any (c ∷ t) = some (c ∷ t)

instruction_at : Text → MiTuple → List DisassembledInstruction
unfolding text_of
instruction_at [] i = []
instruction_at (c ∷ address) i =
    record {
      address = c ∷ address;
      instruction = text_of i (codes "inst");
      instruction_bytes = text_if_any (text_of i (codes "opcodes"));
      symbol = text_if_any (text_of i (codes "func-name"));
    }
    ∷ []

-- The inner loop.
instructions_of : List MiTuple → List DisassembledInstruction
unfolding instruction_at text_of
instructions_of [] = []
instructions_of (i ∷ is) = instruction_at (text_of i (codes "address")) i ++ instructions_of is

-- The instructions of a source line, or the entry itself.
line_instructions : MiTuple → Option MiValue → List MiTuple
unfolding mi_list
line_instructions insn none = insn ∷ []
line_instructions insn (some inner) = mi_list (some inner) (codes "line_asm_insn")

-- The outer loop.
unfoldable pub read_instructions : List MiTuple → List DisassembledInstruction
unfolding instructions_of line_instructions get
read_instructions [] = []
read_instructions (insn ∷ rest) =
    instructions_of (line_instructions insn (get insn (codes "line_asm_insn")))
    ++ read_instructions rest

unfoldable pub address_at : ℤ → ℕ → Text
unfolding hexadecimal_ℤ
address_at start index = codes "0x" ++ hexadecimal_ℤ (start +ℤ pos (index * 4))

unfoldable pub unreadable_at : ℤ → ℕ → DisassembledInstruction
unfolding address_at
unreadable_at start index = record {
  address = address_at start index;
  instruction = codes "(unreadable)";
  instruction_bytes = none;
  symbol = none;
}

-- What the padding loop appends: `n` entries from `index` on.
unfoldable pub padding : ℤ → ℕ → ℕ → List DisassembledInstruction
unfolding unreadable_at
padding start index zero = []
padding start index (suc n) = unreadable_at start index ∷ padding start (suc index) n

unfoldable pub padded : ℤ → ℕ → List DisassembledInstruction → List DisassembledInstruction
unfolding padding
padded start count found = take count (found ++ padding start (length found) (count - length found))

disassembled : ℤ → ℕ → Outcome MiTuple × Manager → Outcome DisassembleResponse × Manager
unfolding padded read_instructions mi_list get
disassembled start count (done r, m) = (
  done (
      instructions (
        padded start count
          (read_instructions (mi_list (get r (codes "asm_insns")) (codes "src_and_asm_line"))))),
  m,
)
disassembled start count (rejected e, m) = (done (disassemble_error 1017 e), m)

unfoldable pub disassemble_command : ℤ → ℕ → Text
unfolding address_at
disassemble_command start count =
    codes "-data-disassemble -s "
    ++ (address_at start 0 ++ (codes " -e " ++ (address_at start count ++ codes " -- 2")))

disassemble_from : Debugger → ℤ → ℕ → Option ℤ → Manager → Outcome DisassembleResponse × Manager
unfolding disassembled send disassemble_command
disassemble_from d offset count none m =
    (done (disassemble_error 1016 (codes "Cannot resolve the disassembly address.")), m)
disassemble_from d offset count (some base) m =
    let start = base +ℤ offset *ℤ pos 4 in
    disassembled start count (send d (disassemble_command start count) m)

-- `disassembleRequest`
unfoldable pub disassemble_request : Debugger → Text → ℤ → ℤ → ℕ → Async Manager DisassembleResponse
unfolding disassemble_from resolve_address_expression
disassemble_request d reference offset instruction_offset count =
    resolve_address_expression d reference offset
    >>= (λ base. disassemble_from d instruction_offset count base)
