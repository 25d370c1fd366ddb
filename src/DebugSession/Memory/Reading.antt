-- ===== src/DebugSession/Memory/Reading.antt =====
-- `readMemoryRequest` of src/ascendDebugSession.ts: what the Hex Editor is shown.
use vscode_cann_debugger.Base.{ℕ, zero, suc, ◌+◌, ◌⊎◌, List, [], ◌∷◌, ◌++◌, Text, codes, All, ◌≡◌}
use vscode_cann_debugger.Mi.Value.{MiTuple, get, mi_list}
use vscode_cann_debugger.Mi.Number.{hexadecimal}
use vscode_cann_debugger.VarObjects.Manager.{done, Debugger, Manager}
use vscode_cann_debugger.VarObjects.Memory.Numerals.{hex_bytes}
use vscode_cann_debugger.DebugSession.Memory.{
  MemoryResponse, memory, memory_error, MemoryBlock, blocks_of,
}

-- The bytes of a memory from an address on.
unfoldable pub cells : (ℕ → ℕ) → ℕ → ℕ → List ℕ
cells at a zero = []
cells at a (suc n) = at a ∷ cells at (suc a) n

-- The block holds what the memory has from its beginning to its end.
abbrev pub IsTruthful : (ℕ → ℕ) → MemoryBlock → Type 0
IsTruthful at b = (n : ℕ) × (b.contents ≡ hex_bytes (cells at b.begin n)) × (b.end ≡ b.begin + n)

-- What the Hex Editor is shown of a memory: bytes of it from some address on, and the number of
-- those that are missing of the count.
unfoldable pub Shows : (ℕ → ℕ) → ℕ → MemoryResponse → Type 0
Shows at count (memory address bytes missing) =
    (first k : ℕ) × (bytes ≡ cells at first k)
    × ((k ≡ 0) ⊎ (address ≡ codes "0x" ++ hexadecimal first))
    × (k + missing ≡ count)
Shows at count (memory_error id message) = Unit

-- Every block of memory in an answer of the debugger holds what the memory has there.
abbrev pub AnswersTruly : Debugger → (ℕ → ℕ) → Type 0
AnswersTruly d at =
    (sent : List Text) (command : Text) (r : MiTuple)
    → d.reply sent command ≡ done r
    → All (IsTruthful at) (blocks_of (mi_list (get r (codes "memory")) (codes "memory")))
