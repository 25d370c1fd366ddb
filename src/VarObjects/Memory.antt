-- ===== src/VarObjects/Memory.antt =====
-- Evaluation, memory and addresses: `evaluateInteger`, `readMemoryBytes` and `resolveMemoryAddress`
-- of src/varObjects.ts. Bytes are numbers below 256.
pub mod Numerals
use vscode_cann_debugger.Base.{
  ℕ, zero, suc, ◌+◌, ◌*◌, Bool, ◌||◌, Option, none, some, List, [], ◌∷◌, ◌++◌, Text, codes, decimal,
  trim, ℤ, pos, take, if◌then◌else◌,
}
use vscode_cann_debugger.Mi.Value.{MiTuple, get, mi_list}
use vscode_cann_debugger.Mi.CString.{hex_digit, quote_mi_string}
use vscode_cann_debugger.Mi.Number.{leading_integer, hexadecimal_ℤ}
use vscode_cann_debugger.VarObjects.Manager.{
  Debugger, Manager, Outcome, Async, ◌>>=◌, return, or_caught, send, text_of,
}
use vscode_cann_debugger.VarObjects.Types.{TypeShape}

unfoldable pub evaluate_command : Text → ℕ → ℕ → Text
unfolding decimal quote_mi_string
evaluate_command expression thread level =
    codes "-data-evaluate-expression --thread "
    ++ (decimal thread
        ++ (codes " --frame " ++ (decimal level ++ (codes " " ++ quote_mi_string expression))))

-- The leading number of the value, behind which a symbol may stand.
unfoldable pub integer_in : MiTuple → Option ℤ
unfolding text_of trim leading_integer
integer_in results = leading_integer (trim (text_of results (codes "value")))

unfoldable pub evaluate_integer : Debugger → Text → ℕ → ℕ → Async Manager (Option ℤ)
unfolding send evaluate_command integer_in
evaluate_integer d [] thread level = return none
evaluate_integer d (c ∷ expression) thread level =
    or_caught
      (send d (evaluate_command (c ∷ expression) thread level) >>= (λ r. return (integer_in r)))
      none

-- The concatenated contents of the blocks.
unfoldable pub contents : List MiTuple → Text
unfolding text_of
contents [] = []
contents (block ∷ blocks) = text_of block (codes "contents") ++ contents blocks

-- `Buffer.from(hex, 'hex')`: pairs of digits up to the first that is none.
pair_onto : Option ℕ → Option ℕ → List ℕ → List ℕ
pair_onto (some a) (some b) rest = (a * 16 + b) ∷ rest
pair_onto a b rest = []

unfoldable pub bytes_of_hex : Text → List ℕ
unfolding hex_digit pair_onto
bytes_of_hex [] = []
bytes_of_hex (c ∷ []) = []
bytes_of_hex (c ∷ e ∷ t) = pair_onto (hex_digit c) (hex_digit e) (bytes_of_hex t)

unfoldable pub bytes_in : Text → ℕ → Option (List ℕ)
unfolding bytes_of_hex
bytes_in [] count = none
bytes_in (c ∷ hex) count = some (take count (bytes_of_hex (c ∷ hex)))

unfoldable pub read_command : ℤ → ℕ → Text
unfolding hexadecimal_ℤ decimal
read_command address count =
    codes "-data-read-memory-bytes 0x" ++ (hexadecimal_ℤ address ++ (codes " " ++ decimal count))

-- The bytes in the blocks of the answer.
unfoldable pub memory_in : ℕ → MiTuple → Option (List ℕ)
unfolding bytes_in contents mi_list get
memory_in count r = bytes_in (contents (mi_list (get r (codes "memory")) (codes "memory"))) count

unfoldable pub read_memory_bytes : Debugger → ℤ → ℕ → Async Manager (Option (List ℕ))
unfolding send read_command memory_in
read_memory_bytes d address zero = return (some [])
read_memory_bytes d address (suc n) =
    or_caught (send d (read_command address (suc n)) >>= (λ r. return (memory_in (suc n) r))) none

unfoldable pub address_expression : Text → TypeShape → Text
address_expression expression shape =
    if shape.is_pointer || shape.is_array
    then codes "(unsigned long long)(" ++ (expression ++ codes ")")
    else codes "(unsigned long long)&(" ++ (expression ++ codes ")")

-- `0x${value.toString(16)}`, but for a value that is missing or zero.
unfoldable pub memory_reference : Option ℤ → Option Text
unfolding hexadecimal_ℤ
memory_reference none = none
memory_reference (some (pos zero)) = none
memory_reference (some n) = some (codes "0x" ++ hexadecimal_ℤ n)

unfoldable pub resolve_memory_address :
    Debugger → Text → TypeShape → ℕ → ℕ → Async Manager (Option Text)
unfolding evaluate_integer address_expression memory_reference
resolve_memory_address d [] shape thread level = return none
resolve_memory_address d (c ∷ expression) shape thread level =
    evaluate_integer d (address_expression (c ∷ expression) shape) thread level
    >>= (λ value. return (memory_reference value))
