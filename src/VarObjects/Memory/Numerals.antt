-- ===== src/VarObjects/Memory/Numerals.antt =====
-- Numerals of the memory commands of src/varObjects.ts: addresses and bytes read back.
use vscode_cann_debugger.Base.{
  ℕ, ◌/◌, ◌%◌, ◌<◌, List, [], ◌∷◌, ◌++◌, ◌≡◌, refl, ap, arith, Text, All,
}
use vscode_cann_debugger.Mi.Number.{hex_unit}
use vscode_cann_debugger.Mi.Number.Hex.{hex_digit-hex_unit}
use vscode_cann_debugger.VarObjects.Manager.{Manager}
use vscode_cann_debugger.VarObjects.Memory.{bytes_of_hex, pair_onto}

-- A byte in two hexadecimal digits, as the debugger writes memory.
abbrev pub hex_byte : ℕ → Text
hex_byte b = hex_unit (b / 16) ∷ hex_unit (b % 16) ∷ []

abbrev pub hex_bytes : List ℕ → Text
hex_bytes [] = []
hex_bytes (b ∷ bs) = hex_byte b ++ hex_bytes bs

pub bytes_of_hex-hex_bytes :
    (bs : List ℕ) → All (λ b. b < 256) bs → bytes_of_hex (hex_bytes bs) ≡ bs
unfolding bytes_of_hex pair_onto
bytes_of_hex-hex_bytes [] h = refl
bytes_of_hex-hex_bytes (b ∷ bs) h = rw (hex_digit-hex_unit (b / 16) (ground (arith, h.0))) (
    rw (hex_digit-hex_unit (b % 16) (omega arith))
      (rw (bytes_of_hex-hex_bytes bs h.1) (ap (λ x. x ∷ bs) (omega arith))))
