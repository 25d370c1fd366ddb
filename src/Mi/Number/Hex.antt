-- ===== src/Mi/Number/Hex.antt =====
-- Hexadecimal numerals: what `toString(16)` prints is read back.
use vscode_cann_debugger.Base.{
  ℕ, zero, suc, ◌/◌, ◌%◌, ◌<◌, ◌≢◌, Option, some, [], ◌∷◌, ◌++◌, ◌≡◌, refl, ap, ◌∙◌, arith, Text,
  codes, ltb, All, Bool-cases, inl, inr, ℤ, pos, true,
}
use vscode_cann_debugger.Mi.CString.{hex_digit}
use vscode_cann_debugger.Mi.Number.{
  hex_number, hex_onto, hex_unit, hexadecimal, hex_part, span_hex, hex_or, leading_integer,
  is_value,
}

pub hex_digit-hex_unit : (d : ℕ) → d < 16 → hex_digit (hex_unit d) ≡ some d
unfolding hex_digit
hex_digit-hex_unit d h = ground arith

hex_number-hex_onto :
    (f n : ℕ) (behind : Text) → n < f → hex_number 0 (hex_onto f n behind) ≡ hex_number n behind
unfolding hex_onto hex_number
hex_number-hex_onto zero n behind h = elim h [ ]
hex_number-hex_onto (suc f) n behind h = ground (
  arith,
  hex_number-hex_onto f (n / 16) (hex_unit (n % 16) ∷ behind),
  hex_digit-hex_unit n,
  hex_digit-hex_unit (n % 16),
)

pub hex_number-hexadecimal : (n : ℕ) → hex_number 0 (hexadecimal n) ≡ n
unfolding hexadecimal hex_number
hex_number-hexadecimal n = hex_number-hex_onto (suc n) n [] (omega arith)

-- Every unit is a hexadecimal digit.
abbrev IsHex : Text → Type 0
IsHex = All (λ c. is_value (hex_digit c) ≡ true)

hex_onto-IsHex : (f n : ℕ) (behind : Text) → IsHex behind → IsHex (hex_onto f n behind)
unfolding hex_onto
hex_onto-IsHex zero n behind h = h
hex_onto-IsHex (suc f) n behind h = elim (Bool-cases (ltb n 16)) [
  | inl small ↦ rw small (rw (hex_digit-hex_unit n (ground arith)) refl, h)
  | inr big ↦ rw big (
      hex_onto-IsHex f (n / 16) (hex_unit (n % 16) ∷ behind)
        (rw (hex_digit-hex_unit (n % 16) (omega arith)) refl, h))
]

hex_onto-ne-nil : (f n : ℕ) (behind : Text) → n < f → hex_onto f n behind ≢ []
unfolding hex_onto
hex_onto-ne-nil zero n behind h = elim h [ ]
hex_onto-ne-nil (suc f) n behind h =
    ground (arith, hex_onto-ne-nil f (n / 16) (hex_unit (n % 16) ∷ behind))

span_hex_all : (t : Text) → IsHex t → span_hex t ≡ (t, [])
unfolding span_hex
span_hex_all [] h = refl
span_hex_all (c ∷ t) (hc, ht) = rw (span_hex_all t ht) (rw hc)

hex_or_lem : (t : Text) (o : Option ℤ) → t ≢ [] → hex_or t o ≡ some (pos (hex_number 0 t))
hex_or_lem [] o h = absurd (h refl)
hex_or_lem (c ∷ t) o h = refl

-- An address that the program prints is read back by its own reader of integers.
pub leading_integer-hexadecimal :
    (n : ℕ) → leading_integer (codes "0x" ++ hexadecimal n) ≡ some (pos n)
unfolding leading_integer hex_part hexadecimal
leading_integer-hexadecimal n = rw (span_hex_all (hexadecimal n) (hex_onto-IsHex (suc n) n [] tt)) (
    hex_or_lem (hexadecimal n) _ (hex_onto-ne-nil (suc n) n [] (omega arith))
    ∙ ap (λ k. some (pos k)) (hex_number-hexadecimal n))
