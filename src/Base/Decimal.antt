-- ===== src/Base/Decimal.antt =====
-- Natural numbers in decimal, as template literals and `Number` write and read them.
use mathlib.Core.Path.{◌≡◌}
use mathlib.Core.Logic.{◌≢◌, inl, inr}
use mathlib.Core.Bool.{Bool, true, ◌&&◌}
use mathlib.Core.List.{[], ◌∷◌}
use Prim.Native.Nat.{ℕ, zero, suc, ◌+◌, ◌-◌, ◌*◌, ◌/◌, ◌%◌, ◌<◌}
use native.Mathlib.Omega.{arith}
use vscode_cann_debugger.Base.Tests.{ltb, leb, if◌then◌else◌, Bool-cases}
use vscode_cann_debugger.Base.Lists.{All}
use vscode_cann_debugger.Base.Strings.{Text}

unfoldable pub is_digit : ℕ → Bool
is_digit c = leb b'0' c && leb c b'9'

-- `Number` of a text of digits, read on from `acc`; exact in the program below 2 ^ 53.
unfoldable pub number_from : ℕ → Text → ℕ
number_from acc [] = acc
number_from acc (c ∷ t) = number_from (acc * 10 + (c - b'0')) t

-- The digits of `n` in front of `behind`; `n + 1` is fuel enough.
unfoldable pub digits_onto : ℕ → ℕ → Text → Text
digits_onto zero n behind = behind
digits_onto (suc f) n behind =
    let more = digits_onto f (n / 10) ((b'0' + n % 10) ∷ behind) in
    if ltb n 10 then (b'0' + n) ∷ behind else more

-- `String(n)`, and `${n}` in a template.
unfoldable pub decimal : ℕ → Text
unfolding digits_onto
decimal n = digits_onto (suc n) n []

abbrev pub IsDigits : Text → Type 0
IsDigits = All (λ c. is_digit c ≡ true)

number_from-digits_onto :
    (f n : ℕ) (behind : Text)
    → n < f
    → number_from 0 (digits_onto f n behind) ≡ number_from n behind
unfolding digits_onto number_from
number_from-digits_onto zero n behind h = elim h [ ]
number_from-digits_onto (suc f) n behind h =
    ground (arith, number_from-digits_onto f (n / 10) ((b'0' + n % 10) ∷ behind))

-- A printed number reads back.
pub number_from-decimal : (n : ℕ) → number_from 0 (decimal n) ≡ n
unfolding decimal number_from
number_from-decimal n = number_from-digits_onto (suc n) n [] (omega arith)

digits_onto-IsDigits :
    (f n : ℕ) (behind : Text) → IsDigits behind → IsDigits (digits_onto f n behind)
unfolding digits_onto
digits_onto-IsDigits zero n behind h = h
digits_onto-IsDigits (suc f) n behind h = elim (Bool-cases (ltb n 10)) [
  | inl small ↦ rw small (digit n small, h)
  | inr big ↦ rw big (digits_onto-IsDigits f (n / 10) ((b'0' + n % 10) ∷ behind) (last_digit n, h))
]
  where
    digit : (n : ℕ) → ltb n 10 ≡ true → is_digit (b'0' + n) ≡ true
    digit n s = unfold is_digit in ground arith

    last_digit : (n : ℕ) → is_digit (b'0' + n % 10) ≡ true
    last_digit n = unfold is_digit in ground arith

pub decimal-IsDigits : (n : ℕ) → IsDigits (decimal n)
unfolding decimal
decimal-IsDigits n = digits_onto-IsDigits (suc n) n [] tt

digits_onto-ne-nil : (f n : ℕ) (behind : Text) → n < f → digits_onto f n behind ≢ []
unfolding digits_onto
digits_onto-ne-nil zero n behind h = elim h [ ]
digits_onto-ne-nil (suc f) n behind h =
    ground (arith, digits_onto-ne-nil f (n / 10) ((b'0' + n % 10) ∷ behind))

pub decimal-ne-nil : (n : ℕ) → decimal n ≢ []
unfolding decimal
decimal-ne-nil n = digits_onto-ne-nil (suc n) n [] (omega arith)
