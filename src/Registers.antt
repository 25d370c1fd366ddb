-- ===== src/Registers.antt =====
-- Register grouping and rendering: src/registers.ts.
pub mod Groups
pub mod Values
pub mod Binding
mod Tests
use vscode_cann_debugger.Base.{
  ℕ, zero, suc, ◌+◌, ◌-◌, ◌*◌, Bool, true, false, ◌&&◌, ◌||◌, Option, none, some, List, [], ◌∷◌,
  ◌++◌, Text, codes, ◌===◌, trim, decimal, is_digit, length, ltb, leb, ◌==◌, if◌then◌else◌,
}
use vscode_cann_debugger.Mi.CString.{hex_digit}
use vscode_cann_debugger.Mi.Number.{hex_number}
use vscode_cann_debugger.Launch.Shell.{join}

pub data RegisterGroup : Type 0 where
  vector scalar system : RegisterGroup

-- `toLowerCase` of a code unit, which is all that a comparison with ASCII names needs: the two
-- other characters whose lower case is ASCII are not in any of the names.
unfoldable pub lower : ℕ → ℕ
lower c = if leb b'A' c && leb c b'Z' then c + 32 else c

unfoldable pub lower_case : Text → Text
unfolding lower
lower_case [] = []
lower_case (c ∷ t) = lower c ∷ lower_case t

one_of : ℕ → Text → Bool
one_of c [] = false
one_of c (x ∷ xs) = c == x || one_of c xs

all_units : (ℕ → Bool) → Text → Bool
all_units test [] = true
all_units test (c ∷ t) = test c && all_units test t

some_units : (ℕ → Bool) → Text → Bool
unfolding all_units
some_units test [] = false
some_units test (c ∷ t) = test c && all_units test t

-- `/^(?:a|b|c)\d+$/i` for the letters `heads`, in lower case.
unfoldable pub is_numbered : Text → Text → Bool
unfolding lower one_of some_units
is_numbered heads [] = false
is_numbered heads (c ∷ t) = one_of (lower c) heads && some_units is_digit t

has_name : Text → List Text → Bool
has_name name [] = false
has_name name (n ∷ ns) = name === n || has_name name ns

abbrev scalar_named : List Text
scalar_named = codes "sp" ∷ codes "fp" ∷ codes "lr" ∷ codes "xzr" ∷ codes "wzr" ∷ codes "ra" ∷ []

category : Text → RegisterGroup
unfolding is_numbered has_name lower_case
category bare =
    if is_numbered (codes "vqz") bare
    then vector
    else if is_numbered (codes "xwsr") bare || has_name (lower_case bare) scalar_named
    then scalar
    else system

unfoldable pub categorize_register : Text → RegisterGroup
unfolding category trim
categorize_register name = category (trim name)

-- The map of `groupRegisters`: its three keys are set before the loop.
pub record RegisterGroups : Type 0 where
  pub vector_names : List Text
  pub scalar_names : List Text
  pub system_names : List Text

-- `groups.get(group)!.push(name)`.
push_name : RegisterGroup → Text → RegisterGroups → RegisterGroups
push_name vector name g = record g { vector_names = g.vector_names ++ name ∷ [] }
push_name scalar name g = record g { scalar_names = g.scalar_names ++ name ∷ [] }
push_name system name g = record g { system_names = g.system_names ++ name ∷ [] }

grouped : List Text → RegisterGroups → RegisterGroups
unfolding push_name categorize_register
grouped [] g = g
grouped ([] ∷ names) g = grouped names g
grouped ((c ∷ t) ∷ names) g = grouped names (push_name (categorize_register (c ∷ t)) (c ∷ t) g)

unfoldable pub group_registers : List Text → RegisterGroups
unfolding grouped
group_registers names =
    grouped names (record { vector_names = []; scalar_names = []; system_names = [] })

unfoldable pub annotate_register_value : Text → List Text → Text
unfolding join
annotate_register_value value [] = value
annotate_register_value value (s ∷ symbols) =
    value ++ codes " [mapped to: " ++ join (codes ", ") (s ∷ symbols) ++ codes "]"

is_hex : ℕ → Bool
unfolding hex_digit
is_hex c = elim (hex_digit c) [ none ↦ false | some d ↦ true ]

-- `/^0x([0-9a-fA-F]+)$/`.
unfoldable pub hex_digits : Text → Option Text
unfolding is_hex some_units
hex_digits (z ∷ x ∷ t) = if z == b'0' && x == b'x' && some_units is_hex t then some t else none
hex_digits _ = none

unfoldable pub upper : ℕ → ℕ
upper c = if leb b'a' c && leb c b'z' then c - 32 else c

-- `toUpperCase` of hexadecimal digits.
unfoldable pub upper_case : Text → Text
unfolding upper
upper_case [] = []
upper_case (c ∷ t) = upper c ∷ upper_case t

zeros : ℕ → Text → Text
zeros zero t = t
zeros (suc n) t = b'0' ∷ zeros n t

-- `digits.padStart(width, '0')`.
unfoldable pub pad_start : ℕ → Text → Text
unfolding zeros
pad_start width t = zeros (width - length t) t

abbrev hex_width : Text → ℕ
hex_width digits = if ltb 8 (length digits) then 16 else 8

in_both_bases : Text → Text
unfolding pad_start upper_case hex_number decimal
in_both_bases digits =
    codes "0x"
    ++ pad_start (hex_width digits) (upper_case digits)
    ++ codes " ("
    ++ decimal (hex_number 0 digits)
    ++ codes ")"

shown_as : Text → Option Text → Text
unfolding in_both_bases upper_case
shown_as text none = text
shown_as text (some digits) =
    if ltb 16 (length digits) then codes "0x" ++ upper_case digits else in_both_bases digits

unfoldable pub format_register_value : Text → Text
unfolding hex_digits trim shown_as
format_register_value raw = let text = trim raw in shown_as text (hex_digits text)

was_mark : Text → Option Text → Text
unfolding ◌===◌
was_mark raw none = []
was_mark raw (some was) = if was === raw then [] else codes " [was " ++ was ++ codes "]"

unfoldable pub render_register_value : Text → Option Text → List Text → Text
unfolding was_mark format_register_value annotate_register_value
render_register_value raw was symbols =
    annotate_register_value (format_register_value raw ++ was_mark raw was) symbols
