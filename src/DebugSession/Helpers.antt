-- ===== src/DebugSession/Helpers.antt =====
-- The module-level helpers of src/ascendDebugSession.ts, and `resolveAddressExpression`.
pub mod Resolved
use vscode_cann_debugger.Base.{
  ℕ, zero, suc, ◌+◌, ◌-◌, ◌*◌, Bool, true, false, not, ◌&&◌, ◌||◌, Option, none, some, List, [],
  ◌∷◌, ◌++◌, Text, codes, ◌===◌, ltb, ◌==◌, if◌then◌else◌, is_digit, is_space, trim, number_from,
  span, past, is_present, ℤ, pos, negsuc, ◌+ℤ◌,
}
use vscode_cann_debugger.Mi.Value.{MiValue, MiTuple, get, mi_string, mi_tuple, mi_array, tuples_of}
use vscode_cann_debugger.Mi.CString.{quote_mi_string}
use vscode_cann_debugger.Mi.Number.{span_hex, hex_number, hex_part, hex_or}
use vscode_cann_debugger.Mi.Line.{span_digits}
use vscode_cann_debugger.Registers.{lower_case}
use vscode_cann_debugger.VarObjects.Manager.{
  Debugger, Manager, Async, ◌>>=◌, return, or_caught, send, text_of,
}

-- `mapStopReason`
unfoldable pub map_stop_reason : Text → Text
unfolding ◌===◌
map_stop_reason reason =
    if reason === codes "breakpoint-hit"
    then codes "breakpoint"
    else if reason === codes "watchpoint-trigger"
        || reason === codes "read-watchpoint-trigger"
        || reason === codes "access-watchpoint-trigger"
    then codes "data breakpoint"
    else if reason === codes "end-stepping-range" || reason === codes "function-finished"
    then codes "step"
    else if reason === codes "signal-received"
    then codes "exception"
    else if reason === codes "solib-event" || reason === []
    then codes "pause"
    else reason

abbrev is_location : Text → Bool
is_location [] = false
is_location (c ∷ addr) = not ((c ∷ addr) === codes "<PENDING>")

-- `isVerified`
unfoldable pub is_verified : MiTuple → Bool
unfolding text_of ◌===◌
is_verified bkpt = is_location (text_of bkpt (codes "addr"))

abbrev head_of {ℓ} : {A : Type ℓ} → List A → Option A
head_of [] = none
head_of (x ∷ xs) = some x

first_among : Option MiTuple → List MiTuple → Option MiTuple
first_among (some t) ts = some t
first_among none ts = head_of ts

-- `firstTuple`
unfoldable pub first_tuple : Option MiValue → Option MiTuple
unfolding first_among mi_tuple mi_array tuples_of
first_tuple v = first_among (mi_tuple v) (tuples_of (mi_array v))

-- A literal anywhere in a text.
unfoldable pub contains : Text → Text → Bool
unfolding past
contains w [] = is_present (past w [])
contains w (c ∷ t) = is_present (past w (c ∷ t)) || contains w t

some_contained : List Text → Text → Bool
unfolding contains
some_contained [] t = false
some_contained (w ∷ ws) t = contains w t || some_contained ws t

abbrev unsupported_words : List Text
unsupported_words =
    codes "undefined mi command"
    ∷ codes "unrecognized"
    ∷ codes "not implemented"
    ∷ codes "unknown command"
    ∷ codes "invalid command"
    ∷ []

-- `isUnsupportedCommand`, of the error's message.
unfoldable pub is_unsupported_command : Text → Bool
unfolding some_contained lower_case
is_unsupported_command message = some_contained unsupported_words (lower_case message)

-- The number of a run of digits with nothing but white space behind it.
whole_address : Text × Text → (Text → ℕ) → Option ℕ
unfolding trim
whole_address ([], rest) value = none
whole_address (c ∷ ds, rest) value = if trim rest === [] then some (value (c ∷ ds)) else none

address_behind_spaces : Text → Option ℕ
unfolding whole_address span_hex span_digits hex_number number_from ◌===◌
address_behind_spaces (z ∷ x ∷ t) =
    if z == b'0' && (x == b'x' || x == b'X')
    then whole_address (span_hex t) (hex_number 0)
    else whole_address (span_digits (z ∷ x ∷ t)) (number_from 0)
address_behind_spaces t = whole_address (span_digits t) (number_from 0)

-- `parseAddress`; an absent text is the empty one.
unfoldable pub parse_address : Text → Option ℕ
unfolding address_behind_spaces span is_space
parse_address text = address_behind_spaces (span is_space text).1

-- The first run of digits, and whether only white space stands around it.
first_digits : Text → Text
unfolding span_digits is_digit
first_digits [] = []
first_digits (c ∷ t) =
    let rest = first_digits t in if is_digit c then (span_digits (c ∷ t)).0 else rest

starts_bound : Text → Bool
starts_bound [] = false
starts_bound (c ∷ t) = c == b'>' || c == b'='

abbrev is_empty_text : Text → Bool
is_empty_text [] = true
is_empty_text (c ∷ t) = false

only_digits : Text × Text → Bool
unfolding trim
only_digits ([], rest) = false
only_digits (c ∷ ds, rest) = is_empty_text (trim rest)

counts_hit : Text → Bool
unfolding starts_bound only_digits span_digits span is_space
counts_hit condition =
    let t = (span is_space condition).1 in starts_bound t || only_digits (span_digits t)

hit_count : Text → Text → Option ℕ
unfolding number_from counts_hit
hit_count condition [] = none
hit_count condition (c ∷ ds) =
    let n = number_from 0 (c ∷ ds) in
    if n == 0 then none else some (if counts_hit condition then n - 1 else n)

-- `parseHitCondition`; an absent condition is the empty one.
unfoldable pub parse_hit_condition : Text → Option ℕ
unfolding hit_count first_digits
parse_hit_condition condition = hit_count condition (first_digits condition)

-- `/^(0x[0-9a-fA-F]+|\d+)/` and `BigInt` of what it takes.
digits_number : Text → Option ℤ
unfolding number_from
digits_number [] = none
digits_number (c ∷ ds) = some (pos (number_from 0 (c ∷ ds)))

unfoldable pub leading_address : Text → Option ℤ
unfolding digits_number hex_part hex_number span_digits
leading_address t = hex_or (hex_part t) (digits_number (span_digits t).0)

abbrev offset_by : Option ℤ → ℤ → Option ℤ
offset_by none offset = none
offset_by (some a) offset = some (a +ℤ offset)

evaluate_address : Debugger → Text → ℤ → Async Manager (Option ℤ)
unfolding send text_of trim leading_address quote_mi_string
evaluate_address d reference offset =
    or_caught
      (send d (
          codes "-data-evaluate-expression "
          ++ quote_mi_string (codes "(unsigned long long)(" ++ (reference ++ codes ")")))
        >>= (λ r. return (offset_by (leading_address (trim (text_of r (codes "value")))) offset)))
      none

address_or_evaluated : Debugger → Text → ℤ → Option ℕ → Async Manager (Option ℤ)
unfolding evaluate_address
address_or_evaluated d reference offset (some literal) = return (some (pos literal +ℤ offset))
address_or_evaluated d reference offset none = evaluate_address d reference offset

-- `resolveAddressExpression`
unfoldable pub resolve_address_expression : Debugger → Text → ℤ → Async Manager (Option ℤ)
unfolding address_or_evaluated parse_address
resolve_address_expression d reference offset =
    address_or_evaluated d reference offset (parse_address reference)
