-- ===== src/Mi/Line.antt =====
-- One line of MI output (src/mi/miParser.ts): `parseMiLine` and the accessors of its results.
pub mod Records
use vscode_cann_debugger.Base.{
  ℕ, ◌+◌, ◌-◌, ◌*◌, Bool, true, false, ◌&&◌, ◌||◌, Option, none, some, List, [], ◌∷◌, Text, codes,
  is_digit, number_from, ◌===◌, trim, leb, ◌==◌, if◌then◌else◌,
}
use vscode_cann_debugger.Mi.Value.{MiTuple, no_fields}
use vscode_cann_debugger.Mi.Result.{Result, ok, failed, out_of_fuel}
use vscode_cann_debugger.Mi.CString.{Reading, parse_cstring}
use vscode_cann_debugger.Mi.Parser.{parse_result_list}

pub data MiRecordType : Type 0 where
  result exec_async status_async notify_async : MiRecordType
  console_stream target_stream log_stream prompt unknown : MiRecordType

-- `none` is a field that the record lacks.
pub record MiRecord : Type 0 where
  pub type : MiRecordType
  pub token : Option ℕ
  pub class : Option Text
  pub results : MiTuple
  pub text : Option Text
  pub raw : Text

-- `line.replace(/\r$/, '')`
unfoldable pub drop_return : Text → Text
drop_return [] = []
drop_return (c ∷ []) = if c == 13 then [] else c ∷ []
drop_return (c ∷ d ∷ t) = c ∷ drop_return (d ∷ t)

-- The leading digits and what stands behind them.
unfoldable pub span_digits : Text → Text × Text
unfolding is_digit
span_digits [] = ([], [])
span_digits (c ∷ t) =
    let (ds, rest) = span_digits t in if is_digit c then (c ∷ ds, rest) else ([], c ∷ t)

-- The token is a `Number`, exact in the program below 2 ^ 53.
unfoldable pub token_of : Text → Option ℕ
unfolding number_from
token_of [] = none
token_of (c ∷ t) = some (number_from 0 (c ∷ t))

-- The record type of a marker; `none` is the switch's default.
unfoldable pub marker_type : ℕ → Option MiRecordType
marker_type c =
    if c == b'^'
    then some result
    else if c == b'*'
    then some exec_async
    else if c == b'+'
    then some status_async
    else if c == b'='
    then some notify_async
    else if c == b'~'
    then some console_stream
    else if c == b'@'
    then some target_stream
    else if c == b'&'
    then some log_stream
    else none

unfoldable pub is_stream : MiRecordType → Bool
is_stream console_stream = true
is_stream target_stream = true
is_stream log_stream = true
is_stream _ = false

-- The class word, and the text behind the comma if there is one.
unfoldable pub span_class : Text → Text × Option Text
span_class [] = ([], none)
span_class (c ∷ t) =
    let (word, rest) = span_class t in if c == b',' then ([], some t) else (c ∷ word, rest)

-- What `catch` gives where the parser throws. The fuel never runs out (Parser/Fuel).
unfoldable pub stream_text : Text → Reading Text → Text
stream_text ts (ok (s, _)) = s
stream_text ts failed = ts
stream_text ts out_of_fuel = ts

unfoldable pub caught : Result MiTuple → MiTuple
caught (ok t) = t
caught failed = no_fields
caught out_of_fuel = no_fields

unfoldable pub results_of : Option Text → MiTuple
unfolding caught
results_of none = no_fields
results_of (some ts) = caught (parse_result_list ts)

unfoldable pub bare_record : MiRecordType → Text → MiRecord
bare_record t line = record {
  type = t;
  token = none;
  class = none;
  results = no_fields;
  text = none;
  raw = line;
}

unfoldable pub stream_record : MiRecordType → Text → Text → MiRecord
unfolding stream_text bare_record
stream_record t rest line = record (bare_record t line) {
  text = some (stream_text rest (parse_cstring rest));
}

unfoldable pub class_record : MiRecordType → Option ℕ → Text → Text → MiRecord
unfolding results_of bare_record
class_record t token rest line =
    let (word, behind) = span_class rest in
    record (bare_record t line) {
      token = token;
      class = some (trim word);
      results = results_of behind;
    }

-- The part behind the token: a marker and its record, or no MI at all.
unfoldable pub marked_record : Option MiRecordType → Option ℕ → Text → Text → MiRecord
unfolding stream_record class_record bare_record
marked_record none token rest line = bare_record unknown line
marked_record (some t) token rest line =
    if is_stream t then stream_record t rest line else class_record t token rest line

unfoldable pub parse_behind_token : Option ℕ → Text → Text → MiRecord
unfolding marked_record
parse_behind_token token [] line = bare_record unknown line
parse_behind_token token (c ∷ rest) line = marked_record (marker_type c) token rest line

unfoldable pub parse_mi_line : Text → MiRecord
unfolding parse_behind_token
parse_mi_line line =
    let text = drop_return line in
    let (ds, rest) = span_digits text in
    if text === codes "(gdb)" || text === codes "(gdb) "
    then bare_record prompt line
    else parse_behind_token (token_of ds) rest line
