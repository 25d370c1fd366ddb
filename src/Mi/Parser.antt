-- ===== src/Mi/Parser.antt =====
-- The recursive descent of src/mi/miParser.ts: the class `Parser`. A call of a method takes the
-- text that is left, which stands for the position, and one unit of fuel.
pub mod Fuel
pub mod Grammar
use vscode_cann_debugger.Base.{
  ℕ, zero, suc, ◌+◌, ◌*◌, Bool, true, false, ◌||◌, [], ◌∷◌, ◌++◌, Text, length, ◌==◌, if◌then◌else◌,
}
use vscode_cann_debugger.Mi.Value.{
  MiValue, MiTuple, MiValues, str, tuple, arr, no_fields, field, no_items, add_result, push,
}
use vscode_cann_debugger.Mi.Result.{Result, ok, failed, out_of_fuel, ◌>>=◌}
use vscode_cann_debugger.Mi.CString.{Reading, expect, parse_cstring}

-- `this.peek() === ch`; at the end of the text `peek` is `undefined`.
unfoldable pub peeks : ℕ → Text → Bool
peeks ch [] = false
peeks ch (c ∷ _) = c == ch

unfoldable pub advance : Text → Text
advance [] = []
advance (_ ∷ rest) = rest

-- `parseVariable`: everything up to the first `=`, or up to the end.
unfoldable pub parse_variable : Text → Text × Text
parse_variable [] = ([], [])
parse_variable (c ∷ rest) =
    let (key, left) = parse_variable rest in if c == b'=' then ([], c ∷ rest) else (c ∷ key, left)

-- The loop of `isResultAhead`: is there an `=` before any structural character?
unfoldable pub equals_ahead : Text → Bool
equals_ahead [] = false
equals_ahead (c ∷ rest) =
    if c == b'='
    then true
    else if c == b',' || c == b']' || c == b'}' || c == b'"' || c == b'{' || c == b'['
    then false
    else equals_ahead rest

unfoldable pub is_result_ahead : Text → Bool
is_result_ahead ts =
    if peeks b'"' ts || peeks b'{' ts || peeks b'[' ts then false else equals_ahead ts

-- `parse_fields` and `parse_items` are the `for (;;)` loops of `parseTuple` and `parseList`.
unfoldable mutual
  pub parse_value : ℕ → Text → Reading MiValue
  parse_value zero ts = out_of_fuel
  parse_value (suc f) ts =
      let string = parse_cstring ts >>= λ (s, rest). ok (str s, rest) in
      let object = parse_tuple f ts >>= λ (t, rest). ok (tuple t, rest) in
      let array = parse_list f ts >>= λ (xs, rest). ok (arr xs, rest) in
      if peeks b'"' ts
      then string
      else if peeks b'{' ts
      then object
      else if peeks b'[' ts
      then array
      else failed

  pub parse_result : ℕ → Text → Result (Text × MiValue × Text)
  parse_result zero ts = out_of_fuel
  parse_result (suc f) ts =
      let (key, left) = parse_variable ts in
      expect b'=' left >>= λ behind. parse_value f behind >>= λ (value, rest). ok (key, value, rest)

  pub parse_tuple : ℕ → Text → Reading MiTuple
  parse_tuple zero ts = out_of_fuel
  parse_tuple (suc f) ts = expect b'{' ts >>= λ rest.
      let more = parse_fields f no_fields rest in
      if peeks b'}' rest then ok (no_fields, advance rest) else more

  pub parse_fields : ℕ → MiTuple → Text → Reading MiTuple
  parse_fields zero out ts = out_of_fuel
  parse_fields (suc f) out ts = parse_result f ts >>= λ (key, value, rest).
      let out' = add_result out key value in
      let more = parse_fields f out' (advance rest) in
      let done = expect b'}' rest >>= λ left. ok (out', left) in
      if peeks b',' rest then more else done

  pub parse_list : ℕ → Text → Reading MiValues
  parse_list zero ts = out_of_fuel
  parse_list (suc f) ts = expect b'[' ts >>= λ rest.
      let more = parse_items f no_items rest in
      if peeks b']' rest then ok (no_items, advance rest) else more

  pub parse_items : ℕ → MiValues → Text → Reading MiValues
  parse_items zero out ts = out_of_fuel
  parse_items (suc f) out ts = parse_item f ts >>= λ (value, rest).
      let out' = push out value in
      let more = parse_items f out' (advance rest) in
      let done = expect b']' rest >>= λ left. ok (out', left) in
      if peeks b',' rest then more else done

  -- One element: `{ [key]: value }` for a result, or a plain value.
  pub parse_item : ℕ → Text → Reading MiValue
  parse_item zero ts = out_of_fuel
  parse_item (suc f) ts =
      let keyed =
        parse_result f ts >>= λ (key, value, rest). ok (tuple (field key value no_fields), rest) in
      let plain = parse_value f ts in if is_result_ahead ts then keyed else plain

-- `parseResultList`: results up to the end of the text; anything but a comma behind a result ends
-- the list too.
unfoldable pub result_list_loop : ℕ → ℕ → MiTuple → Text → Result MiTuple
result_list_loop zero depth out ts = out_of_fuel
result_list_loop (suc f) depth out [] = ok out
result_list_loop (suc f) depth out (c ∷ ts) = parse_result depth (c ∷ ts) >>= λ (key, value, rest).
    let out' = add_result out key value in
    let more = result_list_loop f depth out' (advance rest) in
    if peeks b',' rest then more else ok out'

-- Each call of a method that reads no character is followed by one that does.
abbrev pub enough : Text → ℕ
enough ts = 4 * length ts + 8

unfoldable pub parse_result_list : Text → Result MiTuple
parse_result_list ts = result_list_loop (suc (length ts)) (enough ts) no_fields ts
