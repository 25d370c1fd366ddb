-- ===== src/Mi/Line/Records.antt =====
-- What `parseMiLine` makes of a line: of a sentence of the grammar, and of one that does not parse.
use vscode_cann_debugger.Base.{
  ℕ, zero, suc, ◌+◌, ◌*◌, ◌<◌, true, false, ◌||◌, Option, none, some, [], ◌∷◌, ◌++◌, ◌≡◌, ◌≢◌, refl,
  ◌∙◌, arith, Text, codes, is_digit, IsDigits, ◌===◌, trim, length, All, Bool-cases, inl, inr,
}
use vscode_cann_debugger.Mi.Value.{MiValue, MiTuple, no_fields, add_result}
use vscode_cann_debugger.Mi.Result.{ok}
use vscode_cann_debugger.Mi.CString.{quote_mi_string}
use vscode_cann_debugger.Mi.CString.Spelling.{parse_cstring-quote_mi_string}
use vscode_cann_debugger.Mi.Parser.{
  peeks, advance, parse_result, result_list_loop, parse_result_list,
}
use vscode_cann_debugger.Mi.Parser.Grammar.{
  Results, last_result, result as result_then, emit, emit_results, denote, denote_fields, lengths,
}
use vscode_cann_debugger.Mi.Parser.Grammar.Reads.{read_sentence, read_last_sentence}
use vscode_cann_debugger.Mi.Line.{
  MiRecordType, MiRecord, drop_return, span_digits, token_of, marker_type, is_stream, span_class,
  caught, stream_text, parse_mi_line, parse_behind_token, marked_record, class_record,
  stream_record, bare_record, results_of, unknown, prompt,
}

loop_last :
    (f depth : ℕ) (out : MiTuple) (ts : Text) {k : Text} {v : MiValue}
    → 0 < length ts
    → parse_result depth ts ≡ ok (k, v, [])
    → result_list_loop (suc f) depth out ts ≡ ok (add_result out k v)
unfolding result_list_loop peeks
loop_last f depth out [] l e = absurd (omega arith)
loop_last f depth out (c ∷ ts) l e = rw e

loop_more :
    (f depth : ℕ) (out : MiTuple) (ts left : Text) {k : Text} {v : MiValue}
    → 0 < length ts
    → parse_result depth ts ≡ ok (k, v, b',' ∷ left)
    → result_list_loop (suc f) depth out ts ≡ result_list_loop f depth (add_result out k v) left
unfolding result_list_loop peeks advance
loop_more f depth out [] left l e = absurd (omega arith)
loop_more f depth out (c ∷ ts) left l e = rw e

result_list_loop-emit_results :
    (rs : Results) (f depth : ℕ) (out : MiTuple)
    → length (emit_results rs) < f
    → 4 * length (emit_results rs) + 2 < depth
    → result_list_loop f depth out (emit_results rs) ≡ ok (denote_fields rs out)
unfolding emit denote
result_list_loop-emit_results rs zero depth out l d = absurd (omega arith)
result_list_loop-emit_results (last_result k h v) (suc f) depth out l d =
    loop_last f depth out _ (omega lengths) (read_last_sentence k h v depth (omega lengths))
result_list_loop-emit_results (result_then k h v rs) (suc f) depth out l d =
    loop_more f depth out _ (emit_results rs) (omega lengths)
      (read_sentence k h v (b',' ∷ emit_results rs) depth (omega lengths))
    ∙ result_list_loop-emit_results rs f depth _ (omega lengths) (omega lengths)

-- A comma-separated list of results is read as the tuple that it denotes, up to the end.
pub parse_result_list-emit_results :
    (rs : Results) → parse_result_list (emit_results rs) ≡ ok (denote_fields rs no_fields)
unfolding parse_result_list
parse_result_list-emit_results rs =
    result_list_loop-emit_results rs _ _ no_fields (omega arith) (omega arith)

abbrev pub IsWord : Text → Type 0
IsWord = All (λ c. c ≢ b',')

marker-not-digit : (c : ℕ) {t : MiRecordType} → marker_type c ≡ some t → is_digit c ≡ false
unfolding marker_type is_digit
marker-not-digit c h = ground arith

pub marker-ne-unknown : (c : ℕ) {t : MiRecordType} → marker_type c ≡ some t → t ≢ unknown
unfolding marker_type
marker-ne-unknown c m u = ground arith

span_digits-IsDigits :
    (ds : Text) (c : ℕ) (rest : Text)
    → IsDigits ds
    → is_digit c ≡ false
    → span_digits (ds ++ c ∷ rest) ≡ (ds, c ∷ rest)
unfolding span_digits
span_digits-IsDigits [] c rest h n = rw n
span_digits-IsDigits (d ∷ ds) c rest h n = rw (h.0, span_digits-IsDigits ds c rest h.1 n)

span_class-IsWord :
    (word rest : Text) → IsWord word → span_class (word ++ b',' ∷ rest) ≡ (word, some rest)
unfolding span_class
span_class-IsWord [] rest h = refl
span_class-IsWord (c ∷ word) rest h = ground (arith, span_class-IsWord word rest h.1)

-- The two spellings of the prompt begin with a parenthesis, and no token and no marker does.
not_prompt :
    (ds : Text) (c : ℕ) (rest : Text) {t : MiRecordType}
    → IsDigits ds
    → marker_type c ≡ some t
    → ((ds ++ c ∷ rest) === codes "(gdb)" || (ds ++ c ∷ rest) === codes "(gdb) ") ≡ false
unfolding ◌===◌ marker_type is_digit
not_prompt [] c rest h m = ground arith
not_prompt (d ∷ ds) c rest h m = ground arith

-- The record of a line that has an optional token, a marker that is no stream's, a class word and a
-- comma: whatever stands behind the comma, the line is never `Unknown`.
pub parse_mi_line-class :
    (line ds word behind : Text) (c : ℕ) {t : MiRecordType}
    → drop_return line ≡ ds ++ c ∷ (word ++ b',' ∷ behind)
    → IsDigits ds
    → marker_type c ≡ some t
    → is_stream t ≡ false
    → IsWord word
    → parse_mi_line line ≡ record {
      type = t;
      token = token_of ds;
      class = some (trim word);
      results = caught (parse_result_list behind);
      text = none;
      raw = line;
    }
unfolding parse_mi_line class_record bare_record results_of
parse_mi_line-class line ds word behind c e h m s w = rw e (
    rw (not_prompt ds c _ h m) (
      rw (span_digits-IsDigits ds c _ h (marker-not-digit c m))
        (rw (m, s) (rw (span_class-IsWord word behind w)))))

span_class-alone : (word : Text) → IsWord word → span_class word ≡ (word, none)
unfolding span_class
span_class-alone [] h = refl
span_class-alone (c ∷ word) h = ground (arith, span_class-alone word h.1)

-- The part behind the token and the marker alone makes the record.
pub parse_mi_line-marked :
    (line ds behind : Text) (c : ℕ) {t : MiRecordType}
    → drop_return line ≡ ds ++ c ∷ behind
    → IsDigits ds
    → marker_type c ≡ some t
    → parse_mi_line line ≡ marked_record (some t) (token_of ds) behind line
unfolding parse_mi_line
parse_mi_line-marked line ds behind c e h m = rw e (
    rw (not_prompt ds c behind h m)
      (rw (span_digits-IsDigits ds c behind h (marker-not-digit c m)) (rw m refl)))

-- A line with a class word and nothing behind it has no results.
pub parse_mi_line-alone :
    (line ds word : Text) (c : ℕ) {t : MiRecordType}
    → drop_return line ≡ ds ++ c ∷ word
    → IsDigits ds
    → marker_type c ≡ some t
    → is_stream t ≡ false
    → IsWord word
    → parse_mi_line line ≡ record {
      type = t;
      token = token_of ds;
      class = some (trim word);
      results = no_fields;
      text = none;
      raw = line;
    }
unfolding marked_record class_record bare_record results_of
parse_mi_line-alone line ds word c e h m s w =
    parse_mi_line-marked line ds word c e h m ∙ rw s (rw (span_class-alone word w) refl)

-- A result or async line whose payload is a sentence of the grammar, with an optional token in
-- front and an optional return at its end, gives the record of that token, class and payload.
pub parse_mi_line-sentence :
    (line ds word : Text) (c : ℕ) (rs : Results) {t : MiRecordType}
    → drop_return line ≡ ds ++ c ∷ (word ++ b',' ∷ emit_results rs)
    → IsDigits ds
    → marker_type c ≡ some t
    → is_stream t ≡ false
    → IsWord word
    → parse_mi_line line ≡ record {
      type = t;
      token = token_of ds;
      class = some (trim word);
      results = denote_fields rs no_fields;
      text = none;
      raw = line;
    }
unfolding caught
parse_mi_line-sentence line ds word c rs e h m s w =
    parse_mi_line-class line ds word (emit_results rs) c e h m s w
    ∙ rw (parse_result_list-emit_results rs)

-- A stream record carries the text that the debugger quoted, whatever it holds.
parse_mi_line-stream :
    (line text rest : Text) (c : ℕ) {t : MiRecordType}
    → drop_return line ≡ c ∷ (quote_mi_string text ++ rest)
    → marker_type c ≡ some t
    → is_stream t ≡ true
    → parse_mi_line line ≡ record {
      type = t;
      token = none;
      class = none;
      results = no_fields;
      text = some text;
      raw = line;
    }
unfolding parse_mi_line stream_record bare_record stream_text
parse_mi_line-stream line text rest c e m s = rw e (
    rw (not_prompt [] c _ tt m) (
      rw (span_digits-IsDigits [] c _ tt (marker-not-digit c m))
        (rw (m, s) (rw (parse_cstring-quote_mi_string text rest)))))

-- What every record has, whichever way its line was read.
pub record IsFaithful (line : Text) (r : MiRecord) : Type 0 where
  pub raw_is : r.raw ≡ line
  pub text_of_stream : is_stream r.type ≡ false → r.text ≡ none
  pub stream_has_text : is_stream r.type ≡ true → r.text ≢ none
  pub class_of_stream : is_stream r.type ≡ true → (r.class ≡ none) × (r.results ≡ no_fields)
  pub unknown_is_bare : r.type ≡ unknown → r ≡ bare_record unknown line

marked_record-IsFaithful :
    (o : Option MiRecordType) (token : Option ℕ) (rest line : Text)
    → ((t : MiRecordType) → o ≡ some t → t ≢ unknown)
    → IsFaithful line (marked_record o token rest line)
unfolding marked_record stream_record class_record bare_record is_stream
marked_record-IsFaithful none token rest line h = ground arith
marked_record-IsFaithful (some t) token rest line h = ground (arith, h t refl)

parse_behind_token-IsFaithful :
    (token : Option ℕ) (rest line : Text) → IsFaithful line (parse_behind_token token rest line)
unfolding parse_behind_token bare_record is_stream
parse_behind_token-IsFaithful token [] line = ground arith
parse_behind_token-IsFaithful token (c ∷ rest) line =
    marked_record-IsFaithful (marker_type c) token rest line (λ t. marker-ne-unknown c)

-- Every line, whatever it holds, gives a record that keeps the line, has a text exactly when it is
-- a stream's, and has nothing but the line when it is unknown.
parse_mi_line-IsFaithful : (line : Text) → IsFaithful line (parse_mi_line line)
unfolding parse_mi_line bare_record is_stream
parse_mi_line-IsFaithful line =
    elim (Bool-cases (drop_return line === codes "(gdb)" || drop_return line === codes "(gdb) ")) [
      | inl p ↦ rw p prompt-IsFaithful
      | inr n ↦ rw n (parse_behind_token-IsFaithful _ _ line)
    ]
  where
    prompt-IsFaithful : IsFaithful line (bare_record prompt line)
    prompt-IsFaithful = ground arith
