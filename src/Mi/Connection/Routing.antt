-- ===== src/Mi/Connection/Routing.antt =====
-- `handleLine` of src/mi/miConnection.ts hands each reply to the command whose token it carries.
use vscode_cann_debugger.Base.{
  ℕ, ◌+◌, true, none, some, List, [], ◌∷◌, ◌++◌, ◌≡◌, ◌≢◌, refl, ◌∙◌, ap, arith, Text, codes, ◌===◌,
  trim, decimal, number_from, decimal-IsDigits, decimal-ne-nil, number_from-decimal, ◌==◌,
  if◌then◌else◌,
}
use vscode_cann_debugger.Mi.Value.{MiTuple, no_fields, get, mi_string}
use vscode_cann_debugger.Mi.Parser.{parse_result_list}
use vscode_cann_debugger.Mi.Parser.Grammar.{Results, emit_results, denote_fields}
use vscode_cann_debugger.Mi.Line.{
  caught, MiRecord, drop_return, token_of, marker_type, is_stream, result, parse_mi_line,
}
use vscode_cann_debugger.Mi.Line.Records.{
  IsWord, parse_mi_line-sentence, parse_mi_line-alone, parse_mi_line-class,
}
use vscode_cann_debugger.Mi.Connection.{
  written, Connection, Act, logged, resolved, rejected, mi_error, is_error, settle, handle_result,
  pending_for, find_pending, delete_pending, dispatch, handle_line, send_command, is_running,
}

pub token_of-decimal : (t : ℕ) → token_of (decimal t) ≡ some t
token_of-decimal t = go (decimal t) (decimal-ne-nil t) (number_from-decimal t)
  where
    go : (ds : Text) → ds ≢ [] → number_from 0 ds ≡ t → token_of ds ≡ some t
    go [] ne e = absurd (ne refl)
    go (d ∷ ds) ne e = unfold token_of in ap some e

pub find_pending-delete_pending :
    (t j : ℕ) (ps : List (ℕ × Text))
    → find_pending j (delete_pending t ps) ≡ (if t == j then none else find_pending j ps)
unfolding find_pending delete_pending
find_pending-delete_pending t j [] = ground arith
find_pending-delete_pending t j ((i, cmd) ∷ ps) = ground (arith, find_pending-delete_pending t j ps)

-- A reply's class word, what stands behind its marker, and the results that it carries: none behind
-- the bare word, the tuple of a sentence of the grammar, and of any other payload what the parser
-- makes of it, which is no result where it does not parse.
pub data Reply (word : Text) : Text → MiTuple → Type 0 where
  bare : Reply word word no_fields
  sentence :
      (rs : Results) → Reply word (word ++ b',' ∷ emit_results rs) (denote_fields rs no_fields)
  other :
      (payload : Text) → Reply word (word ++ b',' ∷ payload) (caught (parse_result_list payload))

-- The record of a reply.
abbrev pub reply_record : Text → ℕ → Text → MiTuple → MiRecord
reply_record line t word results = record {
  type = result;
  token = some t;
  class = some (trim word);
  results = results;
  text = none;
  raw = line;
}

parse_mi_line-reply :
    (line word : Text) (t : ℕ) {behind : Text} {results : MiTuple}
    → drop_return line ≡ decimal t ++ b'^' ∷ behind
    → IsWord word
    → Reply word behind results
    → parse_mi_line line ≡ reply_record line t word results
unfolding marker_type is_stream
parse_mi_line-reply line word t e w bare =
    parse_mi_line-alone line (decimal t) word b'^' e (decimal-IsDigits t) refl refl w
    ∙ rw (token_of-decimal t)
parse_mi_line-reply line word t e w (sentence rs) =
    parse_mi_line-sentence line (decimal t) word b'^' rs e (decimal-IsDigits t) refl refl w
    ∙ rw (token_of-decimal t)
parse_mi_line-reply line word t e w (other payload) =
    parse_mi_line-class line (decimal t) word payload b'^' e (decimal-IsDigits t) refl refl w
    ∙ rw (token_of-decimal t)

-- `^error` rejects with the debugger's `msg`, or a stock message where there is none; any other class
-- resolves with the whole record.
abbrev pub reply_act : ℕ → Text → Text → MiTuple → MiRecord → Act
reply_act t word cmd results r =
    if trim word === codes "error"
    then rejected t
        (mi_error (mi_string (get results (codes "msg")) (codes "GDB reported an error")) r cmd)
    else resolved t r

handle_line-settle :
    (line word cmd : Text) (t : ℕ) (c : Connection) {behind : Text} {results : MiTuple}
    → drop_return line ≡ decimal t ++ b'^' ∷ behind
    → IsWord word
    → Reply word behind results
    → find_pending t c.pending ≡ some cmd
    → handle_line line c ≡ (
      record c { pending = delete_pending t c.pending },
      logged (codes "<-- " ++ (line ++ 10 ∷ []))
          ∷ reply_act t word cmd results (reply_record line t word results)
          ∷ [],
    )
unfolding handle_line dispatch handle_result pending_for settle is_error
handle_line-settle line word cmd t c e w r p = rw (parse_mi_line-reply line word t e w r) (rw p)

-- A reply that carries the token of a pending command, with any class and with results, a payload
-- that does not parse, or nothing behind its class, settles that command and no other: any class
-- but `error` resolves its promise with the whole record, `error` rejects it with the debugger's
-- `msg`, or a stock message where there is none; the command leaves the map, all others stay.
pub handle_line-reply :
    (line word cmd : Text) (t : ℕ) (c : Connection) {behind : Text} {results : MiTuple}
    → drop_return line ≡ decimal t ++ b'^' ∷ behind
    → IsWord word
    → Reply word behind results
    → find_pending t c.pending ≡ some cmd
    → ((handle_line line c).1
        ≡ logged (codes "<-- " ++ (line ++ 10 ∷ []))
          ∷ reply_act t word cmd results (reply_record line t word results)
          ∷ [])
      × ((j : ℕ)
          → find_pending j (handle_line line c).0.pending
            ≡ (if t == j then none else find_pending j c.pending))
handle_line-reply line word cmd t c e w r p =
    let settled = handle_line-settle line word cmd t c e w r p in
    (rw settled, λ j. rw settled (find_pending-delete_pending t j c.pending))

pub find_pending-append :
    (t : ℕ) (ps qs : List (ℕ × Text))
    → find_pending t ps ≡ none
    → find_pending t (ps ++ qs) ≡ find_pending t qs
unfolding find_pending
find_pending-append t [] qs h = refl
find_pending-append t ((j, cmd) ∷ ps) qs h = ground (arith, find_pending-append t ps qs)

delete_pending-append :
    (t : ℕ) (ps : List (ℕ × Text)) (cmd : Text)
    → find_pending t ps ≡ none
    → delete_pending t (ps ++ (t, cmd) ∷ []) ≡ ps
unfolding find_pending delete_pending
delete_pending-append t [] cmd h = ground arith
delete_pending-append t ((j, c) ∷ ps) cmd h = ground (arith, delete_pending-append t ps cmd)

pub find_pending-here : (t : ℕ) (cmd : Text) → find_pending t ((t, cmd) ∷ []) ≡ some cmd
unfolding find_pending
find_pending-here t cmd = ground arith

send_command-running :
    (command : Text) (c : Connection)
    → is_running c ≡ true
    → send_command command true c ≡ (
      record c { token = c.token + 1; pending = c.pending ++ (c.token + 1, command) ∷ [] },
      logged (codes "--> " ++ (decimal (c.token + 1) ++ (command ++ 10 ∷ [])))
          ∷ written (decimal (c.token + 1) ++ (command ++ 10 ∷ []))
          ∷ [],
    )
unfolding send_command
send_command-running command c run = ground arith

-- A command sent to a running debugger is written as one line behind a token, and a reply under
-- that token, whatever its class and payload, ends it as it should: exactly its promise is
-- settled, and the map of pending commands is what it was before. The next token must not be in
-- the map already, which `Connection.Trace` shows.
pub send_command-reply :
    (command line word : Text) (c : Connection) {behind : Text} {results : MiTuple}
    → is_running c ≡ true
    → find_pending (c.token + 1) c.pending ≡ none
    → drop_return line ≡ decimal (c.token + 1) ++ b'^' ∷ behind
    → IsWord word
    → Reply word behind results
    → ((send_command command true c).1
        ≡ logged (codes "--> " ++ (decimal (c.token + 1) ++ (command ++ 10 ∷ [])))
          ∷ written (decimal (c.token + 1) ++ (command ++ 10 ∷ []))
          ∷ [])
      × (handle_line line (send_command command true c).0 ≡ (
        record c { token = c.token + 1 },
        logged (codes "<-- " ++ (line ++ 10 ∷ []))
            ∷ reply_act
                (c.token + 1)
                word
                command
                results
                (reply_record line (c.token + 1) word results)
            ∷ [],
      ))
send_command-reply command line word c run fresh e w r =
    let t = c.token + 1 in
    let entry : List (ℕ × Text) = (t, command) ∷ [] in
    let sent = record c { token = t; pending = c.pending ++ entry } in
    let ran = send_command-running command c run in
    (
      ap (λ s. s.1) ran,
      ap (λ s. handle_line line s.0) ran
          ∙ handle_line-settle line word command t sent e w r
              (find_pending-append t c.pending entry fresh ∙ find_pending-here t command)
          ∙ rw (delete_pending-append t c.pending command fresh),
    )
