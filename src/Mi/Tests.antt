-- ===== src/Mi/Tests.antt =====
-- Runs of the MI layer on concrete input, and its theorems applied to them.
use vscode_cann_debugger.Base.{
  ℕ, ◌+◌, Bool, true, false, none, some, List, [], ◌∷◌, ◌++◌, ◌≡◌, ◌≢◌, refl, arith, Text, codes,
  trim, decimal, if◌then◌else◌, ◌==◌, is_digit, number_from, ◌===◌,
}
use vscode_cann_debugger.Mi.Value.{MiValue, str, no_fields, is_inherited, get}
use vscode_cann_debugger.Mi.Value.Laws.{add_results, values_for, gathered, get-add_results}
use vscode_cann_debugger.Mi.Result.{Result, ok, failed}
use vscode_cann_debugger.Mi.CString.{expect, parse_cstring, quote_mi_string}
use vscode_cann_debugger.Mi.CString.Spelling.{
  Piece, plain, control, octal, hex, newline, Spells, one_octal, two_hex, other,
  parse_cstring-spell_all, spell_all, parse_cstring-quote_mi_string,
}
use vscode_cann_debugger.Mi.Parser.{
  result_list_loop, parse_variable, peeks, parse_result_list, parse_value,
}
use vscode_cann_debugger.Mi.Parser.Fuel.{parse_result_list-ne-out_of_fuel}
use vscode_cann_debugger.Mi.Parser.Grammar.{
  Results, const, empty_tuple, last_result, result as then_result, emit_results, denote_fields,
  emit,
}
use vscode_cann_debugger.Mi.Line.{
  span_digits, drop_return, token_of, marker_type, is_stream, parse_mi_line, result,
}
use vscode_cann_debugger.Mi.Line.Records.{parse_mi_line-sentence}
use vscode_cann_debugger.Mi.Connection.{
  Connection, Act, written, logged, initial, spawn, find_pending, is_running, handle_line,
  send_command, on_stdout, on_exit, ExitStatus, refused, not_running,
}
use vscode_cann_debugger.Mi.Connection.Stderr.{
  on_stderr, has_marker, first_pid, strip_prefix, pid_at, on_stderr-split_marker,
}
use vscode_cann_debugger.Mi.Connection.Framing.{
  handle_all, split_lines, with_buffer, on_stdout-split_lines, on_stdout-append,
}
use vscode_cann_debugger.Mi.Connection.Routing.{
  Reply, reply_record, reply_act, handle_line-reply, send_command-reply,
}
use vscode_cann_debugger.Mi.Connection.Trace.{Reaches, start, send, stdout, Status, settled}
use vscode_cann_debugger.Mi.Connection.Trace.Accounts.{Reaches-Status, on_exit-settles}

-- `name="v\102\n\x41",x={}`
abbrev sample_pieces : List Piece
sample_pieces = plain b'v' ∷ octal 1 0 2 ∷ control newline ∷ hex 4 1 ∷ []

sample_pieces-Spells : Spells sample_pieces
sample_pieces-Spells = omega arith

abbrev sample_results : Results
sample_results =
    then_result (codes "name") (omega arith) (const sample_pieces sample_pieces-Spells)
      (last_result (codes "x") (omega arith) empty_tuple)

abbrev payload : Text
payload = codes "name=\"v\\102\\n\\x41\",x={}"

abbrev reply : Text
reply = codes "1^done," ++ (payload ++ 13 ∷ [])

reply_text :
    drop_return reply ≡ decimal 1 ++ b'^' ∷ (codes "done" ++ b',' ∷ emit_results sample_results)
unfolding drop_return decimal emit
reply_text = refl

parse_mi_line-sentence_example : parse_mi_line reply ≡ record {
  type = result;
  token = token_of (codes "1");
  class = some (trim (codes "done"));
  results = denote_fields sample_results no_fields;
  text = none;
  raw = reply;
}
parse_mi_line-sentence_example =
    parse_mi_line-sentence reply (codes "1") (codes "done") b'^' sample_results
      (unfold drop_return emit in refl) (unfold is_digit in (refl, tt)) (unfold marker_type in refl)
      (unfold is_stream in refl) (omega arith)

-- The payload has no value behind its `=`.
abbrev garbled : Text
garbled = codes "=thread-created,id="

garbled_payload : parse_result_list (codes "id=") ≡ failed
unfolding parse_result_list parse_value result_list_loop expect parse_variable peeks
garbled_payload = refl

-- `"\0z\x4B\q"`
abbrev short_pieces : List Piece
short_pieces = one_octal 0 ∷ plain b'z' ∷ two_hex (4, false) (11, true) ∷ other b'q' ∷ []

parse_cstring-spell_all_example :
    parse_cstring (b'"' ∷ (spell_all short_pieces ++ b'"' ∷ payload))
    ≡ ok (0 ∷ codes "zKq", payload)
parse_cstring-spell_all_example = parse_cstring-spell_all short_pieces payload (ground arith)

parse_cstring-quote_mi_string_example :
    parse_cstring (quote_mi_string (codes "a\\\"b") ++ payload) ≡ ok (codes "a\\\"b", payload)
parse_cstring-quote_mi_string_example = parse_cstring-quote_mi_string (codes "a\\\"b") payload

parse_result_list-ne-out_of_fuel_example : parse_result_list payload ≢ Result.out_of_fuel
parse_result_list-ne-out_of_fuel_example = parse_result_list-ne-out_of_fuel payload

abbrev repeated : List (Text × MiValue)
repeated =
    (codes "bkpt", str (codes "1"))
    ∷ (codes "toString", str (codes "2"))
    ∷ (codes "bkpt", str (codes "3"))
    ∷ []

bkpt-plain : is_inherited (codes "bkpt") ≡ false
unfolding is_inherited
bkpt-plain = refl

get-add_results_example :
    get (add_results no_fields repeated) (codes "bkpt")
    ≡ gathered (values_for (codes "bkpt") repeated)
get-add_results_example = get-add_results (codes "bkpt") repeated bkpt-plain (unfold ◌===◌ in tt)

-- A running debugger with one command under way.
abbrev busy : Connection
busy = record {
  spawned = true;
  exited = false;
  stdout_buffer = codes "1^do";
  stderr_buffer = [];
  token = 1;
  pending = (1, codes "-var-create") ∷ [];
  guest_pid = none;
}

abbrev done_reply :
    Reply
      (codes "done")
      (codes "done" ++ b',' ∷ emit_results sample_results)
      (denote_fields sample_results no_fields)
done_reply = Reply.sentence sample_results

handle_line-reply_example :
    ((handle_line reply busy).1
      ≡ logged (codes "<-- " ++ (reply ++ 10 ∷ []))
        ∷ reply_act 1
            (codes "done")
            (codes "-var-create")
            (denote_fields sample_results no_fields)
            (reply_record reply 1 (codes "done") (denote_fields sample_results no_fields))
        ∷ [])
    × ((j : ℕ)
        → find_pending j (handle_line reply busy).0.pending
          ≡ (if 1 == j then none else find_pending j busy.pending))
handle_line-reply_example =
    handle_line-reply reply (codes "done") (codes "-var-create") 1 busy reply_text (omega arith)
      done_reply (unfold find_pending in refl)

ready-is_running : is_running (spawn initial) ≡ true
unfolding is_running spawn
ready-is_running = refl

abbrev bare_done : Text
bare_done = codes "1^done"

bare_text : drop_return bare_done ≡ decimal ((spawn initial).token + 1) ++ b'^' ∷ codes "done"
unfolding spawn drop_return decimal
bare_text = refl

send_command-reply_example :
    ((send_command (codes "-gdb-set confirm off") true (spawn initial)).1
      ≡ logged (
          codes "--> "
          ++ (decimal ((spawn initial).token + 1) ++ (codes "-gdb-set confirm off" ++ 10 ∷ [])))
        ∷ written (decimal ((spawn initial).token + 1) ++ (codes "-gdb-set confirm off" ++ 10 ∷ []))
        ∷ [])
    × (handle_line bare_done (send_command (codes "-gdb-set confirm off") true (spawn initial)).0
        ≡ (
          record (spawn initial) { token = (spawn initial).token + 1 },
          logged (codes "<-- " ++ (bare_done ++ 10 ∷ []))
              ∷ reply_act
                  ((spawn initial).token + 1)
                  (codes "done")
                  (codes "-gdb-set confirm off")
                  no_fields
                  (reply_record bare_done ((spawn initial).token + 1) (codes "done") no_fields)
              ∷ [],
        ))
send_command-reply_example =
    send_command-reply (codes "-gdb-set confirm off") bare_done (codes "done") (spawn initial)
      ready-is_running (unfold spawn find_pending in refl) bare_text (omega arith) Reply.bare

on_stdout-split_lines_example :
    on_stdout (codes "ne\n~") busy
    ≡ handle_all
        (split_lines (busy.stdout_buffer ++ codes "ne\n~")).0
        (with_buffer (split_lines (busy.stdout_buffer ++ codes "ne\n~")).1 busy)
on_stdout-split_lines_example = on_stdout-split_lines (codes "ne\n~") busy

on_stdout-append_example : on_stdout (codes "n" ++ codes "e\n~") busy ≡ (
  (on_stdout (codes "e\n~") (on_stdout (codes "n") busy).0).0,
  (on_stdout (codes "n") busy).1 ++ (on_stdout (codes "e\n~") (on_stdout (codes "n") busy).0).1,
)
on_stdout-append_example = on_stdout-append (codes "n") (codes "e\n~") busy

on_stderr-split_marker_example :
    ((on_stderr (codes "__ASCEND_" ++ codes "GDB_PID__:42\n") busy).0.guest_pid
      ≡ some (number_from 0 (codes "42")))
    × ((on_stderr (codes "GDB_PID__:42\n") (on_stderr (codes "__ASCEND_") busy).0).0.guest_pid
        ≡ busy.guest_pid)
on_stderr-split_marker_example =
    on_stderr-split_marker (codes "__ASCEND_") (codes "GDB_PID__:42\n") busy
      (unfold has_marker strip_prefix in refl) (unfold has_marker strip_prefix in refl)
      (unfold first_pid pid_at strip_prefix span_digits in refl)

-- One command is sent and its reply arrives in two chunks.
abbrev after_send : Connection
after_send = (send_command (codes "-var-create") true (spawn initial)).0

abbrev acts_of_send : List Act
acts_of_send = [] ++ (send_command (codes "-var-create") true (spawn initial)).1

run : Reaches after_send acts_of_send
run = send (codes "-var-create") true start

Reaches-Status_example :
    Status 1
      (on_stdout (codes "1^done\n") after_send).0
      (acts_of_send ++ (on_stdout (codes "1^done\n") after_send).1)
Reaches-Status_example = Reaches-Status 1 (stdout (codes "1^done\n") run)

abbrev crashed : ExitStatus
crashed = record { code = none; signal = some (codes "SIGSEGV") }

on_exit-settles_example :
    (settled 1 (acts_of_send ++ (on_exit crashed after_send).1) ≡ true)
    × ((command : Text) (writable : Bool)
        → send_command command writable (on_exit crashed after_send).0
          ≡ ((on_exit crashed after_send).0, refused (not_running command) ∷ []))
unfolding send_command spawn is_running
on_exit-settles_example = on_exit-settles crashed 1 run (omega arith) (omega arith)
