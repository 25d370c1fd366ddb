-- ===== src/Mi/Connection.antt =====
-- The transport of src/mi/miConnection.ts: `MiConnection`. A handler takes the state and gives the
-- new one with what it did, in order. Listeners and promise continuations run after the handler.
pub mod Stderr
pub mod Framing
pub mod Routing
pub mod Marked
pub mod Trace
use vscode_cann_debugger.Base.{
  ℕ, zero, suc, ◌+◌, ◌-◌, ◌<◌, Bool, true, false, not, ◌&&◌, ◌||◌, Option, none, some, List, [],
  ◌∷◌, ◌++◌, Text, codes, decimal, number_from, trim, ◌===◌, length, drop, ltb, ◌==◌, if◌then◌else◌,
}
use vscode_cann_debugger.Mi.Value.{MiTuple, get, mi_string}
use vscode_cann_debugger.Mi.Line.{
  MiRecord, MiRecordType, result, exec_async, status_async, notify_async, console_stream,
  target_stream, log_stream, prompt, unknown, parse_mi_line, span_digits,
}

-- How the debugger's process ended: the arguments of its `exit` event.
pub record ExitStatus : Type 0 where
  pub code : Option ℕ
  pub signal : Option Text

-- Why a command's promise is rejected.
pub data Failure : Type 0 where
  mi_error : Text → MiRecord → Text → Failure
  not_running : Text → Failure
  write_failed : Text → Failure
  spawn_failed : Text → Failure
  debugger_exited : ExitStatus → Failure

-- The observable acts: log lines, writes to the debugger, settled promises, emitted events.
pub data Act : Type 0 where
  logged : Text → Act
  written : Text → Act
  resolved : ℕ → MiRecord → Act
  rejected : ℕ → Failure → Act
  refused : Failure → Act
  prompt_seen : Act
  notified executed status_seen : MiRecord → Act
  console_text target_text log_text inferior_text : Text → Act
  exit_seen : ExitStatus → Act
  error_seen : Text → Act

-- `pending` is the Map, oldest entry first; its values are the commands.
pub record Connection : Type 0 where
  pub spawned : Bool
  pub exited : Bool
  pub stdout_buffer : Text
  pub stderr_buffer : Text
  pub token : ℕ
  pub pending : List (ℕ × Text)
  pub guest_pid : Option ℕ

abbrev pub initial : Connection
initial = record {
  spawned = false;
  exited = false;
  stdout_buffer = [];
  stderr_buffer = [];
  token = 0;
  pending = [];
  guest_pid = none;
}

abbrev pub Step : Type 0
Step = Connection × List Act

unfoldable pub is_running : Connection → Bool
is_running c = c.spawned && not c.exited

-- `this.pending.get(token)`
unfoldable pub find_pending : ℕ → List (ℕ × Text) → Option Text
find_pending t [] = none
find_pending t ((j, cmd) ∷ ps) = if j == t then some cmd else find_pending t ps

-- `this.pending.delete(token)`
unfoldable pub delete_pending : ℕ → List (ℕ × Text) → List (ℕ × Text)
delete_pending t [] = []
delete_pending t ((j, cmd) ∷ ps) =
    if j == t then delete_pending t ps else (j, cmd) ∷ delete_pending t ps

-- `failAllPending`
unfoldable pub reject_all : Failure → List (ℕ × Text) → List Act
reject_all err [] = []
reject_all err ((t, cmd) ∷ ps) = rejected t err ∷ reject_all err ps

unfoldable pub fail_all_pending : Failure → Connection → Step
unfolding reject_all
fail_all_pending err c = (record c { pending = [] }, reject_all err c.pending)

unfoldable pub is_error : Option Text → Bool
unfolding ◌===◌
is_error none = false
is_error (some cls) = cls === codes "error"

-- The reply to a pending command: `^error` rejects with the debugger's own message.
unfoldable pub settle : ℕ → Text → MiRecord → Act
unfolding is_error get mi_string
settle t cmd r =
    if is_error r.class
    then rejected t
        (mi_error (mi_string (get r.results (codes "msg")) (codes "GDB reported an error")) r cmd)
    else resolved t r

-- `case MiRecordType.Result`: by the token, and by what is pending under it.
unfoldable pub handle_result : Option ℕ → Option Text → MiRecord → Connection → Step
unfolding settle delete_pending
handle_result (some t) (some cmd) r c =
    (record c { pending = delete_pending t c.pending }, settle t cmd r ∷ [])
handle_result _ _ r c = (c, notified r ∷ [])

unfoldable pub text_or_empty : Option Text → Text
text_or_empty none = []
text_or_empty (some t) = t

-- `record.token !== undefined` and `this.pending.get(record.token)`.
unfoldable pub pending_for : Option ℕ → List (ℕ × Text) → Option Text
unfolding find_pending
pending_for none ps = none
pending_for (some t) ps = find_pending t ps

-- The switch of `handleLine`; only a result changes the state.
unfoldable pub dispatch : MiRecordType → MiRecord → Text → Connection → Step
unfolding handle_result pending_for text_or_empty
dispatch prompt r line c = (c, prompt_seen ∷ [])
dispatch result r line c = handle_result r.token (pending_for r.token c.pending) r c
dispatch exec_async r line c = (c, executed r ∷ [])
dispatch notify_async r line c = (c, notified r ∷ [])
dispatch status_async r line c = (c, status_seen r ∷ [])
dispatch console_stream r line c = (c, console_text (text_or_empty r.text) ∷ [])
dispatch target_stream r line c = (c, target_text (text_or_empty r.text) ∷ [])
dispatch log_stream r line c = (c, log_text (text_or_empty r.text) ∷ [])
dispatch unknown r line c = (c, inferior_text (line ++ 10 ∷ []) ∷ [])

log_received : MiRecordType → Text → List Act
log_received prompt line = []
log_received _ line = logged (codes "<-- " ++ (line ++ 10 ∷ [])) ∷ []

unfoldable pub handle_line : Text → Connection → Step
unfolding log_received
handle_line line c =
    let r = parse_mi_line line in
    let (c', acts) = dispatch r.type r line c in (c', log_received r.type line ++ acts)

-- The line read so far grows by one unit.
unfoldable pub extend_line : ℕ → Option (Text × Text) → Option (Text × Text)
extend_line x none = none
extend_line x (some (line, rest)) = some (x ∷ line, rest)

-- The text up to the first line feed and the text behind it.
unfoldable pub take_line : Text → Option (Text × Text)
unfolding extend_line
take_line [] = none
take_line (x ∷ ts) =
    let more = extend_line x (take_line ts) in if x == 10 then some ([], ts) else more

-- `if (line.length) this.handleLine(line)`
unfoldable pub handle_if_any : Text → Connection → Step
handle_if_any [] c = (c, [])
handle_if_any (x ∷ line) c = handle_line (x ∷ line) c

-- The loop of `onStdout`; each round shortens the buffer, so its length is fuel enough.
unfoldable pub drain : ℕ → Connection → Step
drain zero c = (c, [])
drain (suc f) c = elim (take_line c.stdout_buffer) [
  | none ↦ (c, [])
  | some (line, rest) ↦
      let (c1, acts) = handle_if_any line (record c { stdout_buffer = rest }) in
      let (c2, more) = drain f c1 in (c2, acts ++ more)
]

unfoldable pub on_stdout : Text → Connection → Step
on_stdout chunk c =
    let buffer = c.stdout_buffer ++ chunk in
    drain (length buffer) (record c { stdout_buffer = buffer })

-- `sendCommand`; the flag is `stdin.writable`. The promise of a refused command has no token.
unfoldable pub send_command : Text → Bool → Connection → Step
unfolding is_running
send_command command writable c =
    let t = c.token + 1 in
    let line = decimal t ++ (command ++ 10 ∷ []) in
    if is_running c && writable
    then (
      record c { token = t; pending = c.pending ++ (t, command) ∷ [] },
      logged (codes "--> " ++ line) ∷ written line ∷ [],
    )
    else (c, refused (not_running command) ∷ [])

-- The callback of `stdin.write`, where the write failed.
unfoldable pub on_write_error : ℕ → Text → Connection → Step
unfolding delete_pending
on_write_error t err c =
    (record c { pending = delete_pending t c.pending }, rejected t (write_failed err) ∷ [])

-- `proc.on('error')` and `proc.on('exit')`
unfoldable pub on_error : Text → Connection → Step
on_error err c =
    let (c', acts) = fail_all_pending (spawn_failed err) c in (c', error_seen err ∷ acts)

unfoldable pub on_exit : ExitStatus → Connection → Step
on_exit code c =
    let (c', acts) = fail_all_pending (debugger_exited code) (record c { exited = true }) in
    (c', acts ++ exit_seen code ∷ [])

-- The part of `start` before the prompt: the process is there and its handlers are set.
unfoldable pub spawn : Connection → Connection
spawn c = record c { spawned = true }
