-- ===== src/Mi/Connection/Stderr.antt =====
-- `onStderr` of src/mi/miConnection.ts: the tail of the error stream, and the debugger's process id
-- inside the guest, which the shell wrapper prints there.
use vscode_cann_debugger.Base.{
  ℕ, zero, suc, ◌-◌, ◌≤◌, Bool, true, false, ◌||◌, Option, none, some, List, [], ◌∷◌, ◌++◌, ◌≡◌,
  refl, ◌∙◌, sym, arith, Text, codes, decimal, number_from, trim, length, drop, ltb, ◌==◌,
  if◌then◌else◌, Option-cases, Bool-cases, inl, inr,
}
use vscode_cann_debugger.Mi.Line.{span_digits}
use vscode_cann_debugger.Mi.Connection.{Connection, Act, Step, logged, inferior_text}

-- `GUEST_PID_MARKER`
abbrev guest_pid_marker : Text
guest_pid_marker = codes "__ASCEND_GDB_PID__:"

-- The text behind `prefix`, where the text starts with it.
unfoldable pub strip_prefix : Text → Text → Option Text
strip_prefix [] ts = some ts
strip_prefix (p ∷ ps) [] = none
strip_prefix (p ∷ ps) (x ∷ ts) = if p == x then strip_prefix ps ts else none

pid_digits : Text × Text → Option (Text × Text)
pid_digits ([], rest) = none
pid_digits (d ∷ ds, rest) = some (d ∷ ds, rest)

-- The digits of a marker that stands here, and the text behind them.
unfoldable pub pid_at : Text → Option (Text × Text)
unfolding pid_digits
pid_at ts = elim (strip_prefix guest_pid_marker ts) [
  | none ↦ none
  | some behind ↦ pid_digits (span_digits behind)
]

-- `/__ASCEND_GDB_PID__:(\d+)/.exec(chunk)`: the first place where the pattern fits.
unfoldable pub first_pid : Text → Option Text
first_pid [] = none
first_pid (x ∷ ts) = elim (pid_at (x ∷ ts)) [ some (ds, _) ↦ some ds | none ↦ first_pid ts ]

-- `\r?\n?`
unfoldable pub drop_line_end : Text → Text
drop_line_end [] = []
drop_line_end (x ∷ []) = if x == 13 || x == 10 then [] else x ∷ []
drop_line_end (x ∷ y ∷ ts) =
    if x == 13 then (if y == 10 then ts else y ∷ ts) else if x == 10 then y ∷ ts else x ∷ y ∷ ts

-- The global `replace` that takes every marker out; the length is fuel enough.
unfoldable pub remove_pids : ℕ → Text → Text
remove_pids zero ts = ts
remove_pids (suc f) [] = []
remove_pids (suc f) (x ∷ ts) = elim (pid_at (x ∷ ts)) [
  | some (_, rest) ↦ remove_pids f (drop_line_end rest)
  | none ↦ x ∷ remove_pids f ts
]

-- `chunk.indexOf(GUEST_PID_MARKER) >= 0`
unfoldable pub has_marker : Text → Bool
has_marker [] = false
has_marker (x ∷ ts) = elim (strip_prefix guest_pid_marker (x ∷ ts)) [
  | some _ ↦ true
  | none ↦ has_marker ts
]

-- `slice(-8192)` of a buffer longer than that.
unfoldable pub keep_tail : Text → Text
keep_tail buffer = if ltb 8192 (length buffer) then drop (length buffer - 8192) buffer else buffer

unfoldable pub noted_pid : Option Text → Connection → Step
noted_pid none c = (c, [])
noted_pid (some ds) c =
    let pid = number_from 0 ds in
    (
      record c { guest_pid = some pid },
      logged (codes "guest debugger pid: " ++ (decimal pid ++ 10 ∷ [])) ∷ [],
    )

unfoldable pub inferior_if_any : Text → Text → List Act
inferior_if_any [] rest = []
inferior_if_any (x ∷ trimmed) rest = inferior_text rest ∷ []

-- `onStderr`; stderr is not framed, so a marker counts only where one chunk holds it whole.
unfoldable pub on_stderr : Text → Connection → Step
unfolding noted_pid inferior_if_any
on_stderr chunk c =
    let buffered = record c { stderr_buffer = keep_tail (c.stderr_buffer ++ chunk) } in
    let (noted, acts) = noted_pid (first_pid chunk) buffered in
    let rest = remove_pids (length chunk) chunk in
    if has_marker chunk
    then (noted, acts ++ inferior_if_any (trim rest) rest)
    else (buffered, inferior_if_any (trim chunk) chunk)

-- Only the last 8192 units of the error stream are kept.
drop-shorter : (n : ℕ) (t : Text) → length (drop n t) ≡ length t - n
drop-shorter zero t = omega arith
drop-shorter (suc n) [] = omega arith
drop-shorter (suc n) (x ∷ t) = omega (arith, drop-shorter n t)

keep_tail-bound : (t : Text) → length (keep_tail t) ≤ 8192
unfolding keep_tail
keep_tail-bound t = ground (arith, drop-shorter (length t - 8192) t)

noted_pid-buffer :
    (o : Option Text) (c : Connection) → (noted_pid o c).0.stderr_buffer ≡ c.stderr_buffer
unfolding noted_pid
noted_pid-buffer none c = refl
noted_pid-buffer (some ds) c = refl

-- Whatever arrives on the error stream, the buffer holds its last 8192 units at most.
on_stderr_bound :
    (chunk : Text) (c : Connection) → length ((on_stderr chunk c).0.stderr_buffer) ≤ 8192
unfolding on_stderr
on_stderr_bound chunk c = elim (Bool-cases (has_marker chunk)) [
  | inl m ↦ rw m (
      rw
        (noted_pid-buffer (first_pid chunk)
          (record c { stderr_buffer = keep_tail (c.stderr_buffer ++ chunk) }))
        (keep_tail-bound (c.stderr_buffer ++ chunk)))
  | inr m ↦ rw m (keep_tail-bound (c.stderr_buffer ++ chunk))
]

pid_later :
    (x : ℕ) (ts : Text)
    → strip_prefix guest_pid_marker (x ∷ ts) ≡ none
    → first_pid (x ∷ ts) ≡ first_pid ts
unfolding first_pid pid_at
pid_later x ts p = rw (p, first_pid)

marker_later :
    (x : ℕ) (ts : Text)
    → strip_prefix guest_pid_marker (x ∷ ts) ≡ none
    → has_marker (x ∷ ts) ≡ has_marker ts
unfolding has_marker
marker_later x ts p = rw (p, has_marker)

first_pid-has_marker : (ts : Text) {ds : Text} → first_pid ts ≡ some ds → has_marker ts ≡ true
unfolding first_pid has_marker
first_pid-has_marker [] e = cc
first_pid-has_marker (x ∷ ts) e = elim (Option-cases (strip_prefix guest_pid_marker (x ∷ ts))) [
  | inl p ↦ marker_later x ts p ∙ first_pid-has_marker ts (sym (pid_later x ts p) ∙ e)
  | inr (behind, p) ↦ rw (p, has_marker)
]

-- The error stream is not framed, unlike the output: where a chunk boundary falls inside the marker,
-- the process id is missed, though the same text in one chunk gives it.
pub on_stderr-split_marker :
    (a b : Text) (c : Connection) {ds : Text}
    → has_marker a ≡ false
    → has_marker b ≡ false
    → first_pid (a ++ b) ≡ some ds
    → ((on_stderr (a ++ b) c).0.guest_pid ≡ some (number_from 0 ds))
      × ((on_stderr b (on_stderr a c).0).0.guest_pid ≡ c.guest_pid)
unfolding on_stderr
on_stderr-split_marker a b c ha hb h =
    let whole = first_pid-has_marker (a ++ b) h in (rw (whole, h), rw (hb, ha))
