-- ===== src/Mi/Connection/Trace/Accounts.antt =====
-- Every token is accounted for in every run of `MiConnection`.
use vscode_cann_debugger.Base.{
  ℕ, zero, suc, ◌+◌, ◌≤◌, ◌<◌, Bool, true, false, ◌||◌, ◌&&◌, List, [], ◌∷◌, ◌++◌, ◌≡◌, refl, ◌∙◌,
  arith, Text, ◌==◌, ◌⊎◌, inl, inr, Bool-cases,
}
use vscode_cann_debugger.Mi.Connection.{
  ExitStatus, Connection, Act, Step, find_pending, spawn, send_command, is_running, on_exit,
  fail_all_pending, refused, not_running,
}
use vscode_cann_debugger.Mi.Connection.Trace.{
  is_some, is_pending, settled, Reaches, start, send, stdout, stderr, write_error, process_error,
  process_exit, Status, waiting, finished, unissued,
}
use vscode_cann_debugger.Mi.Connection.Trace.Changes.{
  Change, same, done, Keeps, settled-append, on_stdout-Keeps, on_stderr-Keeps, on_error-Keeps,
  on_exit-Keeps, on_write_error-Keeps,
}

Change-Status :
    (t : ℕ) (c c' : Connection) (acts more : List Act)
    → c'.token ≡ c.token
    → Change t c c' more
    → Status t c acts
    → Status t c' (acts ++ more)
Change-Status t c c' acts more k (same p q) (waiting l u w s) =
    waiting l (omega arith) (p ∙ w) (ground (arith, settled-append t acts more))
Change-Status t c c' acts more k (same p q) (finished l u w s) =
    finished l (omega arith) (p ∙ w) (ground (arith, settled-append t acts more))
Change-Status t c c' acts more k (same p q) (unissued o w s) =
    unissued (omega arith) (p ∙ w) (ground (arith, settled-append t acts more))
Change-Status t c c' acts more k (done p q o) (waiting l u w s) =
    finished l (omega arith) p (ground (arith, settled-append t acts more))
Change-Status t c c' acts more k (done p q o) (finished l u w s) =
    finished l (omega arith) p (ground (arith, settled-append t acts more))
Change-Status t c c' acts more k (done p q (inl o)) (unissued b w s) = absurd (ground arith)
Change-Status t c c' acts more k (done p q (inr o)) (unissued b w s) = absurd (omega arith)

Keeps-Status :
    (t : ℕ) (c : Connection) (acts : List Act) (s : Step)
    → Keeps c s
    → Status t c acts
    → Status t s.0 (acts ++ s.1)
Keeps-Status t c acts s k h = Change-Status t c s.0 acts s.1 k.same_token (k.change t) h

is_pending-append :
    (t n : ℕ) (cmd : Text) (ps : List (ℕ × Text))
    → is_some (find_pending t (ps ++ (n, cmd) ∷ [])) ≡ (is_some (find_pending t ps) || n == t)
unfolding is_some find_pending
is_pending-append t n cmd [] = ground arith
is_pending-append t n cmd ((j, c) ∷ ps) = ground (arith, is_pending-append t n cmd ps)

-- The state and the acts of a command that is sent.
abbrev sent : Text → Connection → Connection
sent command c = record c {
  token = c.token + 1;
  pending = c.pending ++ (c.token + 1, command) ∷ [];
}

issued-Status :
    (t : ℕ) (command : Text) (c : Connection) (acts more : List Act)
    → settled t more ≡ false
    → Status t c acts
    → Status t (sent command c) (acts ++ more)
unfolding is_pending
issued-Status t command c acts more q (waiting l u w s) =
    waiting l (omega arith) (ground (arith, is_pending-append t (c.token + 1) command c.pending))
      (ground (arith, settled-append t acts more))
issued-Status t command c acts more q (finished l u w s) =
    finished l (omega arith) (ground (arith, is_pending-append t (c.token + 1) command c.pending))
      (ground (arith, settled-append t acts more))
issued-Status t command c acts more q (unissued o w s) = elim (Bool-cases (c.token + 1 == t)) [
  | inl new ↦
      waiting (ground arith) (ground arith)
        (ground (arith, is_pending-append t (c.token + 1) command c.pending))
        (ground (arith, settled-append t acts more))
  | inr old ↦
      unissued (ground arith) (ground (arith, is_pending-append t (c.token + 1) command c.pending))
        (ground (arith, settled-append t acts more))
]

send_command-Status :
    (t : ℕ) (command : Text) (writable : Bool) (c : Connection) (acts : List Act)
    → Status t c acts
    → Status t (send_command command writable c).0 (acts ++ (send_command command writable c).1)
unfolding send_command
send_command-Status t command writable c acts h = elim (Bool-cases (is_running c && writable)) [
  | inl e ↦ rw e (issued-Status t command c acts _ (unfold settled in refl) h)
  | inr e ↦ rw e (
      Change-Status t c c acts (refused (not_running command) ∷ []) refl
        (same refl (unfold settled in refl)) h)
]

zero_or_pos : (t : ℕ) → (t ≡ 0) ⊎ (0 < t)
zero_or_pos zero = inl refl
zero_or_pos (suc t) = inr (omega arith)

-- Every token, in every run: a command that was sent is pending and its promise open, or out of the
-- map and its promise settled, and no promise is settled for a token that was never issued. So no
-- command is lost and none is settled while it is pending, whatever arrives and in whatever order.
pub Reaches-Status : {c : Connection} {acts : List Act} (t : ℕ) → Reaches c acts → Status t c acts
unfolding spawn
Reaches-Status t start =
    unissued (zero_or_pos t) (unfold is_pending find_pending is_some in refl)
      (unfold settled in refl)
Reaches-Status t (send {c} {acts} command w r) =
    send_command-Status t command w c acts (Reaches-Status t r)
Reaches-Status t (stdout {c} {acts} chunk r) =
    Keeps-Status t c acts _ (on_stdout-Keeps chunk c) (Reaches-Status t r)
Reaches-Status t (stderr {c} {acts} chunk r) =
    Keeps-Status t c acts _ (on_stderr-Keeps chunk c) (Reaches-Status t r)
Reaches-Status t (write_error {c} {acts} j err l u r) =
    Keeps-Status t c acts _ (on_write_error-Keeps j err c l u) (Reaches-Status t r)
Reaches-Status t (process_error {c} {acts} err r) =
    Keeps-Status t c acts _ (on_error-Keeps err c) (Reaches-Status t r)
Reaches-Status t (process_exit {c} {acts} code r) =
    Keeps-Status t c acts _ (on_exit-Keeps code c) (Reaches-Status t r)

on_exit-token : (code : ExitStatus) (c : Connection) → (on_exit code c).0.token ≡ c.token
unfolding on_exit fail_all_pending
on_exit-token code c = refl

on_exit-refuses :
    (code : ExitStatus) (c : Connection) (command : Text) (writable : Bool)
    → send_command command writable (on_exit code c).0
      ≡ ((on_exit code c).0, refused (not_running command) ∷ [])
unfolding on_exit fail_all_pending send_command is_running
on_exit-refuses code c command writable = ground arith

exit-clears : (code : ExitStatus) (t : ℕ) (c : Connection) → is_pending t (on_exit code c).0 ≡ false
unfolding on_exit fail_all_pending is_pending find_pending is_some
exit-clears code t c = refl

-- When the debugger exits, no command is left hanging: every token that was ever issued has its
-- promise settled, and every later command is refused on the spot and changes nothing.
pub on_exit-settles :
    {c : Connection} {acts : List Act} (code : ExitStatus) (t : ℕ)
    → Reaches c acts
    → 0 < t
    → t ≤ c.token
    → (settled t (acts ++ (on_exit code c).1) ≡ true)
      × ((command : Text) (writable : Bool)
          → send_command command writable (on_exit code c).0
            ≡ ((on_exit code c).0, refused (not_running command) ∷ []))
on_exit-settles {c} {acts} code t r l u =
    (finally (Reaches-Status t (process_exit code r)), on_exit-refuses code c)
  where
    finally :
        Status t (on_exit code c).0 (acts ++ (on_exit code c).1)
        → settled t (acts ++ (on_exit code c).1) ≡ true
    finally (waiting _ _ w _) = cc (w, exit-clears code t c)
    finally (finished _ _ _ s) = s
    finally (unissued o _ _) = absurd (omega (arith, on_exit-token code c))
