-- ===== src/Mi/Connection/Trace.antt =====
-- The life of a command over any run of `MiConnection`: every token that `sendCommand` issues is
-- pending until its promise is settled, and never both.
pub mod Changes
pub mod Accounts
use vscode_cann_debugger.Base.{
  ℕ, zero, suc, ◌+◌, ◌≤◌, ◌<◌, Bool, true, false, ◌||◌, Option, none, some, List, [], ◌∷◌, ◌++◌,
  ◌≡◌, refl, arith, Text, ◌==◌, ◌⊎◌, inl, inr,
}
use vscode_cann_debugger.Mi.Connection.{
  ExitStatus, Connection, Act, Step, Failure, resolved, rejected, find_pending, initial, spawn,
  send_command, on_stdout, on_write_error, on_error, on_exit,
}
use vscode_cann_debugger.Mi.Connection.Stderr.{on_stderr}

unfoldable pub is_some {ℓ} : {A : Type ℓ} → Option A → Bool
is_some none = false
is_some (some a) = true

unfoldable pub is_pending : ℕ → Connection → Bool
unfolding is_some
is_pending t c = is_some (find_pending t c.pending)

-- The act settles the promise of token `t`.
unfoldable pub settles : ℕ → Act → Bool
settles t (resolved j r) = j == t
settles t (rejected j err) = j == t
settles t _ = false

unfoldable pub settled : ℕ → List Act → Bool
unfolding settles
settled t [] = false
settled t (act ∷ acts) = settles t act || settled t acts

-- What the environment may do next: commands are sent, chunks arrive, a write of an issued command
-- fails, the process fails or exits. The acts of a run are all that it has done so far.
pub data Reaches : Connection → List Act → Type 0 where
  start : Reaches (spawn initial) []
  send :
      {c : Connection} {acts : List Act} (command : Text) (writable : Bool)
      → Reaches c acts
      → Reaches (send_command command writable c).0 (acts ++ (send_command command writable c).1)
  stdout :
      {c : Connection} {acts : List Act} (chunk : Text)
      → Reaches c acts
      → Reaches (on_stdout chunk c).0 (acts ++ (on_stdout chunk c).1)
  stderr :
      {c : Connection} {acts : List Act} (chunk : Text)
      → Reaches c acts
      → Reaches (on_stderr chunk c).0 (acts ++ (on_stderr chunk c).1)
  write_error :
      {c : Connection} {acts : List Act} (t : ℕ) (err : Text)
      → 0 < t
      → t ≤ c.token
      → Reaches c acts
      → Reaches (on_write_error t err c).0 (acts ++ (on_write_error t err c).1)
  process_error :
      {c : Connection} {acts : List Act} (err : Text)
      → Reaches c acts
      → Reaches (on_error err c).0 (acts ++ (on_error err c).1)
  process_exit :
      {c : Connection} {acts : List Act} (code : ExitStatus)
      → Reaches c acts
      → Reaches (on_exit code c).0 (acts ++ (on_exit code c).1)

-- The three states of a token.
pub data Status (t : ℕ) (c : Connection) (acts : List Act) : Type 0 where
  waiting : 0 < t → t ≤ c.token → is_pending t c ≡ true → settled t acts ≡ false → Status t c acts
  finished : 0 < t → t ≤ c.token → is_pending t c ≡ false → settled t acts ≡ true → Status t c acts
  unissued :
      (t ≡ 0) ⊎ (c.token < t) → is_pending t c ≡ false → settled t acts ≡ false → Status t c acts
