-- ===== src/DebugSession/Memory/Writing.antt =====
-- `writeBytes` of src/ascendDebugSession.ts: which bytes reach the debugger.
use vscode_cann_debugger.Base.{
  ℕ, suc, ◌+◌, Bool, true, false, some, List, [], ◌∷◌, ◌++◌, append_assoc, append-nil, Text,
  if◌then◌else◌, length, ◌≡◌, refl, sym, subst, ◌⊎◌, inl, inr, ◌∙◌, arith, ℤ, pos, ◌+ℤ◌,
}
use vscode_cann_debugger.Mi.Value.{MiTuple}
use vscode_cann_debugger.VarObjects.Manager.{
  Outcome, done, rejected, Debugger, and_then, send, not_running,
}
use vscode_cann_debugger.DebugSession.Helpers.{is_unsupported_command}
use vscode_cann_debugger.DebugSession.Memory.{
  Writer, sent_by, assignment, write_each, write_command, written_or_each, write_bytes,
  with_manager, is_refuted,
}

-- One assignment for each byte, at its address.
unfoldable pub assignments : ℤ → ℕ → List ℕ → List Text
assignments start i [] = []
assignments start i (b ∷ bs) = assignment (start +ℤ pos i) b ∷ assignments start (suc i) bs

-- What a success of the loop of single bytes means.
abbrev Wrote : ℤ → ℕ → List ℕ → List Text → Outcome ℕ × Writer → Type 0
Wrote start i bytes before (done n, w) =
    (n ≡ i + length bytes) × (w.manager.sent ≡ before ++ assignments start i bytes)
Wrote start i bytes before (rejected e, w) = Unit

Wrote-next :
    (start : ℤ) (i b : ℕ) (bs : List ℕ) (before : List Text) (o : Outcome ℕ × Writer)
    → Wrote start (suc i) bs (before ++ assignment (start +ℤ pos i) b ∷ []) o
    → Wrote start i (b ∷ bs) before o
unfolding assignments
Wrote-next start i b bs before (done n, w) (h, k) = (
  omega arith,
  k ∙ append_assoc before (assignment (start +ℤ pos i) b ∷ []) (assignments start (suc i) bs),
)
Wrote-next start i b bs before (rejected e, w) h = tt

write_each-Wrote :
    (bs : List ℕ) (d : Debugger) (start : ℤ) (i : ℕ) (w : Writer)
    → Wrote start i bs w.manager.sent (write_each d start i bs w)
unfolding write_each assignments sent_by send
write_each-Wrote [] d start i w = (omega arith, sym (append-nil w.manager.sent))
write_each-Wrote (b ∷ bs) d start i w =
    branch w.manager.running (λ v. write_each-Wrote bs d start (suc i) v)
  where
    command : Text
    command = assignment (start +ℤ pos i) b

    Later : Type 0
    Later = (v : Writer) → Wrote start (suc i) bs v.manager.sent (write_each d start (suc i) bs v)

    replied :
        (o : Outcome MiTuple)
        → Later
        → Wrote start i (b ∷ bs) w.manager.sent (
            and_then
              (with_manager w (o, record w.manager { sent = w.manager.sent ++ command ∷ [] }))
              (λ r. write_each d start (suc i) bs))
    replied (done r) later = Wrote-next start i b bs w.manager.sent _ (later _)
    replied (rejected e) later = tt

    branch :
        (t : Bool)
        → Later
        → Wrote start i (b ∷ bs) w.manager.sent (
            and_then
              (with_manager w (
                if t
                then (
                  d.reply w.manager.sent command,
                  record w.manager { sent = w.manager.sent ++ command ∷ [] },
                )
                else (rejected (not_running command), w.manager)))
              (λ r. write_each d start (suc i) bs))
    branch true later = replied (d.reply w.manager.sent command) later
    branch false later = tt

-- What a success of `writeBytes` means: the bytes went out in one command, or one by one behind the
-- commands `tried`.
abbrev pub IsWritten : ℤ → List ℕ → List Text → ℕ → Writer → Type 0
IsWritten start bytes before n w =
    (n ≡ length bytes)
    × ((w.manager.sent ≡ before ++ write_command start bytes ∷ [])
        ⊎ ((tried : List Text) × (w.manager.sent ≡ (before ++ tried) ++ assignments start 0 bytes)))

abbrev WrittenIfDone : ℤ → List ℕ → List Text → Outcome ℕ × Writer → Type 0
WrittenIfDone start bytes before (done n, w) = IsWritten start bytes before n w
WrittenIfDone start bytes before (rejected e, w) = Unit

each-WrittenIfDone :
    (start : ℤ) (bytes : List ℕ) (before tried : List Text) (o : Outcome ℕ × Writer)
    → Wrote start 0 bytes (before ++ tried) o
    → WrittenIfDone start bytes before o
each-WrittenIfDone start bytes before tried (done n, w) (h, k) = (omega arith, inr (tried, k))
each-WrittenIfDone start bytes before tried (rejected e, w) h = tt

-- Behind the attempt to write all bytes at once, which the debugger got.
written_or_each-WrittenIfDone :
    (d : Debugger) (start : ℤ) (bytes : List ℕ) (o : Outcome MiTuple) (w : Writer)
    (before : List Text)
    → w.manager.sent ≡ before ++ write_command start bytes ∷ []
    → WrittenIfDone start bytes before (written_or_each d start bytes (o, w))
unfolding written_or_each
written_or_each-WrittenIfDone d start bytes (done r) w before h = (refl, inl h)
written_or_each-WrittenIfDone d start bytes (rejected e) w before h =
    branch (is_unsupported_command e)
  where
    branch :
        (b : Bool)
        → WrittenIfDone start bytes before (
            if b
            then write_each d start 0 bytes (record w { supports_write = some false })
            else (rejected e, w))
    branch true = each-WrittenIfDone start bytes before (write_command start bytes ∷ []) _ (
        subst
          (λ s.
            Wrote start 0 bytes s
              (write_each d start 0 bytes (record w { supports_write = some false })))
          h (write_each-Wrote bytes d start 0 (record w { supports_write = some false })))
    branch false = tt

-- The command was not sent: only the loop could succeed.
unsent-WrittenIfDone :
    (d : Debugger) (start : ℤ) (bytes : List ℕ) (e : Text) (w : Writer)
    → WrittenIfDone start bytes w.manager.sent (written_or_each d start bytes (rejected e, w))
unfolding written_or_each
unsent-WrittenIfDone d start bytes e w = branch (is_unsupported_command e)
  where
    branch :
        (b : Bool)
        → WrittenIfDone start bytes w.manager.sent (
            if b
            then write_each d start 0 bytes (record w { supports_write = some false })
            else (rejected e, w))
    branch true = each-WrittenIfDone start bytes w.manager.sent [] _ (
        subst
          (λ s.
            Wrote start 0 bytes s
              (write_each d start 0 bytes (record w { supports_write = some false })))
          (sym (append-nil w.manager.sent))
          (write_each-Wrote bytes d start 0 (record w { supports_write = some false })))
    branch false = tt

write_bytes-WrittenIfDone :
    (d : Debugger) (start : ℤ) (bytes : List ℕ) (w : Writer)
    → WrittenIfDone start bytes w.manager.sent (write_bytes d start bytes w)
unfolding write_bytes sent_by send
write_bytes-WrittenIfDone d start bytes w = branch (is_refuted w.supports_write) w.manager.running
  where
    branch :
        (b t : Bool)
        → WrittenIfDone start bytes w.manager.sent (
            if b
            then write_each d start 0 bytes w
            else written_or_each d start bytes (
                with_manager w (
                  if t
                  then (
                    d.reply w.manager.sent (write_command start bytes),
                    record w.manager { sent = w.manager.sent ++ write_command start bytes ∷ [] },
                  )
                  else (rejected (not_running (write_command start bytes)), w.manager))))
    branch true t = each-WrittenIfDone start bytes w.manager.sent [] _ (
        subst (λ s. Wrote start 0 bytes s (write_each d start 0 bytes w))
          (sym (append-nil w.manager.sent)) (write_each-Wrote bytes d start 0 w))
    branch false true =
        written_or_each-WrittenIfDone d start bytes
          (d.reply w.manager.sent (write_command start bytes)) _ w.manager.sent refl
    branch false false =
        unsent-WrittenIfDone d start bytes (not_running (write_command start bytes)) w

-- If `writeBytes` succeeds, with whatever the debugger answered and whatever is known of its write
-- command, it reports as many bytes as it was given, and all of them went out: in one write command
-- of the start address, the last command sent, or, behind the commands tried before, in one assignment
-- for each byte, in order, to the address of this byte.
pub write_bytes-IsWritten :
    (d : Debugger) (start : ℤ) (bytes : List ℕ) (w w1 : Writer) (n : ℕ)
    → write_bytes d start bytes w ≡ (done n, w1)
    → IsWritten start bytes w.manager.sent n w1
write_bytes-IsWritten d start bytes w w1 n h =
    subst (WrittenIfDone start bytes w.manager.sent) h (write_bytes-WrittenIfDone d start bytes w)
