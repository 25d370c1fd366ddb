-- ===== src/Mi/Connection/Framing.antt =====
-- `onStdout` of src/mi/miConnection.ts frames the stream into lines, however the stream is cut into
-- chunks.
use vscode_cann_debugger.Base.{
  ℕ, zero, suc, ◌≤◌, ◌<◌, true, false, Option, none, some, List, [], ◌∷◌, ◌++◌, append_assoc, ◌≡◌,
  refl, ◌∙◌, subst, ap, arith, Text, length, ◌==◌, if◌then◌else◌, Bool-cases, Option-cases, inl,
  inr,
}
use vscode_cann_debugger.Mi.Line.{MiRecord, MiRecordType, result}
use vscode_cann_debugger.Mi.Connection.{
  Connection, Step, extend_line, handle_result, dispatch, handle_line, take_line, handle_if_any,
  drain, on_stdout,
}

-- The lines of a text and what stands behind its last line feed: the framing as a specification.
cons_first : ℕ → List Text × Text → List Text × Text
cons_first x ([], r) = ([], x ∷ r)
cons_first x (l ∷ ls, r) = ((x ∷ l) ∷ ls, r)

unfoldable pub split_lines : Text → List Text × Text
unfolding cons_first
split_lines [] = ([], [])
split_lines (x ∷ ts) =
    let rest = split_lines ts in if x == 10 then ([] ∷ rest.0, rest.1) else cons_first x rest

split_lines-cons :
    (x : ℕ) (ts : Text) → (x == 10) ≡ false → split_lines (x ∷ ts) ≡ cons_first x (split_lines ts)
unfolding split_lines
split_lines-cons x ts n = rw n

-- The lines handled one after another, empty ones skipped.
unfoldable pub handle_all : List Text → Connection → Step
handle_all [] c = (c, [])
handle_all (l ∷ ls) c =
    let (c1, acts) = handle_if_any l c in let (c2, more) = handle_all ls c1 in (c2, acts ++ more)

abbrev pub with_buffer : Text → Connection → Connection
with_buffer b c = record c { stdout_buffer = b }

abbrev map_state : (Connection → Connection) → Step → Step
map_state f (c, acts) = (f c, acts)

split_lines-end :
    (x : ℕ) (ts : Text)
    → (x == 10) ≡ true
    → split_lines (x ∷ ts) ≡ ([] ∷ (split_lines ts).0, (split_lines ts).1)
unfolding split_lines
split_lines-end x ts e = rw e

cons_first-append :
    (x : ℕ) (b : Text) (p : List Text × Text)
    → (x == 10) ≡ false
    → cons_first x (p.0 ++ (split_lines (p.1 ++ b)).0, (split_lines (p.1 ++ b)).1) ≡ (
      (cons_first x p).0 ++ (split_lines ((cons_first x p).1 ++ b)).0,
      (split_lines ((cons_first x p).1 ++ b)).1,
    )
unfolding split_lines
cons_first-append x b ([], r) n = rw n
cons_first-append x b (l ∷ ls, r) n = refl

-- What is left of a text waits for the text behind it.
split_lines-append :
    (a b : Text)
    → split_lines (a ++ b) ≡ (
      (split_lines a).0 ++ (split_lines ((split_lines a).1 ++ b)).0,
      (split_lines ((split_lines a).1 ++ b)).1,
    )
unfolding split_lines
split_lines-append [] b = refl
split_lines-append (x ∷ a) b = elim (Bool-cases (x == 10)) [
  | inl e ↦ rw e (rw (split_lines-append a b))
  | inr n ↦
      split_lines-cons x (a ++ b) n
      ∙ ap (cons_first x) (split_lines-append a b)
      ∙ cons_first-append x b (split_lines a) n
      ∙ rw (split_lines-cons x a n)
]

handle_result-buffer :
    (b : Text) (t : Option ℕ) (cmd : Option Text) (r : MiRecord) (c : Connection)
    → handle_result t cmd r (with_buffer b c) ≡ map_state (with_buffer b) (handle_result t cmd r c)
unfolding handle_result
handle_result-buffer b (some t) (some cmd) r c = refl
handle_result-buffer b _ _ r c = refl

dispatch-buffer :
    (b : Text) (t : MiRecordType) (r : MiRecord) (line : Text) (c : Connection)
    → dispatch t r line (with_buffer b c) ≡ map_state (with_buffer b) (dispatch t r line c)
unfolding dispatch
dispatch-buffer b result r line c = handle_result-buffer b r.token _ r c
dispatch-buffer b _ r line c = refl

handle_if_any-buffer :
    (b line : Text) (c : Connection)
    → handle_if_any line (with_buffer b c) ≡ map_state (with_buffer b) (handle_if_any line c)
unfolding handle_if_any handle_line
handle_if_any-buffer b [] c = refl
handle_if_any-buffer b (x ∷ line) c = rw (dispatch-buffer b _ _ (x ∷ line) c)

handle_all-buffer :
    (b : Text) (ls : List Text) (c : Connection)
    → handle_all ls (with_buffer b c) ≡ map_state (with_buffer b) (handle_all ls c)
unfolding handle_all
handle_all-buffer b [] c = refl
handle_all-buffer b (l ∷ ls) c =
    rw (handle_if_any-buffer b l c) (rw (handle_all-buffer b ls (handle_if_any l c).0))

handle_all-nil : (c : Connection) → ◌≡◌ {A = Step} (c, []) (handle_all [] c)
unfolding handle_all
handle_all-nil c = refl

handle_all-append :
    (ls ms : List Text) (c : Connection)
    → handle_all (ls ++ ms) c ≡ (
      (handle_all ms (handle_all ls c).0).0,
      (handle_all ls c).1 ++ (handle_all ms (handle_all ls c).0).1,
    )
unfolding handle_all
handle_all-append [] ms c = refl
handle_all-append (l ∷ ls) ms c =
    rw (handle_all-append ls ms (handle_if_any l c).0) (rw append_assoc)

-- What `take_line` finds, in terms of the framing.
abbrev Taken : Text → Option (Text × Text) → Type 0
Taken ts none = split_lines ts ≡ ([], ts)
Taken ts (some (line, rest)) =
    (split_lines ts ≡ (line ∷ (split_lines rest).0, (split_lines rest).1))
    × (length rest < length ts)

extend_line-Taken :
    (x : ℕ) (ts : Text) (o : Option (Text × Text))
    → (x == 10) ≡ false
    → Taken ts o
    → Taken (x ∷ ts) (extend_line x o)
unfolding extend_line cons_first
extend_line-Taken x ts none n h = split_lines-cons x ts n ∙ rw h
extend_line-Taken x ts (some (line, rest)) n h =
    (split_lines-cons x ts n ∙ rw (h.0), omega (arith, h.1))

take_line-Taken : (ts : Text) → Taken ts (take_line ts)
unfolding take_line
take_line-Taken [] = unfold split_lines in refl
take_line-Taken (x ∷ ts) =
    let shorter = take_line-Taken ts in
    elim (Bool-cases (x == 10)) [
      | inl e ↦ rw e (split_lines-end x ts e, omega arith)
      | inr n ↦ rw n (extend_line-Taken x ts (take_line ts) n shorter)
    ]

-- One round of the loop handles the first line, and the other rounds the other lines.
drain_round :
    (f : ℕ) (line rest : Text) (c : Connection)
    → ((d : Connection)
        → drain f (with_buffer rest d)
          ≡ handle_all (split_lines rest).0 (with_buffer (split_lines rest).1 d))
    → (let (c1, acts) = handle_if_any line (with_buffer rest c) in
        let (c2, more) = drain f c1 in
        ◌≡◌ {A = Step}
          (c2, acts ++ more)
          (handle_all (line ∷ (split_lines rest).0) (with_buffer (split_lines rest).1 c)))
unfolding handle_all
drain_round f line rest c ih =
    rw (handle_if_any-buffer rest line c)
      (rw (ih (handle_if_any line c).0) (rw (handle_if_any-buffer (split_lines rest).1 line c)))

drain-split :
    (f : ℕ) (b : Text) (c : Connection)
    → length b ≤ f
    → drain f (with_buffer b c) ≡ handle_all (split_lines b).0 (with_buffer (split_lines b).1 c)
unfolding drain take_line handle_all
drain-split zero [] c h = unfold split_lines in refl
drain-split zero (x ∷ b) c h = absurd (omega arith)
drain-split (suc f) b c h = elim (Option-cases (take_line b)) [
  | inl e ↦
      let all : split_lines b ≡ ([], b) = subst (Taken b) e (take_line-Taken b) in
      rw e (rw all (handle_all-nil (with_buffer b c)))
  | inr ((line, rest), e) ↦
      let taken : Taken b (some (line, rest)) = subst (Taken b) e (take_line-Taken b) in
      rw e (
        rw (taken.0)
          (drain_round f line rest c (λ d. drain-split f rest d (omega (arith, taken.1)))))
]

-- Handling a chunk handles the lines that it completes, in order, and keeps what stands behind the
-- last line feed: the framing that `split_lines` specifies.
pub on_stdout-split_lines :
    (chunk : Text) (c : Connection)
    → on_stdout chunk c
      ≡ handle_all
          (split_lines (c.stdout_buffer ++ chunk)).0
          (with_buffer (split_lines (c.stdout_buffer ++ chunk)).1 c)
unfolding on_stdout
on_stdout-split_lines chunk c =
    drain-split (length (c.stdout_buffer ++ chunk)) (c.stdout_buffer ++ chunk) c (omega arith)

-- Where the stream is cut makes no difference: two chunks handled in turn do what the one chunk
-- does, with the same acts in the same order and the same final state.
pub on_stdout-append :
    (a b : Text) (c : Connection)
    → on_stdout (a ++ b) c
      ≡ ((on_stdout b (on_stdout a c).0).0, (on_stdout a c).1 ++ (on_stdout b (on_stdout a c).0).1)
on_stdout-append a b c =
    let first = split_lines (c.stdout_buffer ++ a) in
    let c1 = (handle_all first.0 c).0 in
    let second = split_lines (first.1 ++ b) in
    rw (on_stdout-split_lines (a ++ b) c, on_stdout-split_lines a c)
      (rw (← append_assoc c.stdout_buffer a b, split_lines-append (c.stdout_buffer ++ a) b)
        (rw
          (handle_all-buffer second.1 (first.0 ++ second.0) c, handle_all-buffer first.1 first.0 c)
          (rw (on_stdout-split_lines b (with_buffer first.1 c1))
            (rw (handle_all-buffer second.1 second.0 c1, handle_all-append first.0 second.0 c)))))
