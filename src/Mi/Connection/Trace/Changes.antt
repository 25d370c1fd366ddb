-- ===== src/Mi/Connection/Trace/Changes.antt =====
-- What each handler of `MiConnection` does to a token.
use vscode_cann_debugger.Base.{
  trim, length, ℕ, ◌≤◌, ◌<◌, true, false, ◌||◌, Option, none, some, List, [], ◌∷◌, ◌++◌, ◌≡◌, refl,
  sym, ◌∙◌, arith, Text, ◌==◌, if◌then◌else◌, ◌⊎◌, inl, inr, Bool-cases, subst, ==_iff,
  Option-cases,
}
use vscode_cann_debugger.Mi.Line.{MiRecord, MiRecordType, result, prompt, parse_mi_line}
use vscode_cann_debugger.Mi.Connection.{
  ExitStatus, spawn_failed, debugger_exited, Connection, Act, Step, Failure, error_seen, exit_seen,
  find_pending, delete_pending, reject_all, fail_all_pending, settle, is_error, handle_result,
  pending_for, dispatch, log_received, handle_line, handle_if_any, on_stdout, on_write_error,
  on_error, on_exit,
}
use vscode_cann_debugger.Mi.Connection.Framing.{
  split_lines, handle_all, with_buffer, on_stdout-split_lines,
}
use vscode_cann_debugger.Mi.Connection.Routing.{find_pending-delete_pending}
use vscode_cann_debugger.Mi.Connection.Stderr.{
  has_marker, first_pid, keep_tail, remove_pids, on_stderr, noted_pid, inferior_if_any, has_marker,
  first_pid, keep_tail, remove_pids,
}
use vscode_cann_debugger.Mi.Connection.Trace.{is_some, is_pending, settles, settled}

-- A token keeps its place, or its promise is settled and it is out of the map.
pub data Change (t : ℕ) (c c' : Connection) (acts : List Act) : Type 0 where
  same : is_pending t c' ≡ is_pending t c → settled t acts ≡ false → Change t c c' acts
  done :
      is_pending t c' ≡ false
      → settled t acts ≡ true
      → (is_pending t c ≡ true) ⊎ ((0 < t) × (t ≤ c.token))
      → Change t c c' acts

pub record Keeps (c : Connection) (s : Step) : Type 0 where
  pub same_token : s.0.token ≡ c.token
  pub change : (t : ℕ) → Change t c s.0 s.1

pub settled-append :
    (t : ℕ) (xs ys : List Act) → settled t (xs ++ ys) ≡ (settled t xs || settled t ys)
unfolding settled
settled-append t [] ys = refl
settled-append t (x ∷ xs) ys = ground (arith, settled-append t xs ys)

Change-trans :
    (t : ℕ) (c d e : Connection) (xs ys : List Act)
    → d.token ≡ c.token
    → Change t c d xs
    → Change t d e ys
    → Change t c e (xs ++ ys)
Change-trans t c d e xs ys k (same p q) (same r s) =
    same (r ∙ p) (ground (arith, settled-append t xs ys))
Change-trans t c d e xs ys k (same p q) (done r s (inl o)) =
    done r (ground (arith, settled-append t xs ys)) (inl (sym p ∙ o))
Change-trans t c d e xs ys k (same p q) (done r s (inr o)) =
    done r (ground (arith, settled-append t xs ys)) (inr (omega arith))
Change-trans t c d e xs ys k (done p q o) (same r s) =
    done (r ∙ p) (ground (arith, settled-append t xs ys)) o
Change-trans t c d e xs ys k (done p q o) (done r s _) =
    done r (ground (arith, settled-append t xs ys)) o

Keeps-trans :
    (c d e : Connection) (xs ys : List Act)
    → Keeps c (d, xs)
    → Keeps d (e, ys)
    → Keeps c (e, xs ++ ys)
Keeps-trans c d e xs ys h k = record {
  same_token = k.same_token ∙ h.same_token;
  change = λ t. Change-trans t c d e xs ys h.same_token (h.change t) (k.change t);
}

-- Nothing changes in the map, and nothing is settled.
Keeps-still :
    (c c' : Connection) (acts : List Act)
    → c'.pending ≡ c.pending
    → c'.token ≡ c.token
    → ((t : ℕ) → settled t acts ≡ false)
    → Keeps c (c', acts)
unfolding is_pending
Keeps-still c c' acts p k quiet = record { same_token = k; change = λ t. same (rw p) (quiet t) }

settles-settle : (j t : ℕ) (cmd : Text) (r : MiRecord) → settles j (settle t cmd r) ≡ (t == j)
unfolding settles settle
settles-settle j t cmd r = elim (Bool-cases (is_error r.class)) [ inl e ↦ rw e | inr e ↦ rw e ]

is_pending-delete_pending :
    (t j : ℕ) (c : Connection)
    → is_pending j (record c { pending = delete_pending t c.pending })
      ≡ (if t == j then false else is_pending j c)
unfolding is_pending is_some
is_pending-delete_pending t j c = elim (Bool-cases (t == j)) [
  | inl e ↦ rw find_pending-delete_pending (rw e)
  | inr e ↦ rw find_pending-delete_pending (rw e)
]

-- One act takes `t` out of the map and settles it, and no other token.
Keeps-delete :
    (t : ℕ) (c : Connection) (act : Act)
    → ((j : ℕ) → settles j act ≡ (t == j))
    → (is_pending t c ≡ true) ⊎ ((0 < t) × (t ≤ c.token))
    → Keeps c (record c { pending = delete_pending t c.pending }, act ∷ [])
unfolding settled
Keeps-delete t c act s o = record {
  same_token = refl;
  change = λ j. elim (Bool-cases (t == j)) [
    | inl e ↦
        done (is_pending-delete_pending t j c ∙ rw e) (rw (s j) (rw e))
          (subst (λ k. (is_pending k c ≡ true) ⊎ ((0 < k) × (k ≤ c.token))) ((==_iff t j).0 e) o)
    | inr e ↦ same (is_pending-delete_pending t j c ∙ rw e) (rw (s j) (rw e))
  ];
}

handle_pending-Keeps :
    (t : ℕ) (cmd : Text) (r : MiRecord) (c : Connection)
    → find_pending t c.pending ≡ some cmd
    → Keeps c (record c { pending = delete_pending t c.pending }, settle t cmd r ∷ [])
unfolding is_pending is_some
handle_pending-Keeps t cmd r c e =
    Keeps-delete t c (settle t cmd r) (λ j. settles-settle j t cmd r) (inl (rw e))

handle_result-Keeps :
    (t : Option ℕ) (r : MiRecord) (c : Connection)
    → Keeps c (handle_result t (pending_for t c.pending) r c)
unfolding handle_result pending_for
handle_result-Keeps none r c = Keeps-still c c _ refl refl (λ j. unfold settled in refl)
handle_result-Keeps (some t) r c = elim (Option-cases (find_pending t c.pending)) [
  | inl e ↦ rw (e, pending_for) (Keeps-still c c _ refl refl (λ j. unfold settled in refl))
  | inr (cmd, e) ↦ rw (e, pending_for) (handle_pending-Keeps t cmd r c e)
]

dispatch-Keeps :
    (t : MiRecordType) (r : MiRecord) (line : Text) (c : Connection) → Keeps c (dispatch t r line c)
unfolding dispatch
dispatch-Keeps result r line c = handle_result-Keeps r.token r c
dispatch-Keeps prompt r line c = Keeps-still c c _ refl refl (λ j. unfold settled in refl)
dispatch-Keeps _ r line c = Keeps-still c c _ refl refl (λ j. unfold settled in refl)

settled-log_received :
    (t : ℕ) (ty : MiRecordType) (line : Text) → settled t (log_received ty line) ≡ false
unfolding settled log_received
settled-log_received t prompt line = refl
settled-log_received t _ line = refl

handle_if_any-Keeps : (line : Text) (c : Connection) → Keeps c (handle_if_any line c)
unfolding handle_if_any handle_line
handle_if_any-Keeps [] c = Keeps-still c c [] refl refl (λ j. unfold settled in refl)
handle_if_any-Keeps (x ∷ line) c =
    let r = parse_mi_line (x ∷ line) in
    let (c', acts) = dispatch r.type r (x ∷ line) c in
    Keeps-trans c c c' (log_received r.type (x ∷ line)) acts
      (Keeps-still c c _ refl refl (λ t. settled-log_received t r.type (x ∷ line)))
      (dispatch-Keeps r.type r (x ∷ line) c)

handle_all-Keeps : (ls : List Text) (c : Connection) → Keeps c (handle_all ls c)
unfolding handle_all
handle_all-Keeps [] c = Keeps-still c c [] refl refl (λ j. unfold settled in refl)
handle_all-Keeps (l ∷ ls) c =
    let (c1, acts) = handle_if_any l c in
    Keeps-trans c c1 _ acts _ (handle_if_any-Keeps l c) (handle_all-Keeps ls c1)

pub on_stdout-Keeps : (chunk : Text) (c : Connection) → Keeps c (on_stdout chunk c)
on_stdout-Keeps chunk c = rw (on_stdout-split_lines chunk c) (
    let (ls, rest) = split_lines (c.stdout_buffer ++ chunk) in
    let moved = with_buffer rest c in
    Keeps-trans c moved _ [] _ (Keeps-still c moved [] refl refl (λ j. unfold settled in refl))
      (handle_all-Keeps ls moved))

noted_pid-Keeps : (o : Option Text) (c : Connection) → Keeps c (noted_pid o c)
unfolding noted_pid
noted_pid-Keeps none c = Keeps-still c c [] refl refl (λ j. unfold settled in refl)
noted_pid-Keeps (some ds) c = Keeps-still c _ _ refl refl (λ j. unfold settled in refl)

settled-inferior_if_any :
    (t : ℕ) (trimmed rest : Text) → settled t (inferior_if_any trimmed rest) ≡ false
unfolding settled inferior_if_any
settled-inferior_if_any t [] rest = refl
settled-inferior_if_any t (x ∷ trimmed) rest = refl

pub on_stderr-Keeps : (chunk : Text) (c : Connection) → Keeps c (on_stderr chunk c)
unfolding on_stderr
on_stderr-Keeps chunk c =
    let buffered = record c { stderr_buffer = keep_tail (c.stderr_buffer ++ chunk) } in
    let (noted, acts) = noted_pid (first_pid chunk) buffered in
    let rest = remove_pids (length chunk) chunk in
    let still : Keeps c (buffered, []) =
      Keeps-still c buffered [] refl refl (λ j. unfold settled in refl) in
    elim (Bool-cases (has_marker chunk)) [
      | inl m ↦ rw m (
          Keeps-trans c buffered noted [] (acts ++ inferior_if_any (trim rest) rest) still (
            Keeps-trans buffered noted noted acts _ (noted_pid-Keeps (first_pid chunk) buffered)
              (Keeps-still noted noted _ refl refl (λ j. settled-inferior_if_any j _ rest))))
      | inr m ↦ rw m (Keeps-still c buffered _ refl refl (λ j. settled-inferior_if_any j _ chunk))
    ]

settled-reject_all :
    (t : ℕ) (err : Failure) (ps : List (ℕ × Text))
    → settled t (reject_all err ps) ≡ is_some (find_pending t ps)
unfolding settled reject_all find_pending is_some
settled-reject_all t err [] = refl
settled-reject_all t err ((j, cmd) ∷ ps) = ground (arith, settled-reject_all t err ps)

fail_all_pending-Keeps : (err : Failure) (c : Connection) → Keeps c (fail_all_pending err c)
unfolding fail_all_pending is_pending find_pending
fail_all_pending-Keeps err c = record {
  same_token = refl;
  change = λ t. elim (Bool-cases (is_pending t c)) [
    | inl p ↦ done refl (settled-reject_all t err c.pending ∙ p) (inl p)
    | inr p ↦ same (sym p) (settled-reject_all t err c.pending ∙ p)
  ];
}

pub on_error-Keeps : (err : Text) (c : Connection) → Keeps c (on_error err c)
unfolding on_error
on_error-Keeps err c =
    Keeps-trans c c _ (error_seen err ∷ []) _
      (Keeps-still c c _ refl refl (λ j. unfold settled in refl))
      (fail_all_pending-Keeps (spawn_failed err) c)

pub on_exit-Keeps : (code : ExitStatus) (c : Connection) → Keeps c (on_exit code c)
unfolding on_exit
on_exit-Keeps code c =
    let gone = record c { exited = true } in
    let (c', acts) = fail_all_pending (debugger_exited code) gone in
    Keeps-trans c c' c' acts (exit_seen code ∷ [])
      (Keeps-trans c gone c' [] acts (Keeps-still c gone [] refl refl (λ j. unfold settled in refl))
        (fail_all_pending-Keeps (debugger_exited code) gone))
      (Keeps-still c' c' _ refl refl (λ j. unfold settled in refl))

pub on_write_error-Keeps :
    (t : ℕ) (err : Text) (c : Connection) → 0 < t → t ≤ c.token → Keeps c (on_write_error t err c)
unfolding on_write_error
on_write_error-Keeps t err c pos le =
    Keeps-delete t c _ (λ j. unfold settles in refl) (inr (pos, le))
