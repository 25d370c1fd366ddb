-- ===== src/VarObjects/Manager/Lifetime.antt =====
-- The lifetime of variable objects in src/varObjects.ts: what `releaseAll` deletes, after any calls
-- of the other methods.
use mathlib.Core.List.{map}
use vscode_cann_debugger.Base.{
  ℕ, zero, suc, ◌+◌, ◌≤◌, Bool, true, false, Option, List, [], ◌∷◌, ◌++◌, append-nil, append_assoc,
  Text, codes, ◌===◌, ===_iff, if◌then◌else◌, Bool-cases, inl, inr, ◌⊎◌, ◌≡◌, refl, ap, sym, ◌∙◌,
  arith,
}
use vscode_cann_debugger.Mi.Value.{MiTuple, get, mi_list}
use vscode_cann_debugger.Mi.CString.{quote_mi_string}
use vscode_cann_debugger.VarObjects.Manager.{
  Outcome, done, rejected, Debugger, Manager, Async, and_then, recovered, return, format_name,
  not_running, send, send_ignoring_errors, add, remember, VarObject, text_of, create_command,
  create, child_object, to_var_objects, children, path_expression, assign_value, Format, set_format,
  delete_command, delete_each, released, release_all,
}

-- The calls between two releases, and the exit of the debugger.
pub data Call : Type 0 where
  creating : Text → ℕ → ℕ → Call
  listing : Text → Option ℕ → Option ℕ → Call
  locating : Text → Call
  assigning : Text → Text → Call
  formatting : Text → Format → Call
  exiting : Call

abbrev one_object : Outcome VarObject × Manager → List VarObject × Manager
one_object (done v, m) = (v ∷ [], m)
one_object (rejected e, m) = ([], m)

abbrev some_objects : Outcome (List VarObject) × Manager → List VarObject × Manager
some_objects (done vs, m) = (vs, m)
some_objects (rejected e, m) = ([], m)

abbrev no_objects {ℓ} : {A : Type ℓ} → Outcome A × Manager → List VarObject × Manager
no_objects (o, m) = ([], m)

-- The objects that the call returned, and the state behind it.
unfoldable pub perform : Debugger → Call → Manager → List VarObject × Manager
unfolding create children path_expression assign_value set_format
perform d (creating expression thread level) m = one_object (create d expression thread level m)
perform d (listing name start count) m = some_objects (children d name start count m)
perform d (locating name) m = no_objects (path_expression d name m)
perform d (assigning name value) m = no_objects (assign_value d name value m)
perform d (formatting name format) m = no_objects (set_format d name format m)
perform d exiting m = ([], record m { running = false })

unfoldable pub perform_all : Debugger → List Call → Manager → List VarObject × Manager
unfolding perform
perform_all d [] m = ([], m)
perform_all d (c ∷ cs) m =
    let (objects, m1) = perform d c m in
    let (more, m2) = perform_all d cs m1 in (objects ++ more, m2)

-- `live` grown by the names of objects, in order; one without a name is none of the debugger's.
add_named : Text → List Text → List Text
unfolding add
add_named [] live = live
add_named (c ∷ n) live = add (c ∷ n) live

unfoldable pub add_objects : List VarObject → List Text → List Text
unfolding add_named
add_objects [] live = live
add_objects (v ∷ vs) live = add_objects vs (add_named v.name live)

remember_lem : (n : Text) (m : Manager) → remember n m ≡ record m { live = add_named n m.live }
unfolding remember add_named
remember_lem [] m = refl
remember_lem (c ∷ n) m = refl

add_objects-append :
    (vs ws : List VarObject) (live : List Text)
    → add_objects (vs ++ ws) live ≡ add_objects ws (add_objects vs live)
unfolding add_objects
add_objects-append [] ws live = refl
add_objects-append (v ∷ vs) ws live = add_objects-append vs ws (add_named v.name live)

-- What a list of children does to the state: it always succeeds, and only `live` grows.
to_var_objects-done :
    (ts : List MiTuple) (m : Manager)
    → to_var_objects ts m
      ≡ (done (map child_object ts), record m { live = add_objects (map child_object ts) m.live })
unfolding to_var_objects add_objects child_object remember add_named
to_var_objects-done [] m = refl
to_var_objects-done (t ∷ ts) m =
    rw (to_var_objects-done ts (remember (text_of t (codes "name")) m))
      (rw (remember_lem (text_of t (codes "name")) m))

-- A call adds the names of the objects that it returned, and nothing else.
abbrev IsRecorded : Manager → List VarObject × Manager → Type 0
IsRecorded m (objects, m1) = m1.live ≡ add_objects objects m.live

send-IsRecorded :
    {B : Type 0} (d : Debugger) (command : Text) (m : Manager) (f : MiTuple → Async Manager B)
    (collect : Outcome B × Manager → List VarObject × Manager)
    → ((e : Text) (m1 : Manager) → m1.live ≡ m.live → IsRecorded m (collect (rejected e, m1)))
    → ((r : MiTuple) (m1 : Manager) → m1.live ≡ m.live → IsRecorded m (collect (f r m1)))
    → IsRecorded m (collect (and_then (send d command m) f))
unfolding send
send-IsRecorded d command m f collect on_error on_reply = answered m.running
  where
    replied :
        (o : Outcome MiTuple)
        → IsRecorded m (collect (and_then (o, record m { sent = m.sent ++ command ∷ [] }) f))
    replied (done r) = on_reply r (record m { sent = m.sent ++ command ∷ [] }) refl
    replied (rejected e) = on_error e (record m { sent = m.sent ++ command ∷ [] }) refl

    answered :
        (b : Bool)
        → IsRecorded m (
            collect (
              and_then
                (if b
                  then (d.reply m.sent command, record m { sent = m.sent ++ command ∷ [] })
                  else (rejected (not_running command), m))
                f))
    answered true = replied (d.reply m.sent command)
    answered false = on_error (not_running command) m refl

perform-IsRecorded : (d : Debugger) (c : Call) (m : Manager) → IsRecorded m (perform d c m)
unfolding perform create children path_expression assign_value set_format send_ignoring_errors
    add_objects
perform-IsRecorded d (creating expression thread level) m =
    send-IsRecorded d (create_command expression thread level) m _ one_object (λ e m1 h. h)
      (λ r m1 h.
        ap (λ (x : Manager). x.live) (remember_lem (text_of r (codes "name")) m1)
        ∙ ap (add_named (text_of r (codes "name"))) h)
perform-IsRecorded d (listing name start count) m =
    send-IsRecorded d _ m _ some_objects (λ e m1 h. h)
      (λ r m1 h. rw (to_var_objects-done (mi_list (get r (codes "children")) (codes "child")) m1) (
        ap (add_objects (map child_object (mi_list (get r (codes "children")) (codes "child")))) h))
perform-IsRecorded d (locating name) m =
    send-IsRecorded {B = Text} d (codes "-var-info-path-expression " ++ quote_mi_string name) m
      (λ r. return (text_of r (codes "path_expr"))) (λ o. no_objects (recovered [] o)) (λ e m1 h. h)
      (λ r m1 h. h)
perform-IsRecorded d (assigning name value) m =
    send-IsRecorded d _ m _ no_objects (λ e m1 h. h) (λ r m1 h. h)
perform-IsRecorded d (formatting name format) m =
    send-IsRecorded {B = Unit {0}} d
      (codes "-var-set-format " ++ (quote_mi_string name ++ (codes " " ++ format_name format))) m
      (λ r. return tt) (λ o. no_objects (recovered tt o)) (λ e m1 h. h) (λ r m1 h. h)
perform-IsRecorded d exiting m = refl

perform_all-IsRecorded :
    (d : Debugger) (cs : List Call) (m : Manager) → IsRecorded m (perform_all d cs m)
unfolding perform_all add_objects
perform_all-IsRecorded d [] m = refl
perform_all-IsRecorded d (c ∷ cs) m =
    perform_all-IsRecorded d cs (perform d c m).1
    ∙ ap (add_objects (perform_all d cs (perform d c m).1).0) (perform-IsRecorded d c m)
    ∙ rw add_objects-append

-- How often a text occurs.
unfoldable pub occurrences : Text → List Text → ℕ
occurrences n [] = 0
occurrences n (x ∷ xs) = if x === n then suc (occurrences n xs) else occurrences n xs

abbrev once : ℕ → ℕ
once zero = 1
once (suc k) = suc k

occurrences-add :
    (n k : Text) (live : List Text)
    → occurrences n (add k live)
      ≡ (if k === n then once (occurrences n live) else occurrences n live)
unfolding occurrences add
occurrences-add n k [] = refl
occurrences-add n k (x ∷ xs) = elim (Bool-cases (x === k)) [
  | inl e ↦ rw e (same (k === n) (x === n) (ap (λ t. t === n) (sym ((===_iff x k).0 e))))
  | inr h ↦ rw h (other (Bool-cases (k === n)) (Bool-cases (x === n)) h (occurrences-add n k xs))
]
  where
    other :
        (p : ((k === n) ≡ true) ⊎ ((k === n) ≡ false))
        → (q : ((x === n) ≡ true) ⊎ ((x === n) ≡ false)) → (x === k) ≡ false
        → occurrences n (add k xs) ≡ (if k === n then once (occurrences n xs) else occurrences n xs)
        → (if x === n then suc (occurrences n (add k xs)) else occurrences n (add k xs)) ≡ (
            if k === n
            then once (if x === n then suc (occurrences n xs) else occurrences n xs)
            else (if x === n then suc (occurrences n xs) else occurrences n xs))
    other (inl p) (inl q) h ih =
        let both = (===_iff x k).1 ((===_iff x n).0 q ∙ sym ((===_iff k n).0 p)) in cc
    other (inl p) (inr q) h ih = rw q ih
    other (inr p) (inl q) h ih = rw q (rw p (ap suc (ih ∙ rw p)))
    other (inr p) (inr q) h ih = rw q ih

    same :
        (p q : Bool)
        → p ≡ q
        → (if q then suc (occurrences n xs) else occurrences n xs) ≡ (
            if p
            then once (if q then suc (occurrences n xs) else occurrences n xs)
            else (if q then suc (occurrences n xs) else occurrences n xs))
    same p true e = rw e
    same p false e = rw e

abbrev pub is_named : Text → Bool
is_named [] = false
is_named (c ∷ n) = true

unfoldable pub names_of : List VarObject → List Text
names_of [] = []
names_of (v ∷ vs) = v.name ∷ names_of vs

-- How often a set holds a text that was put into it.
abbrev pub one_if_any : ℕ → ℕ
one_if_any zero = 0
one_if_any (suc k) = 1

occurrences-add_named :
    (n k : Text) (live : List Text)
    → is_named n ≡ true
    → occurrences n (add_named k live)
      ≡ (if k === n then once (occurrences n live) else occurrences n live)
unfolding add_named ◌===◌
occurrences-add_named (c ∷ n) [] live h = refl
occurrences-add_named [] k live h = cc
occurrences-add_named n (e ∷ k) live h = occurrences-add n (e ∷ k) live

occurrences-add_objects :
    (n : Text) (vs : List VarObject) (live : List Text)
    → is_named n ≡ true
    → occurrences n live ≤ 1
    → occurrences n (add_objects vs live)
      ≡ one_if_any (occurrences n live + occurrences n (names_of vs))
unfolding add_objects names_of occurrences add_named
occurrences-add_objects n [] live named h = ground arith
occurrences-add_objects n (v ∷ vs) live named h =
    let first = occurrences-add_named n v.name live named in
    let rest = occurrences-add_objects n vs (add_named v.name live) named in
    ground (arith, first, rest)

occurrences-add_objects_fresh :
    (n : Text) (vs : List VarObject)
    → is_named n ≡ true
    → occurrences n (add_objects vs []) ≡ one_if_any (occurrences n (names_of vs))
unfolding occurrences
occurrences-add_objects_fresh n vs named =
    ground (arith, occurrences-add_objects n vs [] named (omega arith))

send_ignoring_errors_lem :
    (d : Debugger) (command : Text) (m : Manager)
    → m.running ≡ true
    → send_ignoring_errors d command m ≡ (done tt, record m { sent = m.sent ++ command ∷ [] })
unfolding send_ignoring_errors send
send_ignoring_errors_lem d command m h =
    ap
      (λ b. recovered (tt {0}) (
        and_then
          (if b
            then (d.reply m.sent command, record m { sent = m.sent ++ command ∷ [] })
            else (rejected (not_running command), m))
          (λ r. return (tt {0}))))
      h
    ∙ swallowed (d.reply m.sent command)
  where
    swallowed :
        (o : Outcome MiTuple)
        → recovered
            (tt {0})
            (and_then (o, record m { sent = m.sent ++ command ∷ [] }) (λ r. return tt))
          ≡ (done tt, record m { sent = m.sent ++ command ∷ [] })
    swallowed (done r) = refl
    swallowed (rejected e) = refl

delete_each_lem :
    (d : Debugger) (ns : List Text) (m : Manager)
    → m.running ≡ true
    → delete_each d ns m ≡ (done tt, record m { sent = m.sent ++ map delete_command ns })
unfolding delete_each
delete_each_lem d [] m h = rw append-nil
delete_each_lem d (n ∷ ns) m h =
    rw (send_ignoring_errors_lem d (delete_command n) m h) (
      delete_each_lem d ns (record m { sent = m.sent ++ delete_command n ∷ [] }) h
      ∙ rw append_assoc)

released_lem :
    (d : Debugger) (ns : List Text) (m : Manager)
    → m.running ≡ true
    → released d ns m ≡ (done tt, record m { sent = m.sent ++ map delete_command ns })
unfolding released
released_lem d [] m h = rw append-nil
released_lem d (n ∷ ns) m h =
    ap (λ b. if b then delete_each d (n ∷ ns) m else (done tt, m)) h
    ∙ delete_each_lem d (n ∷ ns) m h

-- A manager whose last release left nothing to delete, after any calls of its methods, whatever the
-- debugger answered. If the debugger still runs, `releaseAll` succeeds, sends one `-var-delete` for
-- each name in `live` and no other command, and empties `live`; and a name that is not empty is
-- among them exactly once if a call returned an object of that name, and not at all otherwise.
pub release_all-deletes :
    (d : Debugger) (cs : List Call) (m : Manager)
    → m.live ≡ []
    → (perform_all d cs m).1.running ≡ true
    → (names : List Text) × (release_all d (perform_all d cs m).1 ≡ (
      done tt,
      record (perform_all d cs m).1 {
        sent = (perform_all d cs m).1.sent ++ map delete_command names;
        live = [];
      },
    ))
      × ((n : Text)
          → is_named n ≡ true
          → occurrences n names ≡ one_if_any (occurrences n (names_of (perform_all d cs m).0)))
unfolding release_all occurrences
release_all-deletes d cs m e h =
    let made = perform_all-IsRecorded d cs m in
    (
      (perform_all d cs m).1.live,
      released_lem d (perform_all d cs m).1.live (record (perform_all d cs m).1 { live = [] }) h,
      λ n named.
          ap (occurrences n) made
          ∙ ap (λ live. occurrences n (add_objects (perform_all d cs m).0 live)) e
          ∙ occurrences-add_objects_fresh n (perform_all d cs m).0 named,
    )
