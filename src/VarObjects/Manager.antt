-- ===== src/VarObjects/Manager.antt =====
-- `VarObjectManager` of src/varObjects.ts, method by method, over the commands of MiConnection that
-- it uses (src/mi/miConnection.ts). A method runs from its call to the end of its promise.
pub mod Lifetime
use vscode_cann_debugger.Base.{
  ℕ, zero, ◌+◌, Bool, true, false, Option, none, some, List, [], ◌∷◌, ◌++◌, Text, codes, decimal,
  ◌===◌, if◌then◌else◌, ◌≡◌, ap, ◌∙◌, true, ℤ, pos, negsuc,
}
use vscode_cann_debugger.Mi.Value.{MiValue, MiTuple, get, mi_string, mi_list}
use vscode_cann_debugger.Mi.CString.{quote_mi_string}
use vscode_cann_debugger.Mi.Number.{mi_number}

-- How a command ends: its results, or a rejection with a message.
pub data Outcome {ℓ} (A : Type ℓ) : Type ℓ where
  done : A → Outcome A
  rejected : Text → Outcome A

-- The debugger behind the connection: what it answers to a command, given those sent before. It may
-- answer anything.
pub record Debugger : Type 0 where
  pub reply : List Text → Text → Outcome MiTuple

-- The manager with what it sees of the connection: whether it runs, and the commands sent on it.
-- `live` is a JavaScript Set in the order of insertion.
pub record Manager : Type 0 where
  pub running : Bool
  pub sent : List Text
  pub live : List Text

-- An asynchronous method: its outcome and the state behind it.
abbrev pub Async {ℓ} : Type 0 → Type ℓ → Type ℓ
Async S A = S → Outcome A × S

abbrev pub and_then {ℓ κ} :
    {S : Type 0} {A : Type ℓ} {B : Type κ} → Outcome A × S → (A → Async S B) → Outcome B × S
and_then (done a, m) f = f a m
and_then (rejected e, m) f = (rejected e, m)

infixl 5 ◌>>=◌
abbrev pub ◌>>=◌ {ℓ κ} :
    {S : Type 0} {A : Type ℓ} {B : Type κ} → Async S A → (A → Async S B) → Async S B
(x >>= f) m = and_then (x m) f

abbrev pub return {ℓ} : {S : Type 0} {A : Type ℓ} → A → Async S A
return a m = (done a, m)

-- `catch`: the value in place of a rejection.
abbrev pub recovered {ℓ} : {S : Type 0} {A : Type ℓ} → A → Outcome A × S → Outcome A × S
recovered otherwise (done a, m) = (done a, m)
recovered otherwise (rejected e, m) = (done otherwise, m)

abbrev pub or_caught {ℓ} : {S : Type 0} {A : Type ℓ} → Async S A → A → Async S A
or_caught x otherwise m = recovered otherwise (x m)

-- The message of a command on a connection that does not run.
abbrev pub not_running : Text → Text
not_running command =
    codes "Cannot send \"" ++ (command ++ codes "\": the debugger is not running.")

-- `sendCommand`
unfoldable pub send : Debugger → Text → Async Manager MiTuple
send d command m =
    if m.running
    then (d.reply m.sent command, record m { sent = m.sent ++ command ∷ [] })
    else (rejected (not_running command), m)

-- `sendCommandIgnoringErrors`, whose results are not used.
unfoldable pub send_ignoring_errors : Debugger → Text → Async Manager (Unit {0})
unfolding send
send_ignoring_errors d command = or_caught (send d command >>= (λ results. return tt)) tt

-- `this.live.add(name)`
unfoldable pub add : Text → List Text → List Text
add name [] = name ∷ []
add name (n ∷ ns) = if n === name then n ∷ ns else n ∷ add name ns

-- `if (name) { this.live.add(name); }`
unfoldable pub remember : Text → Manager → Manager
unfolding add
remember [] m = m
remember (c ∷ name) m = record m { live = add (c ∷ name) m.live }

pub record VarObject : Type 0 where
  pub name : Text
  pub expression : Text
  pub value : Text
  pub type : Text
  pub numchild : ℤ
  pub has_more : Bool
  pub dynamic : Bool
  pub thread_id : Option ℤ
  pub frame_level : Option ℕ

-- `miString(t[key])`, and the same with `=== '1'`.
unfoldable pub text_of : MiTuple → Text → Text
unfolding mi_string get
text_of t key = mi_string (get t key) []

unfoldable pub flag_of : MiTuple → Text → Bool
unfolding text_of ◌===◌
flag_of t key = text_of t key === codes "1"

unfoldable pub create_command : Text → ℕ → ℕ → Text
unfolding quote_mi_string decimal
create_command expression thread level =
    codes "-var-create --thread "
    ++ (decimal thread
        ++ (codes " --frame " ++ (decimal level ++ (codes " - * " ++ quote_mi_string expression))))

created : Text → ℕ → ℕ → MiTuple → VarObject
unfolding text_of flag_of mi_number get
created expression thread level r = record {
  name = text_of r (codes "name");
  expression = expression;
  value = text_of r (codes "value");
  type = text_of r (codes "type");
  numchild = mi_number (get r (codes "numchild")) (pos 0);
  has_more = flag_of r (codes "has_more");
  dynamic = flag_of r (codes "dynamic");
  thread_id = some (pos thread);
  frame_level = some level;
}

unfoldable pub create : Debugger → Text → ℕ → ℕ → Async Manager VarObject
unfolding send create_command created remember
create d expression thread level =
    send d (create_command expression thread level)
    >>= (λ r m. (done (created expression thread level r), remember (text_of r (codes "name")) m))

-- `miNumber(…) || undefined`
abbrev pub unless_zero : ℤ → Option ℤ
unless_zero (pos zero) = none
unless_zero n = some n

-- The object that `toVarObject` gives.
child_object : MiTuple → VarObject
unfolding text_of flag_of mi_number get mi_string
child_object t = record {
  name = text_of t (codes "name");
  expression = mi_string (get t (codes "exp")) (text_of t (codes "name"));
  value = text_of t (codes "value");
  type = text_of t (codes "type");
  numchild = mi_number (get t (codes "numchild")) (pos 0);
  has_more = flag_of t (codes "has_more");
  dynamic = flag_of t (codes "dynamic");
  thread_id = unless_zero (mi_number (get t (codes "thread-id")) (pos 0));
  frame_level = none;
}

-- `toVarObject` of each child in turn.
unfoldable pub to_var_objects : List MiTuple → Async Manager (List VarObject)
unfolding child_object remember
to_var_objects [] m = (done [], m)
to_var_objects (t ∷ ts) m =
    (to_var_objects ts >>= (λ more. return (child_object t ∷ more)))
      (remember (text_of t (codes "name")) m)

-- The slice of `children`, where it is asked for.
unfoldable pub range : Option ℕ → Option ℕ → Text
range (some start) (some zero) = []
range (some start) (some count) =
    codes " " ++ (decimal start ++ (codes " " ++ decimal (start + count)))
range start count = []

-- An entry is `child={...}` or a bare tuple, which is how `miList` reads a list.
unfoldable pub children : Debugger → Text → Option ℕ → Option ℕ → Async Manager (List VarObject)
unfolding send range mi_list get to_var_objects quote_mi_string
children d name start count =
    send d (codes "-var-list-children --all-values " ++ (quote_mi_string name ++ range start count))
    >>= (λ r. to_var_objects (mi_list (get r (codes "children")) (codes "child")))

unfoldable pub path_expression : Debugger → Text → Async Manager Text
unfolding send text_of quote_mi_string
path_expression d name =
    or_caught
      (send d (codes "-var-info-path-expression " ++ quote_mi_string name)
        >>= (λ r. return (text_of r (codes "path_expr"))))
      []

unfoldable pub assign_value : Debugger → Text → Text → Async Manager Text
unfolding send text_of quote_mi_string
assign_value d name value =
    send d (codes "-var-assign " ++ (quote_mi_string name ++ (codes " " ++ quote_mi_string value)))
    >>= (λ r. return (text_of r (codes "value")))

pub data Format : Type 0 where
  natural hexadecimal decimal_format binary octal : Format

unfoldable pub format_name : Format → Text
format_name natural = codes "natural"
format_name hexadecimal = codes "hexadecimal"
format_name decimal_format = codes "decimal"
format_name binary = codes "binary"
format_name octal = codes "octal"

unfoldable pub set_format : Debugger → Text → Format → Async Manager (Unit {0})
unfolding send_ignoring_errors format_name quote_mi_string
set_format d name format =
    send_ignoring_errors d
      (codes "-var-set-format " ++ (quote_mi_string name ++ (codes " " ++ format_name format)))

unfoldable pub delete_command : Text → Text
unfolding quote_mi_string
delete_command n = codes "-var-delete " ++ quote_mi_string n

delete_each : Debugger → List Text → Async Manager (Unit {0})
unfolding send_ignoring_errors delete_command
delete_each d [] = return tt
delete_each d (n ∷ ns) = send_ignoring_errors d (delete_command n) >>= (λ u. delete_each d ns)

-- `names` is what `live` held when it was cleared.
released : Debugger → List Text → Manager → Outcome (Unit {0}) × Manager
unfolding delete_each
released d [] m = (done tt, m)
released d (n ∷ ns) m = if m.running then delete_each d (n ∷ ns) m else (done tt, m)

-- `releaseAll`
unfoldable pub release_all : Debugger → Async Manager (Unit {0})
unfolding released
release_all d m = released d m.live (record m { live = [] })
