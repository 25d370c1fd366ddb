-- ===== src/TypeFormatters/StdString.antt =====
-- `StdStringFormatter` of src/typeFormatters.ts, and the registry with both formatters.
use vscode_cann_debugger.Base.{
  ℕ, ◌-◌, Bool, false, not, ◌&&◌, ◌||◌, Option, none, some, List, [], ◌∷◌, ◌++◌, Text, codes,
  decimal, length, ltb, ◌==◌, ◌===◌, if◌then◌else◌, min, ℤ, pos, ◌+ℤ◌, ltb_ℤ, eqb_ℤ,
}
use vscode_cann_debugger.Mi.Number.{hexadecimal_ℤ}
use vscode_cann_debugger.VarObjects.Manager.{Async, ◌>>=◌, return}
use vscode_cann_debugger.VarObjects.Memory.{evaluate_integer, read_memory_bytes}
use vscode_cann_debugger.TypeFormatters.Types.{
  strip_cv_ref, first_template_argument, std_name, is_template_of,
}
use vscode_cann_debugger.TypeFormatters.Display.{Utf8, decode_text, quote_text}
use vscode_cann_debugger.TypeFormatters.Registry.{
  Client, FormatterContext, Variable, FormatterView, TypeFormatter, on_manager, register,
}
use vscode_cann_debugger.TypeFormatters.Vector.{std_vector_formatter}

pub record StringState : Type 0 where
  pub expression : Text
  pub data_address : ℤ
  pub length : ℕ
  pub display : Text

-- `LOCAL_CAPACITY`, `MAX_TEXT` and `MAX_PLAUSIBLE`.
abbrev pub local_capacity : ℕ
local_capacity = 15

abbrev pub max_text : ℕ
max_text = 4096

abbrev pub max_plausible : ℕ
max_plausible = 67108864

abbrev is_string_name : Option Text → Bool
is_string_name none = false
is_string_name (some name) = name === codes "string"

abbrev is_char : Option Text → Bool
is_char none = false
is_char (some type) = strip_cv_ref type === codes "char"

-- `match`
unfoldable pub matches_string : Text → Bool
unfolding strip_cv_ref std_name is_template_of first_template_argument ◌===◌
matches_string type =
    let bare = strip_cv_ref type in
    is_string_name (std_name bare)
    || is_template_of (codes "basic_string") (std_name bare)
      && is_char (first_template_argument bare)

-- The pointer points into the object, where the object is known.
unfoldable pub is_local : ℤ → Option ℤ → Option ℤ → Bool
is_local pointer (some address) (some size) =
    not (ltb_ℤ pointer address) && ltb_ℤ pointer (address +ℤ size)
is_local pointer address size = false

-- The pointer and the length that `inspect` goes on with.
unfoldable pub live_string : Option ℤ → Option ℤ → Option ℤ → Option ℤ → Option (ℤ × ℕ)
unfolding is_local
live_string (some pointer) (some (pos n)) address size =
    if eqb_ℤ pointer (pos 0) || ltb max_plausible n
    then none
    else if is_local pointer address size && ltb local_capacity n
    then none
    else some (pointer, n)
live_string pointer n address size = none

-- The view of the bytes that were read of a string of `claimed` bytes.
unfoldable pub string_view :
    Utf8 → Text → ℤ → ℕ → Option (List ℕ) → Option (FormatterView StringState)
unfolding quote_text decode_text hexadecimal_ℤ
string_view utf8 expression pointer claimed none = none
string_view utf8 expression pointer claimed (some bytes) =
    let display = quote_text (decode_text utf8 bytes) (claimed - length bytes) in
    some (record {
      value = display;
      indexed_variables = if ltb 0 claimed then 1 else 0;
      memory_reference = some (codes "0x" ++ hexadecimal_ℤ pointer);
      state = record {
        expression = expression;
        data_address = pointer;
        length = claimed;
        display = display;
      };
    })

read_string :
    Utf8
    → FormatterContext
    → Text
    → Option (ℤ × ℕ)
    → Async Client (Option (FormatterView StringState))
unfolding read_memory_bytes string_view
read_string utf8 ctx expression none = return none
read_string utf8 ctx expression (some (pointer, claimed)) =
    on_manager (read_memory_bytes ctx.debugger pointer (min claimed max_text))
    >>= (λ bytes. return (string_view utf8 expression pointer claimed bytes))

-- A number that `inspect` evaluates.
evaluated : FormatterContext → Text → Async Client (Option ℤ)
unfolding evaluate_integer
evaluated ctx expression =
    on_manager (evaluate_integer ctx.debugger expression ctx.thread_id ctx.frame_level)

-- `inspect`
unfoldable pub inspect_string :
    Utf8 → FormatterContext → Text → Text → Async Client (Option (FormatterView StringState))
unfolding evaluated live_string read_string
inspect_string utf8 ctx expression type =
    evaluated ctx (codes "(unsigned long long)(" ++ (expression ++ codes ")._M_dataplus._M_p"))
    >>= (λ pointer.
        evaluated ctx (codes "(unsigned long long)(" ++ (expression ++ codes ")._M_string_length"))
        >>= (λ n.
            evaluated ctx (codes "(unsigned long long)&(" ++ (expression ++ codes ")"))
            >>= (λ address.
                evaluated ctx (codes "sizeof(" ++ (expression ++ codes ")")) >>= (λ size.
                  read_string utf8 ctx expression (live_string pointer n address size)))))

text_variable : StringState → Variable
unfolding decimal hexadecimal_ℤ
text_variable s = record {
  name = codes "[text]";
  value = s.display;
  type = codes "char [" ++ (decimal s.length ++ codes "]");
  evaluate_name = codes "(" ++ (s.expression ++ codes ")._M_dataplus._M_p");
  variables_reference = 0;
  memory_reference = some (codes "0x" ++ hexadecimal_ℤ s.data_address);
}

-- `getChildren`
unfoldable pub string_children :
    FormatterContext → FormatterView StringState → ℤ → ℤ → Async Client (List Variable)
unfolding text_variable
string_children ctx view start count =
    if ltb_ℤ (pos 0) start || not (ltb_ℤ (pos 0) count) || view.state.length == 0
    then return []
    else return (text_variable view.state ∷ [])

unfoldable pub std_string_formatter : Utf8 → TypeFormatter
unfolding matches_string inspect_string string_children
std_string_formatter utf8 = record {
  State = StringState;
  name = codes "std::string";
  matches = matches_string;
  inspect = inspect_string utf8;
  get_children = string_children;
}

-- `createDefaultFormatterRegistry`
unfoldable pub default_formatters : Utf8 → List TypeFormatter
unfolding register std_string_formatter std_vector_formatter
default_formatters utf8 = register (std_string_formatter utf8) (register std_vector_formatter [])
