-- ===== src/TypeFormatters/Vector.antt =====
-- `StdVectorFormatter` of src/typeFormatters.ts.
pub mod Pages
pub mod Measure
use vscode_cann_debugger.Base.{
  ℕ, zero, suc, ◌+◌, ◌-◌, ◌*◌, Bool, true, false, not, ◌&&◌, ◌||◌, Option, none, some, List, [],
  ◌∷◌, ◌++◌, Text, codes, decimal, length, leb, ltb, ◌==◌, ◌===◌, if◌then◌else◌, min, is_present, ℤ,
  pos, negsuc, pos_part, ◌+ℤ◌, ltb_ℤ, eqb_ℤ,
}
use vscode_cann_debugger.VarObjects.Manager.{
  Outcome, done, Debugger, Manager, Async, ◌>>=◌, return, or_caught, VarObject, create, children,
}
use vscode_cann_debugger.Mi.Number.{hexadecimal_ℤ}
use vscode_cann_debugger.VarObjects.Memory.{evaluate_integer, memory_reference}
use vscode_cann_debugger.TypeFormatters.Types.{
  strip_cv_ref, first_template_argument, vector_length, std_name, is_template_of,
}
use vscode_cann_debugger.TypeFormatters.Registry.{
  Client, FormatterContext, Variable, FormatterView, TypeFormatter, on_manager, reserve_expansion,
}

pub record VectorState : Type 0 where
  pub expression : Text
  pub data_address : ℤ
  pub element_size : ℕ
  pub element_type : Text
  pub count : ℕ

-- `MAX_ELEMENTS`
abbrev pub max_elements : ℕ
max_elements = 4000000

abbrev is_element : Option Text → Bool
is_element none = false
is_element (some element) = not (strip_cv_ref element === codes "bool")

-- `match`
unfoldable pub matches_vector : Text → Bool
unfolding strip_cv_ref std_name is_template_of first_template_argument ◌===◌
matches_vector type =
    let bare = strip_cv_ref type in
    is_template_of (codes "vector") (std_name bare) && is_element (first_template_argument bare)

-- What stands for `base` in the expressions of `inspect`.
unfoldable pub vector_base : Text → Text
vector_base expression = codes "(" ++ (expression ++ codes ")._M_impl")

unfoldable pub start_expression : Text → Text
unfolding vector_base
start_expression expression =
    codes "(unsigned long long)" ++ (vector_base expression ++ codes "._M_start")

unfoldable pub finish_expression : Text → Text
unfolding vector_base
finish_expression expression =
    codes "(unsigned long long)" ++ (vector_base expression ++ codes "._M_finish")

unfoldable pub size_expression : Text → Text
unfolding vector_base
size_expression expression = codes "sizeof(*" ++ (vector_base expression ++ codes "._M_start)")

-- The view of a vector of `count` elements.
unfoldable pub vector_view : Text → Text → ℤ → ℕ → ℕ → FormatterView VectorState
unfolding decimal memory_reference
vector_view expression element_type start size count = record {
  value = codes "{ size=" ++ (decimal count ++ codes " }");
  indexed_variables = count;
  memory_reference = if ltb 0 count then memory_reference (some start) else none;
  state = record {
    expression = expression;
    data_address = start;
    element_size = size;
    element_type = element_type;
    count = count;
  };
}

-- The length believed, unless it is too large.
unfoldable pub believed : Text → Text → ℤ → ℕ → Option ℕ → Option (FormatterView VectorState)
unfolding vector_view
believed expression element_type start size none = none
believed expression element_type start size (some count) =
    if ltb max_elements count
    then none
    else some (vector_view expression element_type start size count)

-- The part of `inspect` behind the three evaluations.
unfoldable pub measured :
    Text → Text → Option ℤ → Option ℤ → Option ℤ → Option (FormatterView VectorState)
unfolding believed vector_length
measured expression element_type (some start) (some finish) (some (pos (suc n))) =
    believed expression element_type start (suc n) (vector_length start finish (pos (suc n)))
measured expression element_type start finish size = none

inspect_elements :
    FormatterContext → Text → Option Text → Async Client (Option (FormatterView VectorState))
unfolding evaluate_integer start_expression finish_expression size_expression measured
inspect_elements ctx expression none = return none
inspect_elements ctx expression (some element_type) =
    on_manager
      (evaluate_integer ctx.debugger (start_expression expression) ctx.thread_id ctx.frame_level)
    >>= (λ start.
        on_manager (
          evaluate_integer ctx.debugger (finish_expression expression) ctx.thread_id
            ctx.frame_level)
        >>= (λ finish.
            on_manager (
              evaluate_integer ctx.debugger (size_expression expression) ctx.thread_id
                ctx.frame_level)
            >>= (λ size. return (measured expression element_type start finish size))))

-- `inspect`
unfoldable pub inspect_vector :
    FormatterContext → Text → Text → Async Client (Option (FormatterView VectorState))
unfolding inspect_elements first_template_argument strip_cv_ref
inspect_vector ctx expression type =
    inspect_elements ctx expression (first_template_argument (strip_cv_ref type))

-- `elementExpression`
unfoldable pub element_expression : VectorState → ℕ → Text
unfolding decimal
element_expression s index =
    codes "*((" ++ (s.expression ++ (codes ")._M_impl._M_start + " ++ (decimal index ++ codes ")")))

unfoldable pub element_reference : VectorState → ℕ → Option Text
unfolding memory_reference
element_reference s index =
    if eqb_ℤ s.data_address (pos 0)
    then none
    else some (codes "0x" ++ hexadecimal_ℤ (s.data_address +ℤ pos (index * s.element_size)))

element : VectorState → ℕ → Text → Text → ℕ → Variable
unfolding element_expression element_reference decimal
element s index value type reference = record {
  name = codes "[" ++ (decimal index ++ codes "]");
  value = value;
  type = type;
  evaluate_name = element_expression s index;
  variables_reference = reference;
  memory_reference = element_reference s index;
}

-- `toElement`
unfoldable pub to_element :
    FormatterContext → VectorState → ℕ → Text → Text → Bool → Async Client Variable
unfolding element reserve_expansion
to_element ctx s index value type true =
    reserve_expansion ctx (element_expression s index)
    >>= (λ reference. return (element s index value type reference))
to_element ctx s index value type false = return (element s index value type 0)

abbrev type_or : Text → Text → Text
type_or [] otherwise = otherwise
type_or (c ∷ t) otherwise = c ∷ t

-- The children of the slice, from `index` on.
to_elements : FormatterContext → VectorState → ℕ → List VarObject → Async Client (List Variable)
unfolding to_element
to_elements ctx s index [] = return []
to_elements ctx s index (child ∷ rest) =
    to_element ctx s index child.value (type_or child.type s.element_type)
      (ltb_ℤ (pos 0) child.numchild)
    >>= (λ v. to_elements ctx s (suc index) rest >>= (λ vs. return (v ∷ vs)))

slice_expression : VectorState → ℕ → ℕ → Text
unfolding decimal
slice_expression s first count =
    codes "*("
    ++ (s.element_type
        ++ (codes " (*)["
            ++ (decimal count
                ++ (codes "])(("
                    ++ (s.expression
                        ++ (codes ")._M_impl._M_start + " ++ (decimal first ++ codes ")")))))))

page_if_whole :
    FormatterContext → VectorState → ℕ → ℕ → List VarObject → Async Client (Option (List Variable))
unfolding to_elements
page_if_whole ctx s first count objects =
    if length objects == count
    then (to_elements ctx s first objects >>= (λ vs. return (some vs)))
    else return none

-- `readPageAsArray`
unfoldable pub read_page_as_array :
    FormatterContext → VectorState → ℕ → ℕ → Async Client (Option (List Variable))
unfolding slice_expression page_if_whole create children
read_page_as_array ctx s first count =
    or_caught
      (on_manager
          (create ctx.debugger (slice_expression s first count) ctx.thread_id ctx.frame_level)
        >>= (λ array.
            on_manager (children ctx.debugger array.name none none)
            >>= (λ objects. page_if_whole ctx s first count objects)))
      none

-- The value of one element and whether it can be expanded, or the placeholder.
unfoldable pub read_element : FormatterContext → VectorState → ℕ → Async Client (Text × Bool)
unfolding element_expression create
read_element ctx s index =
    or_caught
      (on_manager (create ctx.debugger (element_expression s index) ctx.thread_id ctx.frame_level)
        >>= (λ v. return (v.value, ltb_ℤ (pos 0) v.numchild || v.has_more)))
      (codes "<unreadable>", false)

-- `readPageElementwise`
unfoldable pub read_page_elementwise :
    FormatterContext → VectorState → ℕ → ℕ → Async Client (List Variable)
unfolding read_element to_element
read_page_elementwise ctx s index zero = return []
read_page_elementwise ctx s index (suc n) = read_element ctx s index >>= (λ read.
    to_element ctx s index read.0 s.element_type read.1
    >>= (λ v. read_page_elementwise ctx s (suc index) n >>= (λ vs. return (v ∷ vs))))

page_or_elements :
    FormatterContext → VectorState → ℕ → ℕ → Option (List Variable) → Async Client (List Variable)
unfolding read_page_elementwise
page_or_elements ctx s first count (some batched) = return batched
page_or_elements ctx s first count none = read_page_elementwise ctx s first count

vector_page : FormatterContext → VectorState → ℕ → ℕ → Async Client (List Variable)
unfolding read_page_as_array page_or_elements
vector_page ctx s first zero = return []
vector_page ctx s first (suc n) =
    read_page_as_array ctx s first (suc n)
    >>= (λ batched. page_or_elements ctx s first (suc n) batched)

-- `getChildren`; the subtraction stops at 0, as `Math.max(0, …)` does.
unfoldable pub vector_children :
    FormatterContext → FormatterView VectorState → ℤ → ℤ → Async Client (List Variable)
unfolding vector_page
vector_children ctx view start count =
    vector_page ctx view.state (pos_part start)
      (min (pos_part count) (view.state.count - pos_part start))

-- The class, as an implementation of the interface.
unfoldable pub std_vector_formatter : TypeFormatter
unfolding matches_vector inspect_vector vector_children
std_vector_formatter = record {
  State = VectorState;
  name = codes "std::vector";
  matches = matches_vector;
  inspect = inspect_vector;
  get_children = vector_children;
}
