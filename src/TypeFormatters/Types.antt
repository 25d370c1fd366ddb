-- ===== src/TypeFormatters/Types.antt =====
-- Type strings of src/typeFormatters.ts: `stripCvRef`, `firstTemplateArgument`, `vectorLength` and the
-- types that the two formatters match.
pub mod Arguments
pub mod Lengths
use vscode_cann_debugger.Base.{
  ℕ, zero, suc, ◌+◌, ◌-◌, ◌*◌, ◌/◌, ◌%◌, Bool, true, false, not, ◌&&◌, ◌||◌, Option, none, some,
  List, [], ◌∷◌, ◌++◌, Text, codes, ◌==◌, ◌===◌, if◌then◌else◌, length, reverse, is_space, trim,
  past, or_whole, is_present, span, is_word, ltb_ℤ, ℤ, pos, negsuc, ◌-ℤ◌,
}
use vscode_cann_debugger.VarObjects.Types.{drop_qualifiers}

-- One `&` or two in front of a text that is read backwards.
drop_ampersands : Text → Text
drop_ampersands [] = []
drop_ampersands (c ∷ []) = if c == b'&' then [] else c ∷ []
drop_ampersands (c ∷ d ∷ t) = if c == b'&' then (if d == b'&' then t else d ∷ t) else c ∷ d ∷ t

-- `replace(/\s*&&?\s*$/, '')` of a trimmed text; without a marker nothing is replaced.
reference_dropped : Text → Text
unfolding drop_ampersands span is_space
reference_dropped [] = []
reference_dropped (c ∷ t) = if c == b'&' then (span is_space (drop_ampersands (c ∷ t))).1 else c ∷ t

unfoldable pub drop_reference : Text → Text
unfolding reference_dropped
drop_reference t = reverse (reference_dropped (reverse t))

-- `stripCvRef`
unfoldable pub strip_cv_ref : Text → Text
unfolding trim drop_reference drop_qualifiers
strip_cv_ref type = let t = drop_reference (trim type) in trim (drop_qualifiers (suc (length t)) t)

-- `…trim() || undefined`
abbrev pub unless_empty : Text → Option Text
unless_empty [] = none
unless_empty (c ∷ t) = some (c ∷ t)

-- The loop of `firstTemplateArgument` behind its first `<`: `depth` is one less than the program's,
-- and `some` holds the text up to the end of the argument.
-- What one character does to the depth of the nesting behind the first `<`, which counts 0 where the
-- program counts 1; `none` ends the argument.
unfoldable pub depth_behind : ℕ → ℕ → Option ℕ
depth_behind zero c = if c == b'<' then some 1 else if c == b'>' || c == b',' then none else some 0
depth_behind (suc d) c =
    if c == b'<' then some (suc (suc d)) else if c == b'>' then some d else some (suc d)

cons_if_any : ℕ → Option Text → Option Text
cons_if_any c none = none
cons_if_any c (some t) = some (c ∷ t)

behind_unit : Option ℕ → ℕ → (ℕ → Option Text) → Option Text
unfolding cons_if_any
behind_unit none c rest = some []
behind_unit (some depth) c rest = cons_if_any c (rest depth)

-- The loop: the text up to the end of the argument, if it ends.
unfoldable pub argument_from : ℕ → Text → Option Text
unfolding depth_behind behind_unit
argument_from depth [] = none
argument_from depth (c ∷ t) =
    behind_unit (depth_behind depth c) c (λ deeper. argument_from deeper t)

argument_in : Option Text → Option Text
unfolding trim
argument_in none = none
argument_in (some t) = unless_empty (trim t)

-- `firstTemplateArgument`
unfoldable pub first_template_argument : Text → Option Text
unfolding argument_from argument_in
first_template_argument [] = none
first_template_argument (c ∷ t) =
    if c == b'<' then argument_in (argument_from 0 t) else first_template_argument t

-- `Number(bytes / elementSize)`; exact in the program below 2 ^ 53.
abbrev pub whole_elements : ℤ → ℕ → Option ℕ
whole_elements (negsuc n) size = none
whole_elements (pos bytes) size = if bytes % size == 0 then some (bytes / size) else none

-- `vectorLength`
unfoldable pub vector_length : ℤ → ℤ → ℤ → Option ℕ
vector_length start finish (pos (suc n)) = whole_elements (finish -ℤ start) (suc n)
vector_length start finish size = none

-- The name behind `std::` and an inline namespace, `(?:__\w+::)?`.
namespace_end : Text → Text × Text → Text
unfolding past
namespace_end t ([], rest) = t
namespace_end t (c ∷ run, rest) = or_whole (past (codes "::") rest) t

inline_namespace : Text → Option Text → Text
unfolding namespace_end span is_word
inline_namespace t none = t
inline_namespace t (some rest) = namespace_end t (span is_word rest)

abbrev in_std : Option Text → Option Text
in_std none = none
in_std (some t) = some (inline_namespace t (past (codes "__") t))

unfoldable pub std_name : Text → Option Text
unfolding inline_namespace past
std_name bare = in_std (past (codes "std::") bare)

starts_angle : Text → Bool
starts_angle [] = false
starts_angle (c ∷ t) = c == b'<'

opens_template : Option Text → Bool
unfolding starts_angle span is_space
opens_template none = false
opens_template (some rest) = starts_angle (span is_space rest).1

-- `name\s*<` at the start.
unfoldable pub is_template_of : Text → Option Text → Bool
unfolding opens_template past
is_template_of name none = false
is_template_of name (some t) = opens_template (past name t)
