-- ===== src/TypeFormatters/Tests.antt =====
-- Concrete runs of the theorems on src/typeFormatters.ts.
use vscode_cann_debugger.Base.{
  ℕ, suc, ◌-◌, true, false, none, some, List, [], ◌∷◌, ◌++◌, ◌≡◌, ◌↔◌, refl, Text, codes, arith,
  pos, min, map, trim, length, inr, is_space, is_word,
}
use vscode_cann_debugger.Mi.Result.{ok}
use vscode_cann_debugger.Mi.CString.{parse_cstring}
use vscode_cann_debugger.VarObjects.Manager.{done, rejected}
use vscode_cann_debugger.TypeFormatters.Types.{first_template_argument, unless_empty}
use vscode_cann_debugger.TypeFormatters.Types.Arguments.{
  Nested, closed, unit, angle, spell, first_template_argument-spell,
}
use vscode_cann_debugger.TypeFormatters.Display.{quote_text, omission}
use vscode_cann_debugger.TypeFormatters.Display.Escapes.{parse_cstring-quote_text}
use vscode_cann_debugger.TypeFormatters.Registry.{Client, FormatterContext, Variable, FormatterView}
use vscode_cann_debugger.TypeFormatters.Vector.{
  VectorState, matches_vector, measured, vector_children,
}
use vscode_cann_debugger.TypeFormatters.Vector.Pages.{row_of, window, vector_children-window}
use vscode_cann_debugger.TypeFormatters.Vector.Measure.{IsVector, shown, measured-iff-IsVector}
use vscode_cann_debugger.TypeFormatters.StdString.{matches_string}

vector_of_pairs :
    matches_vector (codes "const std::__1::vector<std::pair<int, int>, std::allocator<> > &") ≡ true
unfolding matches_vector is_space is_word
vector_of_pairs = refl

vector_of_bits : matches_vector (codes "std::vector<bool, std::allocator<bool> >") ≡ false
unfolding matches_vector is_space is_word
vector_of_bits = refl

wide_string : matches_string (codes "std::basic_string<wchar_t>") ≡ false
unfolding matches_string is_space is_word
wide_string = refl

abbrev pair_type : Nested
pair_type = unit b' ' (unit b'p' (angle (unit b'a' (unit b',' (unit b'b' closed))) closed))

first_template_argument-spell_example :
    first_template_argument (codes "vector" ++ b'<' ∷ (spell pair_type ++ b',' ∷ codes " x>"))
    ≡ unless_empty (trim (spell pair_type))
first_template_argument-spell_example =
    first_template_argument-spell (codes "vector") pair_type b',' (codes " x>") (omega arith)
      (omega arith) (inr refl)

abbrev shown_text : Text
shown_text = b'a' ∷ 10 ∷ b'"' ∷ 27 ∷ 233 ∷ []

parse_cstring-quote_text_example :
    parse_cstring (quote_text shown_text 3) ≡ ok (shown_text, omission (length shown_text) 3)
parse_cstring-quote_text_example = parse_cstring-quote_text shown_text 3

-- Refuses every command.
abbrev refusing : FormatterContext
refusing = record {
  debugger = record { reply = λ sent command. rejected (codes "no") };
  thread_id = 1;
  frame_level = 0;
  reference = λ reserved. 1000;
}

abbrev client : Client
client = record { manager = record { running = true; sent = []; live = [] }; reserved = [] }

abbrev three_floats : FormatterView VectorState
three_floats = record {
  value = codes "{ size=3 }";
  indexed_variables = 3;
  memory_reference = none;
  state = record {
    expression = codes "x";
    data_address = pos 4096;
    element_size = 4;
    element_type = codes "float";
    count = 3;
  };
}

vector_children-window_example :
    (vs : List Variable) × ((vector_children refusing three_floats (pos 1) (pos 10) client).0
      ≡ done vs)
    × (map row_of vs ≡ window three_floats.state 1 (min 10 (3 - 1)))
vector_children-window_example =
    vector_children-window refusing three_floats (pos 1) (pos 10) client

abbrev measured_view : FormatterView VectorState
measured_view = shown (codes "x") (codes "float") (pos 4096) 4 3

measured-iff-IsVector_example :
    (measured (codes "x") (codes "float") (some (pos 4096)) (some (pos 4108)) (some (pos 4))
      ≡ some measured_view)
    ↔ ((k n : ℕ) × IsVector (pos 4096) (pos 4108) (pos 4) k n
        × (measured_view ≡ shown (codes "x") (codes "float") (pos 4096) (suc k) n))
measured-iff-IsVector_example =
    measured-iff-IsVector (codes "x") (codes "float") (pos 4096) (pos 4108) (pos 4) measured_view
