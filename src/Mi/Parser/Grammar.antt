-- ===== src/Mi/Parser/Grammar.antt =====
-- The grammar of GDB/MI values, as the comment at the top of src/mi/miParser.ts gives it: its
-- sentences, their text, and the value that each one denotes.
pub mod Reads
use mathlib.Core.List.{map}
use vscode_cann_debugger.Base.{
  ℕ, suc, ◌+◌, ◌≤◌, ◌<◌, List, [], ◌∷◌, ◌++◌, ◌≡◌, ◌≢◌, arith, Text, All, length, length-append,
}
use vscode_cann_debugger.Mi.Value.{
  MiValue, MiTuple, MiValues, str, tuple, arr, no_fields, field, no_items, item, add_result,
}
use vscode_cann_debugger.Mi.CString.Spelling.{Piece, Spells, meaning, spell_all}

-- A variable's name holds no character with a meaning of its own.
abbrev pub IsNameUnit : ℕ → Type 0
IsNameUnit c =
    (c ≢ b'=') × (c ≢ b',') × (c ≢ b']') × (c ≢ b'}') × (c ≢ b'"') × (c ≢ b'{') × (c ≢ b'[')

abbrev pub IsName : Text → Type 0
IsName = All IsNameUnit

-- value → const | tuple | list; the empty tuple and the empty list are sentences of their own.
mutual
  pub data Sentence : Type 0 where
    const : (ps : List Piece) → Spells ps → Sentence
    empty_tuple : Sentence
    tuple_of : Results → Sentence
    empty_list : Sentence
    list_of_values : Values → Sentence
    list_of_results : Results → Sentence

  pub data Results : Type 0 where
    last_result : (k : Text) → IsName k → Sentence → Results
    result : (k : Text) → IsName k → Sentence → Results → Results

  pub data Values : Type 0 where
    last_value : Sentence → Values
    value : Sentence → Values → Values

unfoldable mutual
  pub emit : Sentence → Text
  emit (const ps _) = b'"' ∷ (spell_all ps ++ b'"' ∷ [])
  emit empty_tuple = b'{' ∷ b'}' ∷ []
  emit (tuple_of rs) = b'{' ∷ (emit_results rs ++ b'}' ∷ [])
  emit empty_list = b'[' ∷ b']' ∷ []
  emit (list_of_values vs) = b'[' ∷ (emit_values vs ++ b']' ∷ [])
  emit (list_of_results rs) = b'[' ∷ (emit_results rs ++ b']' ∷ [])

  pub emit_results : Results → Text
  emit_results (last_result k _ v) = k ++ b'=' ∷ emit v
  emit_results (result k _ v rs) = k ++ b'=' ∷ (emit v ++ b',' ∷ emit_results rs)

  pub emit_values : Values → Text
  emit_values (last_value v) = emit v
  emit_values (value v vs) = emit v ++ b',' ∷ emit_values vs

-- A tuple is grown by `addResult`; a list of results is a list of objects with one field each.
unfoldable mutual
  pub denote : Sentence → MiValue
  denote (const ps _) = str (map meaning ps)
  denote empty_tuple = tuple no_fields
  denote (tuple_of rs) = tuple (denote_fields rs no_fields)
  denote empty_list = arr no_items
  denote (list_of_values vs) = arr (denote_values vs)
  denote (list_of_results rs) = arr (denote_results rs)

  pub denote_fields : Results → MiTuple → MiTuple
  denote_fields (last_result k _ v) out = add_result out k (denote v)
  denote_fields (result k _ v rs) out = denote_fields rs (add_result out k (denote v))

  pub denote_results : Results → MiValues
  denote_results (last_result k _ v) = item (tuple (field k (denote v) no_fields)) no_items
  denote_results (result k _ v rs) = item (tuple (field k (denote v) no_fields)) (denote_results rs)

  pub denote_values : Values → MiValues
  denote_values (last_value v) = item (denote v) no_items
  denote_values (value v vs) = item (denote v) (denote_values vs)

pub length-append_text : (s t : Text) → length (s ++ t) ≡ length s + length t
length-append_text = length-append

-- For `omega`, on texts.
pub ruleset lengths = (arith, length-append_text)

pub length-emit_pos : (v : Sentence) → 2 ≤ length (emit v)
unfolding emit
length-emit_pos (const ps _) = omega lengths
length-emit_pos empty_tuple = omega arith
length-emit_pos (tuple_of rs) = omega lengths
length-emit_pos empty_list = omega arith
length-emit_pos (list_of_values vs) = omega lengths
length-emit_pos (list_of_results rs) = omega lengths
