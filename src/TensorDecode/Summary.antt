-- ===== src/TensorDecode/Summary.antt =====
-- `tensorStats` of src/tensorDecode.ts. What the program does with doubles is a parameter.
pub mod Counts
use vscode_cann_debugger.Base.{
  ℕ, zero, suc, ◌+◌, ◌-◌, Bool, true, false, not, ◌&&◌, ◌||◌, Option, none, some, List, [], ◌∷◌,
  ◌++◌, Text, codes, ◌===◌, ltb, ◌==◌, if◌then◌else◌, length, is_digit, is_space, trim, past, span,
  is_word, at_word_end, ends_word,
}
use vscode_cann_debugger.Registers.{lower_case}
use vscode_cann_debugger.TensorDecode.Elements.{
  TensorDtype, float16, bfloat16, float32, float64, int8, uint8, int16, uint16, int32, uint32,
}

-- The operations of JavaScript numbers that the summary uses.
pub record Arithmetic : Type 1 where
  pub Number : Type 0
  pub is_nan : Number → Bool
  pub is_finite : Number → Bool
  pub less : Number → Number → Bool
  pub plus : Number → Number → Number
  pub divide : Number → ℕ → Number
  pub zero_number : Number
  pub infinite_number : Bool → Number

module _ (a : Arithmetic) where
  -- The variables of the loop of `tensorStats`.
  pub record Tally : Type 0 where
    pub min : a.Number
    pub max : a.Number
    pub sum : a.Number
    pub nan : ℕ
    pub infinite : ℕ
    pub finite : ℕ

  pub record TensorStats : Type 0 where
    pub min : a.Number
    pub max : a.Number
    pub mean : a.Number
    pub nan : ℕ
    pub infinite : ℕ
    pub finite : ℕ

  unfoldable pub count_finite : a.Number → Tally → Tally
  count_finite value t = record {
    min = if a.less value t.min then value else t.min;
    max = if a.less t.max value then value else t.max;
    sum = a.plus t.sum value;
    nan = t.nan;
    infinite = t.infinite;
    finite = suc t.finite;
  }

  unfoldable pub count_value : a.Number → Tally → Tally
  unfolding count_finite
  count_value value t =
      if a.is_nan value
      then record t { nan = suc t.nan }
      else if a.is_finite value
      then count_finite value t
      else record t { infinite = suc t.infinite }

  unfoldable pub count_values : List a.Number → Tally → Tally
  unfolding count_value
  count_values [] t = t
  count_values (v ∷ vs) t = count_values vs (count_value v t)

  -- `finite ? … : 0`
  abbrev pub if_any : ℕ → a.Number → a.Number
  if_any zero n = a.zero_number
  if_any (suc k) n = n

  -- What the summary returns of the variables behind the loop.
  unfoldable pub summary : Tally → TensorStats
  summary t = record {
    min = if_any t.finite t.min;
    max = if_any t.finite t.max;
    mean = if_any t.finite (a.divide t.sum t.finite);
    nan = t.nan;
    infinite = t.infinite;
    finite = t.finite;
  }

  abbrev pub fresh_tally : Tally
  fresh_tally = record {
    min = a.infinite_number false;
    max = a.infinite_number true;
    sum = a.zero_number;
    nan = 0;
    infinite = 0;
    finite = 0;
  }

  -- `tensorStats`
  unfoldable pub tensor_stats : List a.Number → TensorStats
  unfolding count_values summary
  tensor_stats values = summary (count_values values fresh_tally)
