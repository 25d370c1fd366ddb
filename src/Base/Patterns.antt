-- ===== src/Base/Patterns.antt =====
-- Pieces of the regular expressions of the source: literals, runs of a class, word boundaries. An
-- expression that is anchored at the end reads the text backwards.
use Prim.Native.Nat.{ℕ}
use mathlib.Core.Bool.{Bool, true, false, not, ◌&&◌, ◌||◌}
use mathlib.Core.Option.{Option, none, some}
use mathlib.Core.List.{List, [], ◌∷◌}
use vscode_cann_debugger.Base.Tests.{◌==◌, leb, if◌then◌else◌}
use vscode_cann_debugger.Base.Strings.{Text}
use vscode_cann_debugger.Base.Decimal.{is_digit}

-- `\w`
unfoldable pub is_word : ℕ → Bool
unfolding is_digit
is_word c = leb b'a' c && leb c b'z' || leb b'A' c && leb c b'Z' || is_digit c || c == b'_'

-- What stands behind a prefix, where the text has it.
unfoldable pub past : Text → Text → Option Text
past [] t = some t
past (p ∷ ps) [] = none
past (p ∷ ps) (c ∷ t) = if c == p then past ps t else none

abbrev pub is_present {ℓ} : {A : Type ℓ} → Option A → Bool
is_present none = false
is_present (some a) = true

-- The text behind a prefix, or the text itself.
abbrev pub or_whole : Option Text → Text → Text
or_whole none t = t
or_whole (some rest) t = rest

-- The longest start in the class, and what stands behind it.
unfoldable pub span : (ℕ → Bool) → Text → Text × Text
span test [] = ([], [])
span test (c ∷ t) = let (run, rest) = span test t in if test c then (c ∷ run, rest) else ([], c ∷ t)

-- `\b` behind a word.
unfoldable pub at_word_end : Text → Bool
unfolding is_word
at_word_end [] = true
at_word_end (c ∷ t) = not (is_word c)

abbrev pub ends_word : Option Text → Bool
ends_word none = false
ends_word (some rest) = at_word_end rest

unfoldable pub starts_word : Text → List Text → Bool
unfolding at_word_end past
starts_word t [] = false
starts_word t (w ∷ ws) = ends_word (past w t) || starts_word t ws

-- `\b(a|b|c)\b` anywhere; `inside` says that the unit before is a `\w`.
unfoldable pub has_word : List Text → Bool → Text → Bool
unfolding starts_word is_word
has_word ws inside [] = false
has_word ws inside (c ∷ t) = not inside && starts_word (c ∷ t) ws || has_word ws (is_word c) t
