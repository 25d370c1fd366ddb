-- ===== src/Base/Strings.antt =====
-- JavaScript strings: lists of UTF-16 code units.
pub mod Trim
use Prim.Native.Nat.{ℕ}
use Prim.Native.Char.{code}
use Prim.Native.String.{String}
use mathlib.Core.Path.{◌≡◌, refl}
use mathlib.Core.Logic.{◌↔◌}
use mathlib.Core.Bool.{Bool, true, false, ◌&&◌, ◌||◌}
use mathlib.Core.List.{List, [], ◌∷◌}
use native.Mathlib.Omega.{arith}
use vscode_cann_debugger.Base.Tests.{◌==◌, leb, if◌then◌else◌}

abbrev pub Text : Type 0
Text = List ℕ

-- A literal of the source; every literal below is ASCII.
abbrev pub codes : String → Text
codes String.[] = []
codes (String.◌∷◌ c s) = code c ∷ codes s

-- `a === b` on strings.
infix 50 ◌===◌
unfoldable pub ◌===◌ : Text → Text → Bool
[] === [] = true
(x ∷ a) === (y ∷ b) = x == y && a === b
_ === _ = false

pub ===_iff : (a b : Text) → ((a === b) ≡ true) ↔ (a ≡ b)
unfolding ◌===◌
===_iff (x ∷ a) (y ∷ b) = ground (arith, ===_iff a b)
===_iff _ _ = ground arith

pub ===_refl : (a : Text) → (a === a) ≡ true
===_refl a = (===_iff a a).1 refl

-- The white space of `trim` and of `\s`: ASCII, NEL is none, and the Unicode spaces.
unfoldable pub is_space : ℕ → Bool
is_space c =
    leb 9 c && leb c 13
    || c == 32
    || c == 0xa0
    || c == 0x1680
    || leb 0x2000 c && leb c 0x200a
    || c == 0x2028
    || c == 0x2029
    || c == 0x202f
    || c == 0x205f
    || c == 0x3000
    || c == 0xfeff

unfoldable pub trim_start : Text → Text
trim_start [] = []
trim_start (c ∷ t) = let shorter = trim_start t in if is_space c then shorter else c ∷ t

unit_onto : ℕ → Text → Text
unit_onto c [] = if is_space c then [] else c ∷ []
unit_onto c (d ∷ t) = c ∷ d ∷ t

unfoldable pub trim_end : Text → Text
unfolding unit_onto
trim_end [] = []
trim_end (c ∷ t) = unit_onto c (trim_end t)

unfoldable pub trim : Text → Text
unfolding trim_start trim_end
trim t = trim_end (trim_start t)
