-- ===== src/Base/Strings/Trim.antt =====
-- Texts that `trim` leaves as they are.
use mathlib.Core.Path.{◌≡◌, refl, ap, ◌∙◌}
use mathlib.Core.Logic.{◌≢◌}
use mathlib.Core.Bool.{false}
use mathlib.Core.List.{[], ◌∷◌, ◌++◌}
use Prim.Native.Nat.{ℕ}
use vscode_cann_debugger.Base.Lists.{All}
use vscode_cann_debugger.Base.Strings.{Text, is_space, trim_start, trim_end, unit_onto}

pub trim_start-solid : (c : ℕ) (t : Text) → is_space c ≡ false → trim_start (c ∷ t) ≡ c ∷ t
unfolding trim_start
trim_start-solid c t h = rw h

unit_onto-solid : (c : ℕ) (t : Text) → t ≢ [] → unit_onto c t ≡ c ∷ t
unfolding unit_onto
unit_onto-solid c [] h = absurd (h refl)
unit_onto-solid c (d ∷ t) h = refl

pub trim_end-solid : (t : Text) → All (λ c. is_space c ≡ false) t → trim_end t ≡ t
unfolding trim_end unit_onto
trim_end-solid [] h = refl
trim_end-solid (c ∷ []) (h, k) = rw h
trim_end-solid (c ∷ d ∷ t) (h, k) = rw (trim_end-solid (d ∷ t) k)

append-ne-nil : (x t : Text) → t ≢ [] → x ++ t ≢ []
append-ne-nil [] t h = h
append-ne-nil (c ∷ x) t h = λ e. cc

pub trim_end-append : (x t : Text) → t ≢ [] → trim_end t ≡ t → trim_end (x ++ t) ≡ x ++ t
unfolding trim_end
trim_end-append [] t h k = k
trim_end-append (c ∷ x) t h k =
    ap (unit_onto c) (trim_end-append x t h k) ∙ unit_onto-solid c (x ++ t) (append-ne-nil x t h)
