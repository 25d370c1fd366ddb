-- ===== src/TypeFormatters/Types/Arguments.antt =====
-- Template arguments of src/typeFormatters.ts: `firstTemplateArgument` on nested types.
use vscode_cann_debugger.Base.{
  ℕ, zero, suc, Option, some, [], ◌∷◌, ◌++◌, append_assoc, ◌≡◌, ◌≢◌, ◌⊎◌, inl, inr, refl, ap, sym,
  ◌∙◌, arith, Text, trim, All,
}
use vscode_cann_debugger.TypeFormatters.Types.{
  depth_behind, cons_if_any, behind_unit, argument_from, argument_in, unless_empty,
  first_template_argument,
}

-- A type whose angle brackets are in pairs.
pub data Nested : Type 0 where
  closed : Nested
  unit : ℕ → Nested → Nested
  angle : Nested → Nested → Nested

abbrev pub spell : Nested → Text
spell closed = []
spell (unit c t) = c ∷ spell t
spell (angle inner t) = b'<' ∷ (spell inner ++ b'>' ∷ spell t)

-- No bracket stands outside the pairs.
abbrev pub IsInner : Nested → Type 0
IsInner closed = Unit
IsInner (unit c t) = (c ≢ b'<') × (c ≢ b'>') × IsInner t
IsInner (angle inner t) = IsInner inner × IsInner t

-- Nor does a comma.
abbrev pub IsOuter : Nested → Type 0
IsOuter closed = Unit
IsOuter (unit c t) = (c ≢ b'<') × (c ≢ b'>') × (c ≢ b',') × IsOuter t
IsOuter (angle inner t) = IsInner inner × IsOuter t

prepend : Text → Option Text → Option Text
unfolding cons_if_any
prepend [] o = o
prepend (c ∷ t) o = cons_if_any c (prepend t o)

prepend-append : (s t : Text) (o : Option Text) → prepend (s ++ t) o ≡ prepend s (prepend t o)
unfolding prepend
prepend-append [] t o = refl
prepend-append (c ∷ s) t o = ap (cons_if_any c) (prepend-append s t o)

inner_unit : (d c : ℕ) → c ≢ b'<' → c ≢ b'>' → depth_behind (suc d) c ≡ some (suc d)
unfolding depth_behind
inner_unit d c h k = ground arith

outer_unit : (c : ℕ) → c ≢ b'<' → c ≢ b'>' → c ≢ b',' → depth_behind zero c ≡ some zero
unfolding depth_behind
outer_unit c h k l = ground arith

argument_from-step :
    (d e c : ℕ) (t : Text)
    → depth_behind d c ≡ some e
    → argument_from d (c ∷ t) ≡ cons_if_any c (argument_from e t)
unfolding argument_from behind_unit
argument_from-step d e c t h = ap (λ o. behind_unit o c (λ deeper. argument_from deeper t)) h

opens : (d : ℕ) → depth_behind d b'<' ≡ some (suc d)
unfolding depth_behind
opens zero = refl
opens (suc d) = refl

closes : (d : ℕ) → depth_behind (suc d) b'>' ≡ some d
unfolding depth_behind
closes d = refl

-- A pair of brackets leaves the depth as it was, if what stands between them does.
argument_from-angle :
    (d : ℕ) (inner : Text) (t : Nested) (rest : Text) (behind : Option Text)
    → ((r : Text) → argument_from (suc d) (inner ++ r) ≡ prepend inner (argument_from (suc d) r))
    → argument_from d (spell t ++ rest) ≡ prepend (spell t) behind
    → argument_from d (b'<' ∷ (inner ++ b'>' ∷ (spell t ++ rest)))
      ≡ prepend (b'<' ∷ (inner ++ b'>' ∷ spell t)) behind
unfolding prepend
argument_from-angle d inner t rest behind h k =
    argument_from-step d (suc d) b'<' (inner ++ b'>' ∷ (spell t ++ rest)) (opens d)
    ∙ ap (cons_if_any b'<') (
        h (b'>' ∷ (spell t ++ rest))
        ∙ ap (prepend inner) (
            argument_from-step (suc d) d b'>' (spell t ++ rest) (closes d)
            ∙ ap (cons_if_any b'>') k)
        ∙ sym (prepend-append inner (b'>' ∷ spell t) behind))

argument_from-inner :
    (n : Nested) (d : ℕ) (rest : Text)
    → IsInner n
    → argument_from (suc d) (spell n ++ rest) ≡ prepend (spell n) (argument_from (suc d) rest)
unfolding prepend
argument_from-inner closed d rest h = refl
argument_from-inner (unit c t) d rest (h, k, l) =
    argument_from-step (suc d) (suc d) c (spell t ++ rest) (inner_unit d c h k)
    ∙ ap (cons_if_any c) (argument_from-inner t d rest l)
argument_from-inner (angle inner t) d rest (h, k) = rw append_assoc (
    argument_from-angle (suc d) (spell inner) t rest (argument_from (suc d) rest)
      (λ r. argument_from-inner inner (suc d) r h) (argument_from-inner t d rest k))

argument_from-outer :
    (n : Nested) (rest : Text)
    → IsOuter n
    → argument_from 0 (spell n ++ rest) ≡ prepend (spell n) (argument_from 0 rest)
unfolding prepend
argument_from-outer closed rest h = refl
argument_from-outer (unit c t) rest (h, k, l, m) =
    argument_from-step 0 0 c (spell t ++ rest) (outer_unit c h k l)
    ∙ ap (cons_if_any c) (argument_from-outer t rest m)
argument_from-outer (angle inner t) rest (h, k) = rw append_assoc (
    argument_from-angle 0 (spell inner) t rest (argument_from 0 rest)
      (λ r. argument_from-inner inner 0 r h) (argument_from-outer t rest k))

prepend-none_left : (t : Text) → prepend t (some []) ≡ some t
unfolding prepend cons_if_any
prepend-none_left [] = refl
prepend-none_left (c ∷ t) = ap (cons_if_any c) (prepend-none_left t)

argument_from-end :
    (close : ℕ) (rest : Text)
    → (close ≡ b'>') ⊎ (close ≡ b',')
    → argument_from 0 (close ∷ rest) ≡ some []
unfolding argument_from behind_unit depth_behind
argument_from-end close rest (inl h) = rw h refl
argument_from-end close rest (inr h) = rw h refl

-- The first argument of a template, whatever templates nest in it, is found whole and trimmed: the
-- name in front holds no `<`, the argument has its angle brackets in pairs and no comma outside
-- them, and `>` or a comma stands behind it. An argument of nothing but white space is none.
pub first_template_argument-spell :
    (name : Text) (n : Nested) (close : ℕ) (rest : Text)
    → All (λ c. c ≢ b'<') name
    → IsOuter n
    → (close ≡ b'>') ⊎ (close ≡ b',')
    → first_template_argument (name ++ b'<' ∷ (spell n ++ close ∷ rest))
      ≡ unless_empty (trim (spell n))
unfolding first_template_argument argument_in
first_template_argument-spell [] n close rest h k l = ap argument_in (
    argument_from-outer n (close ∷ rest) k
    ∙ ap (prepend (spell n)) (argument_from-end close rest l)
    ∙ prepend-none_left (spell n))
first_template_argument-spell (c ∷ name) n close rest (h, hs) k l =
    ground (arith, first_template_argument-spell name n close rest hs k l)
