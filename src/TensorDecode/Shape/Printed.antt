-- ===== src/TensorDecode/Shape/Printed.antt =====
-- Shapes of src/tensorDecode.ts as people write them, and the parts that `parseShape` takes of them.
use vscode_cann_debugger.Base.{
  ℕ, true, false, Option, some, List, [], ◌∷◌, ◌++◌, append_assoc, append-nil, Text, if◌then◌else◌,
  is_digit, is_space, decimal, decimal-IsDigits, decimal-ne-nil, IsDigits, All, ◌≡◌, ◌≢◌, refl, ap,
  sym, ◌∙◌, subst, arith,
}
use vscode_cann_debugger.TensorDecode.Shape.{
  Place, start, dimension, gap, mark, is_mark, place_behind, onto_first, end_run, collected, turn,
  beyond, shape_parts,
}

-- A separator: white space, a mark with white space on both sides of it.
pub data Separator : Type 0 where
  spaces : ℕ → Text → Separator
  marked : Text → ℕ → Text → Separator

abbrev IsSpaces : Text → Type 0
IsSpaces = All (λ c. is_space c ≡ true)

abbrev pub separator : Separator → Text
separator (spaces c t) = c ∷ t
separator (marked before m after) = before ++ m ∷ after

abbrev pub IsSeparator : Separator → Type 0
IsSeparator (spaces c t) = (is_space c ≡ true) × IsSpaces t
IsSeparator (marked before m after) = IsSpaces before × (is_mark m ≡ true) × IsSpaces after

-- A shape: its first dimension, and the others behind their separators.
abbrev pub written : ℕ → List (Separator × ℕ) → Text
written d [] = decimal d
written d ((s, e) ∷ rest) = decimal d ++ (separator s ++ written e rest)

unfoldable pub runs_of : ℕ → List (Separator × ℕ) → List Text
runs_of d [] = decimal d ∷ []
runs_of d ((s, e) ∷ rest) = decimal d ∷ runs_of e rest

prepend_run : Text → Option (List Text) → Option (List Text)
prepend_run [] runs = runs
prepend_run (c ∷ t) runs = onto_first c (prepend_run t runs)

shape_parts-cons :
    (place : Place) (c : ℕ) (t : Text)
    → shape_parts place (c ∷ t) ≡ beyond place c (turn place c) (λ next. shape_parts next t)
unfolding shape_parts
shape_parts-cons start c t = refl
shape_parts-cons dimension c t = refl
shape_parts-cons gap c t = refl
shape_parts-cons mark c t = refl

shape_parts-digit :
    (place : Place) (c : ℕ) (t : Text)
    → is_digit c ≡ true
    → shape_parts place (c ∷ t) ≡ onto_first c (shape_parts dimension t)
unfolding turn beyond collected
shape_parts-digit place c t h =
    shape_parts-cons place c t
    ∙ ap
        (λ b.
          beyond place c (if b then some dimension else place_behind place c)
            (λ next. shape_parts next t))
        h
    ∙ ap (λ b. collected b c place (shape_parts dimension t)) h

shape_parts-other :
    (place next : Place) (c : ℕ) (t : Text)
    → is_digit c ≡ false
    → place_behind place c ≡ some next
    → shape_parts place (c ∷ t) ≡ end_run place (shape_parts next t)
unfolding turn beyond collected
shape_parts-other place next c t h k =
    shape_parts-cons place c t
    ∙ ap
        (λ b.
          beyond place c (if b then some dimension else place_behind place c)
            (λ n. shape_parts n t))
        h
    ∙ ap (λ o. beyond place c o (λ n. shape_parts n t)) k
    ∙ ap (λ b. collected b c place (shape_parts next t)) h

digits-parts :
    (ds t : Text)
    → IsDigits ds
    → shape_parts dimension (ds ++ t) ≡ prepend_run ds (shape_parts dimension t)
unfolding prepend_run
digits-parts [] t h = refl
digits-parts (c ∷ ds) t (hc, h) =
    shape_parts-digit dimension c (ds ++ t) hc ∙ ap (onto_first c) (digits-parts ds t h)

space_no_digit : (c : ℕ) → is_space c ≡ true → is_digit c ≡ false
unfolding is_space is_digit
space_no_digit c h = ground arith

space_no_mark : (c : ℕ) → is_space c ≡ true → is_mark c ≡ false
unfolding is_space is_mark
space_no_mark c h = ground arith

mark_no_digit : (c : ℕ) → is_mark c ≡ true → is_digit c ≡ false
unfolding is_digit is_mark
mark_no_digit c h = ground arith

-- White space behind a mark or in a gap changes nothing.
space_behind-mark : (c : ℕ) → is_space c ≡ true → place_behind mark c ≡ some mark
unfolding place_behind
space_behind-mark c h = rw h

space_behind-gap : (c : ℕ) → is_space c ≡ true → place_behind gap c ≡ some gap
unfolding place_behind
space_behind-gap c h = rw (space_no_mark c h) (rw h)

space_behind-dimension : (c : ℕ) → is_space c ≡ true → place_behind dimension c ≡ some gap
unfolding place_behind
space_behind-dimension c h = rw (space_no_mark c h) (rw h)

mark_behind-gap : (c : ℕ) → is_mark c ≡ true → place_behind gap c ≡ some mark
unfolding place_behind
mark_behind-gap c h = rw h

mark_behind-dimension : (c : ℕ) → is_mark c ≡ true → place_behind dimension c ≡ some mark
unfolding place_behind
mark_behind-dimension c h = rw h

spaces-mark : (t rest : Text) → IsSpaces t → shape_parts mark (t ++ rest) ≡ shape_parts mark rest
unfolding end_run
spaces-mark [] rest h = refl
spaces-mark (c ∷ t) rest (hc, h) =
    shape_parts-other mark mark c (t ++ rest) (space_no_digit c hc) (space_behind-mark c hc)
    ∙ spaces-mark t rest h

spaces-gap : (t rest : Text) → IsSpaces t → shape_parts gap (t ++ rest) ≡ shape_parts gap rest
unfolding end_run
spaces-gap [] rest h = refl
spaces-gap (c ∷ t) rest (hc, h) =
    shape_parts-other gap gap c (t ++ rest) (space_no_digit c hc) (space_behind-gap c hc)
    ∙ spaces-gap t rest h

-- A gap and a mark in front of a digit are the same.
abbrev pub StartsDigit : Text → Type 0
StartsDigit [] = ⊥
StartsDigit (c ∷ t) = is_digit c ≡ true

pub digit-parts :
    (place : Place) (t : Text) → StartsDigit t → shape_parts place t ≡ shape_parts mark t
digit-parts place [] h = elim h [ ]
digit-parts place (c ∷ t) h = shape_parts-digit place c t h ∙ sym (shape_parts-digit mark c t h)

-- A separator ends the run.
separator-parts :
    (s : Separator) (t : Text)
    → IsSeparator s
    → StartsDigit t
    → shape_parts dimension (separator s ++ t) ≡ end_run dimension (shape_parts mark t)
unfolding end_run
separator-parts (spaces c before) t (hc, h) k =
    shape_parts-other dimension gap c (before ++ t) (space_no_digit c hc)
      (space_behind-dimension c hc)
    ∙ ap (end_run dimension) (spaces-gap before t h ∙ digit-parts gap t k)
separator-parts (marked [] m after) t (hb, hm, ha) k =
    shape_parts-other dimension mark m (after ++ t) (mark_no_digit m hm)
      (mark_behind-dimension m hm)
    ∙ ap (end_run dimension) (spaces-mark after t ha)
separator-parts (marked (c ∷ before) m after) t ((hc, hb), hm, ha) k = rw append_assoc (
    shape_parts-other dimension gap c (before ++ m ∷ (after ++ t)) (space_no_digit c hc)
      (space_behind-dimension c hc)
    ∙ ap (end_run dimension) (
        spaces-gap before (m ∷ (after ++ t)) hb
        ∙ shape_parts-other gap mark m (after ++ t) (mark_no_digit m hm) (mark_behind-gap m hm)
        ∙ spaces-mark after t ha))

prepend_run-some :
    (ds run : Text) (runs : List Text)
    → prepend_run ds (some (run ∷ runs)) ≡ some ((ds ++ run) ∷ runs)
unfolding prepend_run onto_first
prepend_run-some [] run runs = refl
prepend_run-some (c ∷ ds) run runs = ap (onto_first c) (prepend_run-some ds run runs)

digits-StartsDigit : (ds t : Text) → ds ≢ [] → IsDigits ds → StartsDigit (ds ++ t)
digits-StartsDigit [] t h k = absurd (h refl)
digits-StartsDigit (c ∷ ds) t h k = k.0

pub written-StartsDigit : (d : ℕ) (rest : List (Separator × ℕ)) → StartsDigit (written d rest)
written-StartsDigit d [] =
    subst StartsDigit (append-nil (decimal d))
      (digits-StartsDigit (decimal d) [] (decimal-ne-nil d) (decimal-IsDigits d))
written-StartsDigit d ((s, e) ∷ rest) =
    digits-StartsDigit (decimal d) (separator s ++ written e rest) (decimal-ne-nil d)
      (decimal-IsDigits d)

abbrev pub AreSeparators : List (Separator × ℕ) → Type 0
AreSeparators [] = Unit
AreSeparators ((s, e) ∷ rest) = IsSeparator s × AreSeparators rest

alone :
    (d : ℕ) (runs : List Text)
    → prepend_run (decimal d) (some ([] ∷ runs)) ≡ some (decimal d ∷ runs)
alone d runs =
    prepend_run-some (decimal d) [] runs ∙ ap (λ r. some (r ∷ runs)) (append-nil (decimal d))

pub written-parts :
    (rest : List (Separator × ℕ)) (d : ℕ)
    → AreSeparators rest
    → shape_parts dimension (written d rest) ≡ some (runs_of d rest)
unfolding runs_of end_run shape_parts
written-parts [] d h =
    ap (shape_parts dimension) (sym (append-nil (decimal d)))
    ∙ digits-parts (decimal d) [] (decimal-IsDigits d)
    ∙ alone d []
written-parts ((s, e) ∷ rest) d (hs, h) =
    digits-parts (decimal d) (separator s ++ written e rest) (decimal-IsDigits d)
    ∙ ap (prepend_run (decimal d)) (
        separator-parts s (written e rest) hs (written-StartsDigit e rest)
        ∙ ap (end_run dimension) (
            sym (digit-parts dimension (written e rest) (written-StartsDigit e rest))
            ∙ written-parts rest e h))
    ∙ alone d (runs_of e rest)
