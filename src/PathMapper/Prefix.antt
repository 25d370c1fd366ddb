-- ===== src/PathMapper/Prefix.antt =====
-- Whole segments: `isPrefix` of src/pathMapper.ts.
use vscode_cann_debugger.Base.{
  ℕ, Bool, true, false, not, ◌||◌, ◌&&◌, [], ◌∷◌, ◌++◌, Text, length, length-append, ◌==◌, ==_iff,
  ==_refl, ◌≡◌, ◌≢◌, refl, sym, ap, ◌∙◌, inl, inr, arith, Bool-cases, if◌then◌else◌,
}
use vscode_cann_debugger.PathMapper.{is_prefix, starts_with, ends_in, unit_at}

-- The text behind a prefix that a path segment may end at.
pub data IsBoundary (prefix : Text) (sep : ℕ) : Text → Type 0 where
  whole : IsBoundary prefix sep []
  closed : {t : Text} → ends_in prefix sep ≡ true → IsBoundary prefix sep t
  separated : {t : Text} → IsBoundary prefix sep (sep ∷ t)

and-true : (a b : Bool) → (a && b) ≡ true → (a ≡ true) × (b ≡ true)
and-true true b h = (refl, h)
and-true false b h = cc

or-true : (a b : Bool) → a ≡ false → (a || b) ≡ true → b ≡ true
or-true true b e h = cc
or-true false b e h = h

starts_with-append :
    (value prefix : Text)
    → starts_with value prefix ≡ true
    → (behind : Text) × (value ≡ prefix ++ behind)
unfolding starts_with
starts_with-append value [] h = (value, refl)
starts_with-append [] (c ∷ prefix) h = cc
starts_with-append (v ∷ value) (c ∷ prefix) h =
    let (e, hs) = and-true (v == c) (starts_with value prefix) h in
    let (behind, e') = starts_with-append value prefix hs in
    let same : v ≡ c = (==_iff v c).0 e in (behind, rw (same) (ap (λ t. c ∷ t) e'))

append-starts_with : (prefix behind : Text) → starts_with (prefix ++ behind) prefix ≡ true
unfolding starts_with
append-starts_with [] behind = refl
append-starts_with (c ∷ prefix) behind = rw (==_refl c) (append-starts_with prefix behind)

unit_at-append :
    (prefix behind : Text) → unit_at (length prefix) (prefix ++ behind) ≡ unit_at 0 behind
unfolding unit_at
unit_at-append [] behind = refl
unit_at-append (c ∷ prefix) behind = unit_at-append prefix behind

longer : (p : Text) (x : ℕ) (t : Text) → (length (p ++ x ∷ t) == length p) ≡ false
longer p x t = let e = length-append p (x ∷ t) in ground arith

is_prefix-longer :
    (c : ℕ) (p : Text) (x : ℕ) (t : Text) (sep : ℕ)
    → is_prefix ((c ∷ p) ++ x ∷ t) (c ∷ p) sep ≡ (ends_in (c ∷ p) sep || x == sep)
unfolding is_prefix
is_prefix-longer c p x t sep =
    rw (append-starts_with (c ∷ p) (x ∷ t), longer (c ∷ p) x t, unit_at-append (c ∷ p) (x ∷ t)) refl

boundary :
    (c : ℕ) (p behind : Text) (sep : ℕ)
    → is_prefix ((c ∷ p) ++ behind) (c ∷ p) sep ≡ true
    → IsBoundary (c ∷ p) sep behind
boundary c p [] sep h = whole
boundary c p (x ∷ t) sep h = elim (Bool-cases (ends_in (c ∷ p) sep)) [
  | inl e ↦ closed e
  | inr e ↦
      let e' =
        or-true (ends_in (c ∷ p) sep) (x == sep) e (sym (is_prefix-longer c p x t sep) ∙ h) in
      let same : x ≡ sep = (==_iff x sep).0 e' in rw (same) separated
]

unrefused : (b x : Bool) → (if not b then false else x) ≡ true → b ≡ true
unrefused true x h = refl
unrefused false x h = cc

-- A path has a prefix only at a whole segment: the prefix is not empty, the path goes on behind it,
-- and what is behind is nothing, or begins with the separator, or the prefix ends in it.
is_prefix-IsBoundary :
    (value prefix : Text) (sep : ℕ)
    → is_prefix value prefix sep ≡ true
    → (prefix ≢ []) × (behind : Text) × (value ≡ prefix ++ behind) × IsBoundary prefix sep behind
unfolding is_prefix
is_prefix-IsBoundary value [] sep h = cc
is_prefix-IsBoundary value (c ∷ p) sep h =
    let starts = unrefused (starts_with value (c ∷ p)) _ h in
    let (behind, e) = starts_with-append value (c ∷ p) starts in
    let same = ap (λ v. is_prefix v (c ∷ p) sep) e in
    (cc, behind, e, boundary c p behind sep (sym same ∙ h))
