-- ===== src/PathMapper/Slashes.antt =====
-- Slashes and backslashes of paths: the text functions of src/pathMapper.ts.
use vscode_cann_debugger.Base.{
  ℕ, Bool, true, false, some, [], ◌∷◌, ◌++◌, Text, ◌==◌, ==_iff, ==_refl, All, ◌≡◌, refl, ap,
  Bool-cases, inl, inr,
}
use vscode_cann_debugger.Mi.CString.{replace_unit}
use vscode_cann_debugger.PathMapper.{
  to_posix, to_windows, onto_end, drop_end, drive_of, is_drive_letter,
}

-- Text without a slash, and without a backslash.
abbrev pub NoSlash : Text → Type 0
NoSlash = All (λ c. (c == b'/') ≡ false)

abbrev pub NoBackslash : Text → Type 0
NoBackslash = All (λ c. (c == b'\\') ≡ false)

pub to_windows-NoSlash : (p : Text) → NoSlash p → to_windows p ≡ p
unfolding to_windows replace_unit
to_windows-NoSlash [] h = refl
to_windows-NoSlash (c ∷ p) (h, hs) = rw (h) (ap (λ t. c ∷ t) (to_windows-NoSlash p hs))

pub to_posix-append : (p q : Text) → NoBackslash p → to_posix (p ++ q) ≡ p ++ to_posix q
unfolding to_posix replace_unit
to_posix-append [] q h = refl
to_posix-append (c ∷ p) q (h, hs) = rw (h) (ap (λ t. c ∷ t) (to_posix-append p q hs))

pub to_posix-to_posix : (p : Text) → to_posix (to_posix p) ≡ to_posix p
unfolding to_posix replace_unit
to_posix-to_posix [] = refl
to_posix-to_posix (c ∷ p) = elim (Bool-cases (c == b'\\')) [
  | inl h ↦ rw (h) (ap (λ t. b'/' ∷ t) (to_posix-to_posix p))
  | inr h ↦ rw (h, h) (ap (λ t. c ∷ t) (to_posix-to_posix p))
]

pub to_windows-to_posix : (p : Text) → NoSlash p → to_windows (to_posix p) ≡ p
unfolding to_posix to_windows replace_unit
to_windows-to_posix [] h = refl
to_windows-to_posix (c ∷ p) (h, hs) = elim (Bool-cases (c == b'\\')) [
  | inl e ↦
      let same : c ≡ b'\\' = (==_iff c b'\\').0 e in
      rw (same) (ap (λ t. b'\\' ∷ t) (to_windows-to_posix p hs))
  | inr e ↦ rw (e, h) (ap (λ t. c ∷ t) (to_windows-to_posix p hs))
]

pub drop_end-last :
    (test : ℕ → Bool) (p : Text) (c : ℕ)
    → test c ≡ false
    → drop_end test (p ++ c ∷ []) ≡ p ++ c ∷ []
unfolding drop_end onto_end
drop_end-last test [] c h = rw (h) refl
drop_end-last test (d ∷ []) c h = rw (h) refl
drop_end-last test (d ∷ e ∷ p) c h = rw (drop_end-last test (e ∷ p) c h) refl

pub drive_of-append :
    (root : Text) (c : ℕ) (t : Text)
    → is_drive_letter c ≡ true
    → drive_of root (root ++ b'/' ∷ c ∷ b'/' ∷ t) ≡ some (c, b'/' ∷ t)
unfolding drive_of
drive_of-append [] c t h = rw (h) refl
drive_of-append (r ∷ root) c t h = rw (==_refl r, drive_of-append root c t h) refl
