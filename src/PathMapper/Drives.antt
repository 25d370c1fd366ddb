-- ===== src/PathMapper/Drives.antt =====
-- Drive paths there and back: `toDebugger` and `toHost` of src/pathMapper.ts.
use vscode_cann_debugger.Base.{
  ℕ, Bool, true, false, ◌&&◌, none, some, [], ◌∷◌, ◌++◌, append_assoc, Text, codes, length, ltb,
  leb, ◌==◌, ◌≡◌, refl, ap, ◌∙◌, arith, Bool-cases, inl, inr,
}
use vscode_cann_debugger.Mi.CString.{replace_unit}
use vscode_cann_debugger.Registers.{lower, upper}
use vscode_cann_debugger.PathMapper.{
  Mapper, to_posix, to_windows, trim_trailing_slash, drop_slashes, join_posix, starts_with,
  is_win_abs, unc_path, drive_path, mapped_to_guest, or_else, mapped_to_host, drive_of,
  drive_or_local, is_drive_letter, from_host, to_debugger, to_host, with_rest, word,
}
use vscode_cann_debugger.PathMapper.Slashes.{
  NoSlash, NoBackslash, to_windows-NoSlash, to_posix-append, to_posix-to_posix, to_windows-to_posix,
  drop_end-last, drive_of-append,
}

abbrev pub is_capital : ℕ → Bool
is_capital c = leb b'A' c && leb c b'Z'

upper-lower : (c : ℕ) → is_capital c ≡ true → upper (lower c) ≡ c
unfolding upper lower
upper-lower c h = ground arith

lower-drive_letter : (c : ℕ) → is_capital c ≡ true → is_drive_letter (lower c) ≡ true
unfolding lower
lower-drive_letter c h = ground arith

capital-drive_letter : (c : ℕ) → is_capital c ≡ true → is_drive_letter c ≡ true
capital-drive_letter c h = ground arith

lower-ne : (c : ℕ) → is_capital c ≡ true → (lower c == b'/') ≡ false
unfolding lower
lower-ne c h = ground arith

lower-ne_backslash : (c : ℕ) → is_capital c ≡ true → (lower c == b'\\') ≡ false
unfolding lower
lower-ne_backslash c h = ground arith

capital-ne : (c : ℕ) → is_capital c ≡ true → (c == b'/') ≡ false
capital-ne c h = ground arith

-- The mapper of a configuration without a source map.
abbrev pub unmapped : Text → Text → Mapper
unmapped root distro = record {
  entries = [];
  mnt_root = root;
  distro = distro;
  passthrough = false;
}

abbrev pub host_path : ℕ → Text → Text
host_path c p = c ∷ b':' ∷ b'\\' ∷ p

abbrev pub guest_path : Text → ℕ → Text → Text
guest_path root c p = (root ++ codes "/" ++ lower c ∷ []) ++ codes "/" ++ to_posix p

drop_slashes-to_posix :
    (d : ℕ) (p : Text)
    → (d == b'/') ≡ false
    → (d == b'\\') ≡ false
    → drop_slashes (to_posix (d ∷ p)) ≡ to_posix (d ∷ p)
unfolding drop_slashes to_posix replace_unit
drop_slashes-to_posix d p h h' = rw (h') (rw (h) refl)

trim_drive :
    (root : Text) (c : ℕ)
    → is_capital c ≡ true
    → trim_trailing_slash (root ++ codes "/" ++ lower c ∷ []) ≡ root ++ codes "/" ++ lower c ∷ []
unfolding trim_trailing_slash
trim_drive root c h = elim (Bool-cases (ltb 1 (length (root ++ codes "/" ++ lower c ∷ [])))) [
  | inl b ↦ rw (b) (drop_end-last (λ c. c == b'/') (root ++ codes "/") (lower c) (lower-ne c h))
  | inr b ↦ rw (b) refl
]

unc_path-capital : (c : ℕ) (t : Text) → is_capital c ≡ true → unc_path (c ∷ t) ≡ none
unfolding unc_path word
unc_path-capital c t h = rw (lower-ne_backslash c h) refl

with_rest-to_posix :
    (start otherwise : Text) (d : ℕ) (p : Text)
    → (d == b'\\') ≡ false
    → with_rest start otherwise (to_posix (d ∷ p)) ≡ start ++ to_posix (d ∷ p)
unfolding to_posix replace_unit
with_rest-to_posix start otherwise d p h = rw (h) refl

join_posix-drive :
    (root : Text) (c d : ℕ) (p : Text)
    → is_capital c ≡ true
    → (d == b'/') ≡ false
    → (d == b'\\') ≡ false
    → join_posix (root ++ codes "/" ++ lower c ∷ []) (to_posix (b'\\' ∷ d ∷ p))
      ≡ guest_path root c (d ∷ p)
unfolding join_posix to_posix replace_unit drop_slashes
join_posix-drive root c d p h hd hb =
    let base = root ++ codes "/" ++ lower c ∷ [] in
    ap (λ b. with_rest (b ++ codes "/") b (drop_slashes (b'/' ∷ to_posix (d ∷ p))))
      (trim_drive root c h)
    ∙ ap (λ r. with_rest (base ++ codes "/") base r) (drop_slashes-to_posix d p hd hb)
    ∙ with_rest-to_posix (base ++ codes "/") base d p hb

drive_path-host_path :
    (root distro : Text) (c d : ℕ) (p : Text)
    → is_capital c ≡ true
    → (d == b'/') ≡ false
    → (d == b'\\') ≡ false
    → drive_path (unmapped root distro) (host_path c (d ∷ p)) ≡ guest_path root c (d ∷ p)
unfolding drive_path is_win_abs join_posix
drive_path-host_path root distro c d p h hd hb =
    rw (capital-drive_letter c h) (join_posix-drive root c d p h hd hb)

to_windows-host_path :
    (c : ℕ) (p : Text)
    → is_capital c ≡ true
    → NoSlash p
    → to_windows (host_path c p) ≡ host_path c p
to_windows-host_path c p h hs =
    to_windows-NoSlash (host_path c p) (capital-ne c h, (refl, (refl, hs)))

to_debugger-host_path :
    (to_lower : Text → Text) (root distro : Text) (c d : ℕ) (p : Text)
    → is_capital c ≡ true
    → NoSlash (d ∷ p)
    → (d == b'\\') ≡ false
    → to_debugger to_lower (unmapped root distro) (host_path c (d ∷ p)) ≡ guest_path root c (d ∷ p)
unfolding to_debugger starts_with from_host mapped_to_guest or_else
to_debugger-host_path to_lower root distro c d p h (hd, hs) hb =
    rw
      (
        capital-ne c h,
        unc_path-capital c (b':' ∷ b'\\' ∷ d ∷ p) h,
        to_windows-host_path c (d ∷ p) h (hd, hs),
      )
      (drive_path-host_path root distro c d p h hd hb)

to_posix-drive :
    (c : ℕ) (p : Text)
    → is_capital c ≡ true
    → to_posix (b'/' ∷ lower c ∷ b'/' ∷ to_posix p) ≡ b'/' ∷ lower c ∷ b'/' ∷ to_posix p
unfolding to_posix replace_unit
to_posix-drive c p h =
    rw (lower-ne_backslash c h) (ap (λ t. b'/' ∷ lower c ∷ b'/' ∷ t) (to_posix-to_posix p))

guest_path-shape :
    (root : Text) (c : ℕ) (p : Text)
    → guest_path root c p ≡ root ++ b'/' ∷ lower c ∷ b'/' ∷ to_posix p
guest_path-shape root c p = simp (append_assoc)

to_posix-guest_path :
    (root : Text) (c : ℕ) (p : Text)
    → NoBackslash root
    → is_capital c ≡ true
    → to_posix (guest_path root c p) ≡ root ++ b'/' ∷ lower c ∷ b'/' ∷ to_posix p
to_posix-guest_path root c p hr h =
    ap to_posix (guest_path-shape root c p)
    ∙ to_posix-append root (b'/' ∷ lower c ∷ b'/' ∷ to_posix p) hr
    ∙ ap (λ t. root ++ t) (to_posix-drive c p h)

is_win_abs-slash : (t : Text) → is_win_abs (b'/' ∷ t) ≡ false
unfolding is_win_abs
is_win_abs-slash [] = refl
is_win_abs-slash (a ∷ []) = refl
is_win_abs-slash (a ∷ b ∷ t) = refl

drive_or_local-drive :
    (m : Mapper) (path guest : Text) (c d : ℕ) (p : Text)
    → is_capital c ≡ true
    → NoSlash (d ∷ p)
    → (d == b'\\') ≡ false
    → drive_or_local m path guest (some (lower c, b'/' ∷ to_posix (d ∷ p))) ≡ host_path c (d ∷ p)
unfolding drive_or_local drop_slashes
drive_or_local-drive m path guest c d p h (hd, hs) hb =
    ap
      (λ u.
        with_rest (u ∷ codes ":\\") (u ∷ codes ":\\")
          (to_windows (drop_slashes (b'/' ∷ to_posix (d ∷ p)))))
      (upper-lower c h)
    ∙ ap (with_rest (c ∷ codes ":\\") (c ∷ codes ":\\"))
        (ap to_windows (drop_slashes-to_posix d p hd hb) ∙ to_windows-to_posix (d ∷ p) (hd, hs))

to_host-guest_path :
    (to_lower : Text → Text) (r distro : Text) (c d : ℕ) (p : Text)
    → NoBackslash (b'/' ∷ r)
    → is_capital c ≡ true
    → NoSlash (d ∷ p)
    → (d == b'\\') ≡ false
    → to_host to_lower (unmapped (b'/' ∷ r) distro) (guest_path (b'/' ∷ r) c (d ∷ p))
      ≡ host_path c (d ∷ p)
unfolding to_host mapped_to_host or_else starts_with
to_host-guest_path to_lower r distro c d p hr h hs hb =
    let m = unmapped (b'/' ∷ r) distro in
    let root = b'/' ∷ r in
    let path = guest_path root c (d ∷ p) in
    rw (is_win_abs-slash) (
      ap (λ g. drive_or_local m path g (drive_of root g)) (to_posix-guest_path root c (d ∷ p) hr h)
      ∙ ap (drive_or_local m path (root ++ b'/' ∷ lower c ∷ b'/' ∷ to_posix (d ∷ p)))
          (drive_of-append root (lower c) (to_posix (d ∷ p)) (lower-drive_letter c h))
      ∙ drive_or_local-drive m path (root ++ b'/' ∷ lower c ∷ b'/' ∷ to_posix (d ∷ p)) c d p h hs
          hb)

-- A drive path goes to the guest and comes back as it was, whatever the mount root: the drive's
-- letter is a capital, the path behind it is not empty, does not begin with a backslash and holds
-- no slash, the root is absolute and holds no backslash, and there is no source map.
pub to_host-to_debugger :
    (to_lower : Text → Text) (r distro : Text) (c d : ℕ) (p : Text)
    → NoBackslash (b'/' ∷ r)
    → is_capital c ≡ true
    → NoSlash (d ∷ p)
    → (d == b'\\') ≡ false
    → to_host to_lower
        (unmapped (b'/' ∷ r) distro)
        (to_debugger to_lower (unmapped (b'/' ∷ r) distro) (host_path c (d ∷ p)))
      ≡ host_path c (d ∷ p)
to_host-to_debugger to_lower r distro c d p hr h hs hb =
    ap (to_host to_lower (unmapped (b'/' ∷ r) distro))
      (to_debugger-host_path to_lower (b'/' ∷ r) distro c d p h hs hb)
    ∙ to_host-guest_path to_lower r distro c d p hr h hs hb
