-- ===== src/Launch/Shell/Words.antt =====
-- What the guest shell makes of quoted words: the splitting of a simple command by the rules of
-- the POSIX shell on quoting, as a specification of `shQuote` of src/wslLauncher.ts.
use vscode_cann_debugger.Base.{
  false, true, All, ℕ, Bool, ◌||◌, ◌&&◌, List, [], ◌∷◌, ◌++◌, append_assoc, append-nil, Option,
  none, some, Text, codes, leb, ◌==◌, ==_iff, if◌then◌else◌, ◌≡◌, refl, sym, ap, ◌∙◌, Bool-cases,
  inl, inr,
}
use vscode_cann_debugger.Mi.CString.{replace_unit}
use vscode_cann_debugger.Launch.Shell.{sh_quote, join, quote_all}

-- Between words, in one with its text so far, in single quotes, behind a backslash.
pub data Place : Type 0 where
  between : Place
  in_word in_quotes behind_backslash : Text → Place

-- The characters that stand for themselves outside of quotes wherever they are.
unfoldable pub is_plain : ℕ → Bool
is_plain c =
    leb b'0' c && leb c b'9'
    || leb b'a' c && leb c b'z'
    || leb b'A' c && leb c b'Z'
    || c == b'_'
    || c == b'-'
    || c == b'.'
    || c == b'/'

-- What one character does: the words it ends, and the place behind it; `none` where it has a
-- meaning of its own to the shell, or is a line end that a backslash removes.
unfoldable pub take_unit : Place → ℕ → Option (List Text × Place)
unfolding is_plain
take_unit (in_quotes w) c =
    some (if c == b'\'' then ([], in_word w) else ([], in_quotes (w ++ c ∷ [])))
take_unit (behind_backslash w) c = if c == 10 then none else some ([], in_word (w ++ c ∷ []))
take_unit between c =
    if c == b' '
    then some ([], between)
    else if c == b'\''
    then some ([], in_quotes [])
    else if c == b'\\'
    then some ([], behind_backslash [])
    else if is_plain c
    then some ([], in_word (c ∷ []))
    else none
take_unit (in_word w) c =
    if c == b' '
    then some (w ∷ [], between)
    else if c == b'\''
    then some ([], in_quotes w)
    else if c == b'\\'
    then some ([], behind_backslash w)
    else if is_plain c
    then some ([], in_word (w ++ c ∷ []))
    else none

abbrev pub in_front : List Text → Option (List Text) → Option (List Text)
in_front ws none = none
in_front ws (some vs) = some (ws ++ vs)

abbrev at_end : Place → Option (List Text)
at_end between = some []
at_end (in_word w) = some (w ∷ [])
at_end (in_quotes w) = none
at_end (behind_backslash w) = none

-- The words of a simple command, read on from a place; `none` where a quote is open at the end.
unfoldable pub shell_words : Place → Text → Option (List Text)
unfolding take_unit
shell_words p [] = at_end p
shell_words p (c ∷ t) = elim (take_unit p c) as (λ _. Option (List Text)) [
  | none ↦ none
  | some (ws, q) ↦ in_front ws (shell_words q t)
]

in_front-nil : (o : Option (List Text)) → in_front [] o ≡ o
in_front-nil none = refl
in_front-nil (some ws) = refl

-- Inside quotes the text of a value is read up to its end, its own quotes included.
shell_words-quoted :
    (w value behind : Text)
    → shell_words (in_quotes w) (replace_unit b'\'' (codes "'\\''") value ++ b'\'' ∷ behind)
      ≡ shell_words (in_word (w ++ value)) behind
unfolding shell_words take_unit replace_unit
shell_words-quoted w [] behind = rw (in_front-nil, append-nil) refl
shell_words-quoted w (c ∷ value) behind =
    let next = shell_words-quoted (w ++ c ∷ []) value behind in
    elim (Bool-cases (c == b'\'')) [
      | inl h ↦
          let e : c ≡ b'\'' = (==_iff c b'\'').0 h in
          rw
            (
              e,
              in_front-nil,
              in_front-nil,
              in_front-nil,
              in_front-nil,
              shell_words-quoted (w ++ b'\'' ∷ []) value behind,
              append_assoc,
            )
            refl
      | inr h ↦ rw (h, h, in_front-nil, next, append_assoc) refl
    ]

-- A quoted value is one word.
shell_words-sh_quote :
    (value behind : Text)
    → shell_words between (sh_quote value ++ behind) ≡ shell_words (in_word value) behind
unfolding shell_words take_unit sh_quote
shell_words-sh_quote value behind = rw (in_front-nil, append_assoc, shell_words-quoted) refl

-- The guest shell reads the quoted words of a command, with blanks between them, back as exactly
-- those words, whatever quotes, blanks, operators, expansions and other characters they hold.
pub shell_words-quote_all :
    (argv : List Text) → shell_words between (join (codes " ") (quote_all argv)) ≡ some argv
unfolding shell_words take_unit join quote_all
shell_words-quote_all [] = refl
shell_words-quote_all (v ∷ []) =
    ap (shell_words between) (sym (append-nil (sh_quote v))) ∙ shell_words-sh_quote v []
shell_words-quote_all (v ∷ u ∷ argv) =
    let next = shell_words-quote_all (u ∷ argv) in
    shell_words-sh_quote v (codes " " ++ join (codes " ") (quote_all (u ∷ argv)))
    ∙ ap (in_front (v ∷ [])) next

-- A text that needs no quotes.
abbrev pub IsPlain : Text → Type 0
IsPlain = All (λ c. is_plain c ≡ true)

plain-ne : (c d : ℕ) → is_plain c ≡ true → is_plain d ≡ false → (c == d) ≡ false
plain-ne c d h h' = elim (Bool-cases (c == d)) [
  | inl e ↦ let same : c ≡ d = (==_iff c d).0 e in cc
  | inr e ↦ e
]

plain_blank : is_plain b' ' ≡ false
unfolding is_plain
plain_blank = refl

plain_quote : is_plain b'\'' ≡ false
unfolding is_plain
plain_quote = refl

plain_backslash : is_plain b'\\' ≡ false
unfolding is_plain
plain_backslash = refl

take_unit-plain :
    (w : Text) (c : ℕ)
    → is_plain c ≡ true
    → take_unit (in_word w) c ≡ some ([], in_word (w ++ c ∷ []))
unfolding take_unit
take_unit-plain w c h =
    rw
      (
        plain-ne c b' ' h plain_blank,
        plain-ne c b'\'' h plain_quote,
        plain-ne c b'\\' h plain_backslash,
        h,
      )
      refl

take_unit-opening : (c : ℕ) → is_plain c ≡ true → take_unit between c ≡ some ([], in_word (c ∷ []))
unfolding take_unit
take_unit-opening c h =
    rw
      (
        plain-ne c b' ' h plain_blank,
        plain-ne c b'\'' h plain_quote,
        plain-ne c b'\\' h plain_backslash,
        h,
      )
      refl

shell_words-take_unit :
    (p q : Place) (c : ℕ) (t : Text)
    → take_unit p c ≡ some ([], q)
    → shell_words p (c ∷ t) ≡ shell_words q t
unfolding shell_words
shell_words-take_unit p q c t e =
    ap
      (λ o. elim o as (λ _. Option (List Text)) [
        | none ↦ none
        | some (ws, r) ↦ in_front ws (shell_words r t)
      ])
      e
    ∙ in_front-nil (shell_words q t)

shell_words-plain :
    (w p behind : Text)
    → IsPlain p
    → shell_words (in_word w) (p ++ behind) ≡ shell_words (in_word (w ++ p)) behind
shell_words-plain w [] behind h = rw (append-nil) refl
shell_words-plain w (c ∷ p) behind (h, hs) =
    shell_words-take_unit (in_word w) (in_word (w ++ c ∷ [])) c (p ++ behind)
      (take_unit-plain w c h)
    ∙ shell_words-plain (w ++ c ∷ []) p behind hs
    ∙ ap (λ v. shell_words (in_word v) behind) (append_assoc w (c ∷ []) p)

-- A word without quotes, and a blank behind it.
pub shell_words-plain_word :
    (c : ℕ) (p behind : Text)
    → IsPlain (c ∷ p)
    → shell_words between ((c ∷ p) ++ b' ' ∷ behind)
      ≡ in_front ((c ∷ p) ∷ []) (shell_words between behind)
unfolding shell_words take_unit
shell_words-plain_word c p behind (h, hs) =
    shell_words-take_unit between (in_word (c ∷ [])) c (p ++ b' ' ∷ behind) (take_unit-opening c h)
    ∙ shell_words-plain (c ∷ []) p (b' ' ∷ behind) hs
