-- ===== src/Launch/Shell/Last.antt =====
-- The last command of a shell script: the text behind the last `;` outside of quotes, by the rules of
-- the POSIX shell on quoting, as a specification of `buildGuestScript` of src/wslLauncher.ts.
use vscode_cann_debugger.Base.{
  ℕ, false, All, List, [], ◌∷◌, ◌++◌, append_assoc, append-nil, Option, none, some, Text, codes,
  ◌==◌, ==_iff, if◌then◌else◌, ◌≡◌, ◌≢◌, refl, sym, ap, ◌∙◌, Bool-cases, inl, inr, arith,
}
use vscode_cann_debugger.Mi.CString.{replace_unit}
use vscode_cann_debugger.Launch.Shell.Words.{is_plain, IsPlain}
use vscode_cann_debugger.Launch.Shell.{sh_quote, join, quote_all}

pub data Quoting : Type 0 where
  outside escaped single double double_escaped : Quoting

unfoldable pub after : Quoting → ℕ → Quoting
after outside c =
    if c == b'\''
    then single
    else if c == b'"'
    then double
    else if c == b'\\'
    then escaped
    else outside
after escaped c = outside
after single c = if c == b'\'' then outside else single
after double c = if c == b'"' then outside else if c == b'\\' then double_escaped else double
after double_escaped c = double

-- The command read so far; a separator starts the next one.
unfoldable pub grown : Quoting → Text → ℕ → Text
grown outside w c = if c == b';' then [] else w ++ c ∷ []
grown _ w c = w ++ c ∷ []

abbrev closed : Quoting → Text → Option Text
closed outside w = some w
closed _ w = none

-- Read on from a place with the command so far; `none` where a quote is open at the end.
unfoldable pub last_command : Quoting → Text → Text → Option Text
unfolding after grown
last_command q w [] = closed q w
last_command q w (c ∷ t) = last_command (after q c) (grown q w c) t

-- One character that leads to a place and is part of the command.
last_command-step :
    (q r : Quoting) (w : Text) (c : ℕ) (t : Text)
    → after q c ≡ r
    → grown q w c ≡ w ++ c ∷ []
    → last_command q w (c ∷ t) ≡ last_command r (w ++ c ∷ []) t
unfolding last_command
last_command-step q r w c t e g = cc

-- A text that leads from a place to a place.
abbrev pub Leads : Quoting → Quoting → Text → Type 0
Leads q q' t =
    (w rest : Text) → (w' : Text) × (last_command q w (t ++ rest) ≡ last_command q' w' rest)

pub Leads-append : (q r s : Quoting) (a b : Text) → Leads q r a → Leads r s b → Leads q s (a ++ b)
Leads-append q r s a b h k w rest =
    let (v, e) = h w (b ++ rest) in
    let (u, e') = k v rest in (u, ap (last_command q w) (append_assoc a b rest) ∙ e ∙ e')

-- A text that is a part of one command.
abbrev pub Keeps : Text → Type 0
Keeps t = (w rest : Text) → last_command outside w (t ++ rest) ≡ last_command outside (w ++ t) rest

Keeps-append : (a b : Text) → Keeps a → Keeps b → Keeps (a ++ b)
Keeps-append a b h k w rest =
    ap (last_command outside w) (append_assoc a b rest)
    ∙ h w (b ++ rest)
    ∙ k (w ++ a) rest
    ∙ ap (λ t. last_command outside t rest) (append_assoc w a b)

regrouped :
    (w : Text)
    → (((w ++ b'\'' ∷ []) ++ b'\\' ∷ []) ++ b'\'' ∷ []) ++ b'\'' ∷ [] ≡ w ++ codes "'\\''"
regrouped w = simp (append_assoc)

single-quoted :
    (value w rest : Text)
    → last_command single w ((replace_unit b'\'' (codes "'\\''") value ++ b'\'' ∷ []) ++ rest)
      ≡ last_command outside (w ++ (replace_unit b'\'' (codes "'\\''") value ++ b'\'' ∷ [])) rest
unfolding last_command replace_unit after grown
single-quoted [] w rest = refl
single-quoted (c ∷ value) w rest =
    let behind = (replace_unit b'\'' (codes "'\\''") value ++ b'\'' ∷ []) ++ rest in
    elim (Bool-cases (c == b'\'')) [
      | inl h ↦
          let e : c ≡ b'\'' = (==_iff c b'\'').0 h in
          rw e (
            ap (λ t. last_command single t behind) (regrouped w)
            ∙ single-quoted value (w ++ codes "'\\''") rest
            ∙ ap (λ t. last_command outside t rest) (append_assoc w (codes "'\\''") _))
      | inr h ↦ rw h (
          last_command-step single single w c behind (rw h refl) refl
          ∙ single-quoted value (w ++ c ∷ []) rest
          ∙ ap (λ t. last_command outside t rest) (append_assoc w (c ∷ []) _))
    ]

sh_quote-Keeps : (value : Text) → Keeps (sh_quote value)
unfolding last_command sh_quote
sh_quote-Keeps value w rest =
    single-quoted value (w ++ b'\'' ∷ []) rest
    ∙ ap (λ t. last_command outside t rest) (append_assoc w (b'\'' ∷ []) _)

pub sh_quote-Leads : (value : Text) → Leads outside outside (sh_quote value)
sh_quote-Leads value w rest = (w ++ sh_quote value, sh_quote-Keeps value w rest)

pub plain-Leads : (t : Text) → IsPlain t → Leads outside outside t
unfolding after grown is_plain
plain-Leads [] h w rest = (w, refl)
plain-Leads (c ∷ t) (h, hs) w rest =
    let (v, e) = plain-Leads t hs (w ++ c ∷ []) rest in
    (
      v,
      last_command-step outside outside w c (t ++ rest) (ground (arith, h)) (ground (arith, h)) ∙ e,
    )

-- A text that is in double quotes as it is, with nothing that the shell expands there.
abbrev pub IsBland : Text → Type 0
IsBland = All (λ c. All (λ d. c ≢ d) (codes "\"\\$`"))

bland-Leads : (t : Text) → IsBland t → Leads double double t
unfolding last_command after grown
bland-Leads [] h w rest = (w, refl)
bland-Leads (c ∷ t) (h, hs) w rest =
    let (v, e) = bland-Leads t hs (w ++ c ∷ []) rest in
    let quote : (c == b'"') ≡ false = ground arith in
    let backslash : (c == b'\\') ≡ false = ground arith in
    (v, last_command-step double double w c (t ++ rest) (rw (quote, backslash) refl) refl ∙ e)

-- A command with a text in double quotes in it.
pub quoting-Leads :
    (front opening text closing : Text)
    → Leads outside outside front
    → Leads outside double opening
    → IsBland text
    → Leads double outside closing
    → Leads outside outside (front ++ opening ++ text ++ closing)
quoting-Leads front opening text closing h o b c =
    Leads-append outside double outside (front ++ opening ++ text) closing
      (Leads-append outside double double (front ++ opening) text
        (Leads-append outside outside double front opening h o) (bland-Leads text b))
      c

quote_all-Keeps : (argv : List Text) → Keeps (join (codes " ") (quote_all argv))
unfolding last_command join quote_all
quote_all-Keeps [] w rest = ap (λ t. last_command outside t rest) (sym (append-nil w))
quote_all-Keeps (v ∷ []) w rest = sh_quote-Keeps v w rest
quote_all-Keeps (v ∷ u ∷ argv) w rest =
    Keeps-append (sh_quote v) (codes " " ++ join (codes " ") (quote_all (u ∷ argv)))
      (sh_quote-Keeps v)
      (Keeps-append (codes " ") (join (codes " ") (quote_all (u ∷ argv))) (λ w rest. refl)
        (quote_all-Keeps (u ∷ argv)))
      w rest

pub exec-Keeps : (argv : List Text) → Keeps (codes "exec " ++ join (codes " ") (quote_all argv))
unfolding last_command
exec-Keeps argv =
    Keeps-append (codes "exec ") (join (codes " ") (quote_all argv))
      (λ w rest. ap (λ t. last_command outside t rest) (joined w)) (quote_all-Keeps argv)
  where
    joined :
        (w : Text)
        → ((((w ++ b'e' ∷ []) ++ b'x' ∷ []) ++ b'e' ∷ []) ++ b'c' ∷ []) ++ b' ' ∷ []
          ≡ w ++ codes "exec "
    joined w = simp (append_assoc)

-- The last of commands that are joined by separators.
separated :
    (q p behind w : Text)
    → Leads outside outside q
    → ((v : Text) → last_command outside v behind ≡ some (b' ' ∷ p))
    → last_command outside w (q ++ behind) ≡ some (b' ' ∷ p)
separated q p behind w h k = let (v, e) = h w behind in e ∙ k v

pub last_command-join :
    (front : List Text) (q p w : Text)
    → All (Leads outside outside) front
    → Leads outside outside q
    → Keeps p
    → last_command outside w (join (codes "; ") (front ++ q ∷ p ∷ [])) ≡ some (b' ' ∷ p)
unfolding last_command join
last_command-join [] q p w hs h k =
    separated q p (codes "; " ++ p) w h
      (λ v. ap (last_command outside (codes " ")) (sym (append-nil p)) ∙ k (codes " ") [])
last_command-join (r ∷ []) q p w (h', hs) h k =
    separated r p (codes "; " ++ join (codes "; ") (q ∷ p ∷ [])) w h'
      (λ v. last_command-join [] q p (codes " ") tt h k)
last_command-join (r ∷ s ∷ front) q p w (h', hs) h k =
    separated r p (codes "; " ++ join (codes "; ") ((s ∷ front) ++ q ∷ p ∷ [])) w h'
      (λ v. last_command-join (s ∷ front) q p (codes " ") hs h k)
