-- ===== src/Registers/Binding.antt =====
-- The answer to `info address`: `parseRegisterBinding` of src/registers.ts. Behind each of the
-- pattern's repetitions stands a character that the repetition does not take, so the greedy
-- reading below is the only one and there is nothing to go back to.
use vscode_cann_debugger.Base.{
  ℕ, Bool, true, false, ◌&&◌, ◌||◌, Option, none, some, [], ◌∷◌, ◌++◌, Text, codes, is_space,
  is_digit, leb, ◌==◌, if◌then◌else◌, All, ◌≡◌, refl, ap,
}

pub record RegisterBinding : Type 0 where
  pub symbol : Text
  pub register : Text

infixl 5 ◌>>=◌
abbrev ◌>>=◌ {ℓ κ} : {A : Type ℓ} {B : Type κ} → Option A → (A → Option B) → Option B
none >>= f = none
some a >>= f = f a

-- A word of the pattern.
literal : Text → Text → Option Text
literal [] t = some t
literal (w ∷ ws) [] = none
literal (w ∷ ws) (c ∷ t) = let behind = literal ws t in if c == w then behind else none

skip_spaces : Text → Text
skip_spaces [] = []
skip_spaces (c ∷ t) = let behind = skip_spaces t in if is_space c then behind else c ∷ t

-- `\s+`.
spaces : Text → Option Text
unfolding skip_spaces
spaces [] = none
spaces (c ∷ t) = if is_space c then some (skip_spaces t) else none

-- `[^"]*"`: the text up to the quote, and what stands behind it.
up_to_quote : Text → Option (Text × Text)
up_to_quote [] = none
up_to_quote (c ∷ t) =
    let more = up_to_quote t >>= λ (s, behind). some (c ∷ s, behind) in
    if c == b'"' then some ([], t) else more

non_empty : Text × Text → Option (Text × Text)
non_empty ([], behind) = none
non_empty (c ∷ s, behind) = some (c ∷ s, behind)

abbrev pub is_letter : ℕ → Bool
is_letter c = leb b'a' c && leb c b'z' || leb b'A' c && leb c b'Z' || c == b'_'

-- `\w`.
abbrev pub is_word : ℕ → Bool
is_word c = is_letter c || is_digit c

word_span : Text → Text
word_span [] = []
word_span (c ∷ t) = let more = word_span t in if is_word c then c ∷ more else []

-- `[A-Za-z_]\w*`.
identifier : Text → Option Text
unfolding word_span
identifier [] = none
identifier (c ∷ t) = if is_letter c then some (c ∷ word_span t) else none

otherwise : Text → Option Text → Text
otherwise t none = t
otherwise t (some behind) = behind

-- `(?:a\s+variable\s+)?`.
a_variable : Text → Text
unfolding literal spaces otherwise
a_variable t = otherwise t (
    literal (codes "a") t >>= λ t. spaces t >>= λ t. literal (codes "variable") t >>= λ t. spaces t)

-- The pattern at one place of the text.
binding_at : Text → Option RegisterBinding
unfolding literal spaces up_to_quote non_empty a_variable otherwise identifier
binding_at t = literal (codes "Symbol") t >>= λ t. spaces t >>= λ t. literal (codes "\"") t >>= λ t.
    up_to_quote t >>= λ p. non_empty p >>= λ (symbol, t). spaces t >>= λ t.
    literal (codes "is") t >>= λ t. spaces t >>= λ t. literal (codes "in") (a_variable t) >>= λ t.
    spaces t >>= λ t. literal (codes "register") t >>= λ t. spaces t >>= λ t.
    identifier (otherwise t (literal (codes "$") t)) >>= λ register.
    some (record { symbol = symbol; register = register })

first_of : Option RegisterBinding → Option RegisterBinding → Option RegisterBinding
first_of none later = later
first_of (some b) later = some b

-- `exec` tries the places of the text from the left.
unfoldable pub parse_register_binding : Text → Option RegisterBinding
unfolding binding_at first_of
parse_register_binding [] = none
parse_register_binding (c ∷ t) = first_of (binding_at (c ∷ t)) (parse_register_binding t)

up_to_quote-quote :
    (s behind : Text)
    → All (λ c. (c == b'"') ≡ false) s
    → up_to_quote (s ++ b'"' ∷ behind) ≡ some (s, behind)
unfolding up_to_quote
up_to_quote-quote [] behind h = refl
up_to_quote-quote (c ∷ s) behind (h, hs) = rw (up_to_quote-quote s behind hs, h) refl

-- What may stand behind the register's name: nothing, or a unit that no name holds.
pub data IsBehind : Text → Type 0 where
  ends : IsBehind []
  stops : {c : ℕ} {t : Text} → is_word c ≡ false → IsBehind (c ∷ t)

word_span-append :
    (r behind : Text)
    → All (λ c. is_word c ≡ true) r
    → IsBehind behind
    → word_span (r ++ behind) ≡ r
unfolding word_span
word_span-append [] behind h ends = refl
word_span-append [] behind h (stops e) = rw (e) refl
word_span-append (c ∷ r) behind (h, hs) b = rw (word_span-append r behind hs b, h) refl

-- GDB's answer for a variable that lives in a register, `a variable` said or not.
abbrev pub answer : Bool → Text → Text → Text → Text
answer said symbol register behind =
    codes "Symbol \""
    ++ (symbol
        ++ b'"'
          ∷ ((if said then codes " is a variable in register $" else codes " is in register $")
              ++ (register ++ behind)))

identifier-append :
    (c : ℕ) (r behind : Text)
    → is_letter c ≡ true
    → All (λ c. is_word c ≡ true) r
    → IsBehind behind
    → identifier ((c ∷ r) ++ behind) ≡ some (c ∷ r)
unfolding identifier
identifier-append c r behind h hs b = rw (h, word_span-append r behind hs b) refl

-- What `binding_at` does behind the symbol's quote.
binding_at-answer :
    (said : Bool) (d : ℕ) (s : Text) (c : ℕ) (r behind : Text)
    → All (λ c. (c == b'"') ≡ false) (d ∷ s)
    → is_letter c ≡ true
    → All (λ c. is_word c ≡ true) r
    → IsBehind behind
    → binding_at (answer said (d ∷ s) (c ∷ r) behind)
      ≡ some (record { symbol = d ∷ s; register = c ∷ r })
unfolding binding_at literal spaces skip_spaces non_empty a_variable otherwise is_space
binding_at-answer true d s c r behind hs h hr b =
    rw
      (
        up_to_quote-quote (d ∷ s) (codes " is a variable in register $" ++ ((c ∷ r) ++ behind)) hs,
        identifier-append c r behind h hr b,
      )
      refl
binding_at-answer false d s c r behind hs h hr b =
    rw
      (
        up_to_quote-quote (d ∷ s) (codes " is in register $" ++ ((c ∷ r) ++ behind)) hs,
        identifier-append c r behind h hr b,
      )
      refl

found_first :
    (c : ℕ) (t : Text) {b : RegisterBinding}
    → binding_at (c ∷ t) ≡ some b
    → parse_register_binding (c ∷ t) ≡ some b
unfolding parse_register_binding first_of
found_first c t e = ap (λ o. first_of o (parse_register_binding t)) e

-- An answer that places a variable in a register binds exactly that symbol to exactly that
-- register, with whatever text behind that does not go on the name. The symbol is not empty and
-- holds no quote, the register starts with a letter or underscore and goes on with word
-- characters.
parse_register_binding-answer :
    (said : Bool) (d : ℕ) (s : Text) (c : ℕ) (r behind : Text)
    → All (λ c. (c == b'"') ≡ false) (d ∷ s)
    → is_letter c ≡ true
    → All (λ c. is_word c ≡ true) r
    → IsBehind behind
    → parse_register_binding (answer said (d ∷ s) (c ∷ r) behind)
      ≡ some (record { symbol = d ∷ s; register = c ∷ r })
parse_register_binding-answer said d s c r behind hs h hr b =
    found_first b'S' _ (binding_at-answer said d s c r behind hs h hr b)
