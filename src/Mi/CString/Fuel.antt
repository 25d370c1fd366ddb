-- ===== src/Mi/CString/Fuel.antt =====
-- The loop of `parseCString` ends: the fuel it is given is enough for every input.
use vscode_cann_debugger.Base.{
  ℕ, zero, suc, ◌+◌, ◌*◌, ◌≤◌, ◌<◌, [], ◌∷◌, ◌++◌, ◌≡◌, refl, arith, Text, Option, none, some,
  Option-cases, Bool-cases, inl, inr, length, ◌==◌,
}
use vscode_cann_debugger.Mi.Result.{ok}
use vscode_cann_debugger.Mi.CString.{
  digits, hex_digit, octal_digit, letter_escape, octal_escape, numeric_escape, unescape,
  cstring_loop,
}

digits-shorter :
    (digit : ℕ → Option ℕ) (radix n acc : ℕ) (ts : Text)
    → length ((digits digit radix n acc ts).2) ≤ length ts
unfolding digits
digits-shorter digit radix zero acc ts = omega arith
digits-shorter digit radix (suc n) acc [] = omega arith
digits-shorter digit radix (suc n) acc (c ∷ ts) = elim (Option-cases (digit c)) [
  | inl e ↦ ground arith
  | inr (d, e) ↦ ground (arith, digits-shorter digit radix n (acc * radix + d) ts)
]

octal_escape-shorter :
    (o : Option ℕ) (e : ℕ) (rest : Text) → length ((octal_escape o e rest).1) ≤ length rest
unfolding octal_escape
octal_escape-shorter (some d) e rest = digits-shorter octal_digit 8 2 d rest
octal_escape-shorter none e rest = omega arith

numeric_escape-shorter :
    (o : Option ℕ) (e : ℕ) (rest : Text) → length ((numeric_escape o e rest).1) ≤ length rest
unfolding numeric_escape
numeric_escape-shorter (some c) e rest = omega arith
numeric_escape-shorter none e rest = elim (Bool-cases (e == b'x')) [
  | inl x ↦ rw (x, length) (digits-shorter hex_digit 16 2 0 rest)
  | inr o ↦ rw (o, length) (octal_escape-shorter (octal_digit e) e rest)
]

-- An escape leaves no more than what stood behind its letter.
pub unescape-shorter : (e : ℕ) (rest : Text) → length ((unescape e rest).1) ≤ length rest
unfolding unescape
unescape-shorter e rest = numeric_escape-shorter (letter_escape e) e rest

-- With fuel above the length the loop returns, and what it leaves is no longer than its input.
pub cstring_loop_total :
    (f : ℕ) (out ts : Text)
    → length ts < f
    → (t left : Text) × (cstring_loop f out ts ≡ ok (t, left)) × (length left ≤ length ts)
unfolding cstring_loop
cstring_loop_total zero out ts h = absurd (omega arith)
cstring_loop_total (suc f) out [] h = (out, [], refl, omega arith)
cstring_loop_total (suc f) out (c ∷ []) h = elim (Bool-cases (c == b'"')) [
  | inl q ↦ (out, [], ground arith, omega arith)
  | inr q ↦ elim (Bool-cases (c == b'\\')) [
    | inl b ↦ (out, [], ground arith, omega arith)
    | inr b ↦
        let (t, left, e, l) = cstring_loop_total f (out ++ c ∷ []) [] (omega arith) in
        (t, left, ground arith, omega arith)
  ]
]
cstring_loop_total (suc f) out (c ∷ e ∷ rest) h = elim (Bool-cases (c == b'"')) [
  | inl q ↦ (out, e ∷ rest, ground arith, omega arith)
  | inr q ↦ elim (Bool-cases (c == b'\\')) [
    | inl b ↦
        let s = unescape-shorter e rest in
        let u = unescape e rest in
        let (t, left, eq, l) = cstring_loop_total f (out ++ u.0 ∷ []) u.1 (omega (arith, s)) in
        (t, left, ground arith, omega (arith, s))
    | inr b ↦
        let (t, left, eq, l) = cstring_loop_total f (out ++ c ∷ []) (e ∷ rest) (omega arith) in
        (t, left, ground arith, omega arith)
  ]
]
