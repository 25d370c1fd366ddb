-- ===== src/Mi/Parser/Fuel.antt =====
-- The recursive descent ends: each method reads at least one character, so fuel of four units for
-- each character and a few more is enough, and `parseMiLine` never depends on it.
use mathlib.Core.Logic.{◌≢◌}
use vscode_cann_debugger.Base.{
  ℕ, zero, suc, true, ◌+◌, ◌*◌, ◌≤◌, ◌<◌, [], ◌∷◌, ◌≡◌, refl, arith, Text, length, ◌==◌, Bool-cases,
  inl, inr,
}
use vscode_cann_debugger.Mi.Value.{MiTuple, MiValues, no_fields, no_items}
use vscode_cann_debugger.Mi.Result.{
  out_of_fuel, Ensures, holds, threw, Ensures-if, Ensures-bind, Ensures-weaken,
  Ensures-ne-out_of_fuel,
}
use vscode_cann_debugger.Mi.CString.{Reading, expect, parse_cstring}
use vscode_cann_debugger.Mi.CString.Fuel.{cstring_loop_total}
use vscode_cann_debugger.Mi.Parser.{
  peeks, advance, parse_variable, is_result_ahead, parse_value, parse_result, parse_tuple,
  parse_fields, parse_list, parse_items, parse_item, result_list_loop, parse_result_list, enough,
}

-- A successful reading leaves less than it was given.
abbrev pub Shortens {ℓ} : {A : Type ℓ} → Text → Reading A → Type ℓ
Shortens ts r = Ensures (λ (_, rest). length rest < length ts) r

pub expect-Ensures : (ch : ℕ) (ts : Text) → Ensures (λ rest. ts ≡ ch ∷ rest) (expect ch ts)
unfolding expect
expect-Ensures ch [] = threw
expect-Ensures ch (c ∷ ts) = Ensures-if (c == ch) (λ e. holds (ground arith)) (λ e. threw)

expect-shorter :
    (ch : ℕ) (ts : Text) → Ensures (λ rest. length ts ≡ suc (length rest)) (expect ch ts)
unfolding expect
expect-shorter ch [] = threw
expect-shorter ch (c ∷ ts) = Ensures-if (c == ch) (λ e. holds refl) (λ e. threw)

parse_cstring-Shortens : (ts : Text) → Shortens ts (parse_cstring ts)
unfolding parse_cstring
parse_cstring-Shortens ts = Ensures-bind (expect-shorter b'"' ts) λ rest h.
    let (t, left, e, l) = cstring_loop_total (suc (length rest)) [] rest (omega arith) in
    rw e (holds (omega arith))

advance-shorter : (ts : Text) → length (advance ts) ≤ length ts
unfolding advance
advance-shorter [] = omega arith
advance-shorter (c ∷ ts) = omega arith

peeks-shorter : (ch : ℕ) (ts : Text) → peeks ch ts ≡ true → length (advance ts) < length ts
unfolding peeks advance
peeks-shorter ch [] h = cc
peeks-shorter ch (c ∷ ts) h = omega arith

parse_variable-shorter : (ts : Text) → length ((parse_variable ts).1) ≤ length ts
unfolding parse_variable
parse_variable-shorter [] = omega arith
parse_variable-shorter (c ∷ ts) = elim (Bool-cases (c == b'=')) [
  | inl e ↦ ground arith
  | inr n ↦ ground (arith, parse_variable-shorter ts)
]

mutual
  unfolding parse_value

  parse_value-Shortens :
      (f : ℕ) (ts : Text) → 4 * length ts + 1 < f → Shortens ts (parse_value f ts)
  parse_value-Shortens zero ts h = absurd (omega arith)
  parse_value-Shortens (suc f) ts h =
      Ensures-if (peeks b'"' ts) (λ _. Ensures-bind (parse_cstring-Shortens ts) λ _ l. holds l)
        (λ _.
          Ensures-if (peeks b'{' ts)
            (λ _. Ensures-bind (parse_tuple-Shortens f ts (omega arith)) λ _ l. holds l)
            (λ _.
              Ensures-if (peeks b'[' ts)
                (λ _. Ensures-bind (parse_list-Shortens f ts (omega arith)) λ _ l. holds l)
                (λ _. threw)))

  parse_result-Shortens :
      (f : ℕ) (ts : Text)
      → 4 * length ts < f
      → Ensures (λ (_, _, rest). length rest < length ts) (parse_result f ts)
  parse_result-Shortens zero ts h = absurd (omega arith)
  parse_result-Shortens (suc f) ts h =
      let v = parse_variable-shorter ts in
      Ensures-bind (expect-shorter b'=' ((parse_variable ts).1)) λ behind e.
        Ensures-bind (parse_value-Shortens f behind (omega (arith, v)))
          λ _ l. holds (omega (arith, v))

  parse_tuple-Shortens : (f : ℕ) (ts : Text) → 4 * length ts < f → Shortens ts (parse_tuple f ts)
  parse_tuple-Shortens zero ts h = absurd (omega arith)
  parse_tuple-Shortens (suc f) ts h = Ensures-bind (expect-shorter b'{' ts) λ rest e.
      Ensures-if (peeks b'}' rest)
        (λ p. holds {a = (no_fields, advance rest)} (omega (arith, advance-shorter rest)))
        (λ _.
          Ensures-weaken (parse_fields-Shortens f no_fields rest (omega arith))
            λ _ l. holds (omega arith))

  parse_fields-Shortens :
      (f : ℕ) (out : MiTuple) (ts : Text)
      → 4 * length ts + 1 < f
      → Shortens ts (parse_fields f out ts)
  parse_fields-Shortens zero out ts h = absurd (omega arith)
  parse_fields-Shortens (suc f) out ts h =
      Ensures-bind (parse_result-Shortens f ts (omega arith)) λ (key, value, rest) l.
        Ensures-if (peeks b',' rest)
          (λ p.
            let s = peeks-shorter b',' rest p in
            Ensures-weaken (parse_fields-Shortens f _ (advance rest) (omega arith))
              λ _ m. holds (omega arith))
          (λ _. Ensures-bind (expect-shorter b'}' rest) λ left e. holds (omega arith))

  parse_list-Shortens : (f : ℕ) (ts : Text) → 4 * length ts < f → Shortens ts (parse_list f ts)
  parse_list-Shortens zero ts h = absurd (omega arith)
  parse_list-Shortens (suc f) ts h = Ensures-bind (expect-shorter b'[' ts) λ rest e.
      Ensures-if (peeks b']' rest)
        (λ p. holds {a = (no_items, advance rest)} (omega (arith, advance-shorter rest)))
        (λ _.
          Ensures-weaken (parse_items-Shortens f no_items rest (omega arith))
            λ _ l. holds (omega arith))

  parse_items-Shortens :
      (f : ℕ) (out : MiValues) (ts : Text)
      → 4 * length ts + 3 < f
      → Shortens ts (parse_items f out ts)
  parse_items-Shortens zero out ts h = absurd (omega arith)
  parse_items-Shortens (suc f) out ts h =
      Ensures-bind (parse_item-Shortens f ts (omega arith)) λ (value, rest) l.
        Ensures-if (peeks b',' rest)
          (λ p.
            let s = peeks-shorter b',' rest p in
            Ensures-weaken (parse_items-Shortens f _ (advance rest) (omega arith))
              λ _ m. holds (omega arith))
          (λ _. Ensures-bind (expect-shorter b']' rest) λ left e. holds (omega arith))

  parse_item-Shortens : (f : ℕ) (ts : Text) → 4 * length ts + 2 < f → Shortens ts (parse_item f ts)
  parse_item-Shortens zero ts h = absurd (omega arith)
  parse_item-Shortens (suc f) ts h =
      Ensures-if (is_result_ahead ts)
        (λ _. Ensures-bind (parse_result-Shortens f ts (omega arith)) λ _ l. holds l)
        (λ _. parse_value-Shortens f ts (omega arith))

result_list_loop-Ensures :
    (f depth : ℕ) (out : MiTuple) (ts : Text)
    → length ts < f
    → 4 * length ts < depth
    → Ensures (λ _. Unit {0}) (result_list_loop f depth out ts)
unfolding result_list_loop
result_list_loop-Ensures zero depth out ts h d = absurd (omega arith)
result_list_loop-Ensures (suc f) depth out [] h d = holds tt
result_list_loop-Ensures (suc f) depth out (c ∷ ts) h d =
    Ensures-bind (parse_result-Shortens depth (c ∷ ts) d) λ (key, value, rest) l.
      let s = advance-shorter rest in
      Ensures-if (peeks b',' rest)
        (λ p. result_list_loop-Ensures f depth _ (advance rest) (omega arith) (omega arith))
        (λ _. holds tt)

-- Whatever the text, the fuel of `parseResultList` suffices: the model returns or throws, as the
-- program does.
pub parse_result_list-ne-out_of_fuel : (ts : Text) → parse_result_list ts ≢ out_of_fuel
unfolding parse_result_list
parse_result_list-ne-out_of_fuel ts = Ensures-ne-out_of_fuel (
    result_list_loop-Ensures (suc (length ts)) (enough ts) no_fields ts (omega arith) (omega arith))
