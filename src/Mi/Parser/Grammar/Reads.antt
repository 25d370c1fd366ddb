-- ===== src/Mi/Parser/Grammar/Reads.antt =====
-- The recursive descent reads every sentence of the grammar as the value that it denotes.
use vscode_cann_debugger.Base.{
  ℕ, zero, suc, ◌+◌, ◌*◌, ◌≤◌, ◌<◌, List, true, false, [], ◌∷◌, ◌++◌, append_assoc, append-nil,
  subst, ◌≡◌, refl, ap, arith, Text, length,
}
use vscode_cann_debugger.Mi.Value.{
  MiValue, MiTuple, MiValues, tuple, arr, no_fields, field, no_items, item, add_result, push,
}
use vscode_cann_debugger.Mi.Result.{Result, ok}
use vscode_cann_debugger.Mi.CString.{expect}
use vscode_cann_debugger.Mi.CString.Spelling.{Piece, Spells, parse_cstring-spell_all}
use vscode_cann_debugger.Mi.Parser.{
  peeks, advance, parse_variable, equals_ahead, is_result_ahead, parse_value, parse_result,
  parse_fields, parse_items, parse_item,
}
use vscode_cann_debugger.Mi.Parser.Grammar.{
  IsName, Sentence, Results, Values, const, empty_tuple, tuple_of, empty_list, list_of_values,
  list_of_results, last_result, result, last_value, value, emit, emit_results, emit_values, denote,
  denote_fields, denote_results, denote_values, lengths,
}

parse_variable-IsName : (k ts : Text) → IsName k → parse_variable (k ++ b'=' ∷ ts) ≡ (k, b'=' ∷ ts)
unfolding parse_variable
parse_variable-IsName [] ts h = refl
parse_variable-IsName (c ∷ k) ts h = ground (arith, parse_variable-IsName k ts h.1)

equals_ahead-IsName : (k ts : Text) → IsName k → equals_ahead (k ++ b'=' ∷ ts) ≡ true
unfolding equals_ahead
equals_ahead-IsName [] ts h = refl
equals_ahead-IsName (c ∷ k) ts h = ground (arith, equals_ahead-IsName k ts h.1)

is_result_ahead-IsName : (k ts : Text) → IsName k → is_result_ahead (k ++ b'=' ∷ ts) ≡ true
unfolding is_result_ahead peeks
is_result_ahead-IsName [] ts h = rw (equals_ahead-IsName [] ts tt)
is_result_ahead-IsName (c ∷ k) ts h = ground (arith, equals_ahead-IsName (c ∷ k) ts h)

is_result_ahead-emit : (v : Sentence) (ts : Text) → is_result_ahead (emit v ++ ts) ≡ false
unfolding is_result_ahead peeks emit
is_result_ahead-emit empty_tuple ts = refl
is_result_ahead-emit _ ts = refl

-- No name and no printed value begins with a closing bracket.
peeks-results :
    (k ts : Text)
    → IsName k
    → (peeks b'}' (k ++ b'=' ∷ ts) ≡ false) × (peeks b']' (k ++ b'=' ∷ ts) ≡ false)
unfolding peeks
peeks-results [] ts h = (refl, refl)
peeks-results (c ∷ k) ts h = ground arith

peeks-emit : (v : Sentence) (ts : Text) → peeks b']' (emit v ++ ts) ≡ false
unfolding peeks emit
peeks-emit empty_tuple ts = refl
peeks-emit _ ts = refl

-- With fuel above `bound`, `p` returns `r`.
abbrev pub Reads {ℓ} : {A : Type ℓ} → (ℕ → Result A) → ℕ → A → Type ℓ
Reads p bound r = (f : ℕ) → bound < f → p f ≡ ok r

-- Each method, from what the methods that it calls read.
module _ {k : Text} {v : MiValue} {rest : Text} (b : ℕ) where
  read_result :
      (ts : Text)
      → IsName k
      → Reads (λ f. parse_value f ts) b (v, rest)
      → Reads (λ f. parse_result f (k ++ b'=' ∷ ts)) (b + 1) (k, v, rest)
  unfolding parse_result expect
  read_result ts h r zero l = absurd (omega arith)
  read_result ts h r (suc f) l = rw (parse_variable-IsName k ts h) (rw (r f (omega arith)))

  item_keyed :
      (ts : Text)
      → is_result_ahead ts ≡ true
      → Reads (λ f. parse_result f ts) b (k, v, rest)
      → Reads (λ f. parse_item f ts) (b + 1) (tuple (field k v no_fields), rest)
  unfolding parse_item
  item_keyed ts a r zero l = absurd (omega arith)
  item_keyed ts a r (suc f) l = rw (a, r f (omega arith))

  fields_last :
      (ts : Text) (out : MiTuple)
      → Reads (λ f. parse_result f ts) b (k, v, b'}' ∷ rest)
      → Reads (λ f. parse_fields f out ts) (b + 1) (add_result out k v, rest)
  unfolding parse_fields expect peeks
  fields_last ts out r zero l = absurd (omega arith)
  fields_last ts out r (suc f) l = rw (r f (omega arith))

  fields_more :
      (ts : Text) (out t : MiTuple) (left : Text)
      → Reads (λ f. parse_result f ts) b (k, v, b',' ∷ left)
      → Reads (λ f. parse_fields f (add_result out k v) left) b (t, rest)
      → Reads (λ f. parse_fields f out ts) (b + 1) (t, rest)
  unfolding parse_fields peeks advance
  fields_more ts out t left r m zero l = absurd (omega arith)
  fields_more ts out t left r m (suc f) l = rw (r f (omega arith)) (m f (omega arith))

module _ {v : MiValue} {rest : Text} (b : ℕ) where
  item_plain :
      (ts : Text)
      → is_result_ahead ts ≡ false
      → Reads (λ f. parse_value f ts) b (v, rest)
      → Reads (λ f. parse_item f ts) (b + 1) (v, rest)
  unfolding parse_item
  item_plain ts a r zero l = absurd (omega arith)
  item_plain ts a r (suc f) l = rw (a, r f (omega arith))

  items_last :
      (ts : Text) (out : MiValues)
      → Reads (λ f. parse_item f ts) b (v, b']' ∷ rest)
      → Reads (λ f. parse_items f out ts) (b + 1) (push out v, rest)
  unfolding parse_items expect peeks
  items_last ts out r zero l = absurd (omega arith)
  items_last ts out r (suc f) l = rw (r f (omega arith))

  items_more :
      (ts : Text) (out xs : MiValues) (left : Text)
      → Reads (λ f. parse_item f ts) b (v, b',' ∷ left)
      → Reads (λ f. parse_items f (push out v) left) b (xs, rest)
      → Reads (λ f. parse_items f out ts) (b + 1) (xs, rest)
  unfolding parse_items peeks advance
  items_more ts out xs left r m zero l = absurd (omega arith)
  items_more ts out xs left r m (suc f) l = rw (r f (omega arith)) (m f (omega arith))

module _ {rest : Text} (b : ℕ) where
  value_tuple :
      (ts : Text) {t : MiTuple}
      → peeks b'}' ts ≡ false
      → Reads (λ f. parse_fields f no_fields ts) b (t, rest)
      → Reads (λ f. parse_value f (b'{' ∷ ts)) (b + 2) (tuple t, rest)
  unfolding parse_value expect peeks
  value_tuple ts p r zero l = absurd (omega arith)
  value_tuple ts p r (suc zero) l = absurd (omega arith)
  value_tuple ts p r (suc (suc f)) l = rw (p, r f (omega arith))

  value_list :
      (ts : Text) {xs : MiValues}
      → peeks b']' ts ≡ false
      → Reads (λ f. parse_items f no_items ts) b (xs, rest)
      → Reads (λ f. parse_value f (b'[' ∷ ts)) (b + 2) (arr xs, rest)
  unfolding parse_value expect peeks
  value_list ts p r zero l = absurd (omega arith)
  value_list ts p r (suc zero) l = absurd (omega arith)
  value_list ts p r (suc (suc f)) l = rw (p, r f (omega arith))

append_values : MiValues → MiValues → MiValues
append_values no_items ys = ys
append_values (item x xs) ys = item x (append_values xs ys)

push-append_values : (xs : MiValues) (v : MiValue) → push xs v ≡ append_values xs (item v no_items)
unfolding push append_values
push-append_values no_items v = refl
push-append_values (item x xs) v = ap (item x) (push-append_values xs v)

append_values-push :
    (xs ys : MiValues) (v : MiValue) → append_values (push xs v) ys ≡ append_values xs (item v ys)
unfolding push append_values
append_values-push no_items ys v = refl
append_values-push (item x xs) ys v = ap (item x) (append_values-push xs ys v)

weaken {ℓ} : {A : Type ℓ} {p : ℕ → Result A} {r : A} (b c : ℕ) → Reads p b r → b ≤ c → Reads p c r
weaken b c r h f l = r f (omega arith)

value_const :
    (ps : List Piece) (h : Spells ps) (rest : Text)
    → Reads (λ f. parse_value f (emit (const ps h) ++ rest)) 0 (denote (const ps h), rest)
unfolding parse_value peeks emit denote
value_const ps h rest zero l = absurd (omega arith)
value_const ps h rest (suc f) l = rw append_assoc (rw (parse_cstring-spell_all ps rest h))

value_empty_tuple :
    (rest : Text) → Reads (λ f. parse_value f (b'{' ∷ b'}' ∷ rest)) 1 (tuple no_fields, rest)
unfolding parse_value peeks expect advance
value_empty_tuple rest zero l = absurd (omega arith)
value_empty_tuple rest (suc zero) l = absurd (omega arith)
value_empty_tuple rest (suc (suc f)) l = refl

value_empty_list :
    (rest : Text) → Reads (λ f. parse_value f (b'[' ∷ b']' ∷ rest)) 1 (arr no_items, rest)
unfolding parse_value peeks expect advance
value_empty_list rest zero l = absurd (omega arith)
value_empty_list rest (suc zero) l = absurd (omega arith)
value_empty_list rest (suc (suc f)) l = refl

peeks-emit_results :
    (rs : Results) (ts : Text)
    → (peeks b'}' (emit_results rs ++ ts) ≡ false) × (peeks b']' (emit_results rs ++ ts) ≡ false)
unfolding emit
peeks-emit_results (last_result k h v) ts = rw append_assoc (peeks-results k (emit v ++ ts) h)
peeks-emit_results (result k h v rs) ts =
    rw append_assoc (peeks-results k ((emit v ++ b',' ∷ emit_results rs) ++ ts) h)

peeks-emit_values : (vs : Values) (ts : Text) → peeks b']' (emit_values vs ++ ts) ≡ false
unfolding emit
peeks-emit_values (last_value v) ts = peeks-emit v ts
peeks-emit_values (value v vs) ts = rw append_assoc (peeks-emit v _)

-- Four units of fuel for each character are enough, with a few for the calls at the front.
mutual
  unfolding emit denote append_values

  read_value :
      (v : Sentence) (rest : Text)
      → Reads (λ f. parse_value f (emit v ++ rest)) (4 * length (emit v) + 1) (denote v, rest)
  read_value (const ps h) rest f l = value_const ps h rest f (omega arith)
  read_value empty_tuple rest f l = value_empty_tuple rest f (omega arith)
  read_value (tuple_of rs) rest f l = rw append_assoc (
      value_tuple _ _ ((peeks-emit_results rs _).0) (read_fields rs no_fields rest) f
        (omega lengths))
  read_value empty_list rest f l = value_empty_list rest f (omega arith)
  read_value (list_of_values vs) rest f l =
      rw append_assoc
        (value_list _ _ (peeks-emit_values vs _) (read_values vs no_items rest) f (omega lengths))
  read_value (list_of_results rs) rest f l = rw append_assoc (
      value_list _ _ ((peeks-emit_results rs _).1) (read_results rs no_items rest) f
        (omega lengths))

  read_fields :
      (rs : Results) (out : MiTuple) (rest : Text)
      → Reads
          (λ f. parse_fields f out (emit_results rs ++ b'}' ∷ rest))
          (4 * length (emit_results rs) + 2)
          (denote_fields rs out, rest)
  read_fields (last_result k h v) out rest f l =
      rw append_assoc
        (fields_last _ _ out (read_result _ _ h (read_value v (b'}' ∷ rest))) f (omega lengths))
  read_fields (result k h v rs) out rest f l =
      let left = emit_results rs ++ b'}' ∷ rest in
      let bound = 4 * length (emit_results (result k h v rs)) + 1 in
      rw (append_assoc, append_assoc)
        (fields_more bound _ out _ left
          (weaken _ bound (read_result _ _ h (read_value v (b',' ∷ left))) (omega lengths))
          (weaken _ bound (read_fields rs (add_result out k (denote v)) rest) (omega lengths)) f
          (omega arith))

  read_results :
      (rs : Results) (out : MiValues) (rest : Text)
      → Reads
          (λ f. parse_items f out (emit_results rs ++ b']' ∷ rest))
          (4 * length (emit_results rs) + 3)
          (append_values out (denote_results rs), rest)
  read_results (last_result k h v) out rest f l =
      rw (append_assoc, ← push-append_values)
        (items_last _ _ out
          (item_keyed _ _ (is_result_ahead-IsName k _ h)
            (read_result _ _ h (read_value v (b']' ∷ rest))))
          f (omega lengths))
  read_results (result k h v rs) out rest f l =
      let left = emit_results rs ++ b']' ∷ rest in
      let bound = 4 * length (emit_results (result k h v rs)) + 2 in
      rw (append_assoc, append_assoc, ← append_values-push)
        (items_more bound _ out _ left
          (weaken _ bound
            (item_keyed _ _ (is_result_ahead-IsName k _ h)
              (read_result _ _ h (read_value v (b',' ∷ left))))
            (omega lengths))
          (weaken _ bound (read_results rs (push out (tuple (field k (denote v) no_fields))) rest)
            (omega lengths))
          f (omega arith))

  read_values :
      (vs : Values) (out : MiValues) (rest : Text)
      → Reads
          (λ f. parse_items f out (emit_values vs ++ b']' ∷ rest))
          (4 * length (emit_values vs) + 3)
          (append_values out (denote_values vs), rest)
  read_values (last_value v) out rest f l = rw (← push-append_values) (
      items_last _ _ out (item_plain _ _ (is_result_ahead-emit v _) (read_value v (b']' ∷ rest))) f
        (omega arith))
  read_values (value v vs) out rest f l =
      let left = emit_values vs ++ b']' ∷ rest in
      let bound = 4 * length (emit_values (value v vs)) + 2 in
      rw (append_assoc, ← append_values-push)
        (items_more bound _ out _ left
          (weaken _ bound (item_plain _ _ (is_result_ahead-emit v _) (read_value v (b',' ∷ left)))
            (omega lengths))
          (weaken _ bound (read_values vs (push out (denote v)) rest) (omega lengths)) f
          (omega arith))

-- `parseResult` reads a variable and its value, in front of any rest.
pub read_sentence :
    (k : Text) (h : IsName k) (v : Sentence) (rest : Text)
    → Reads
        (λ f. parse_result f (k ++ b'=' ∷ (emit v ++ rest)))
        (4 * length (emit v) + 2)
        (k, denote v, rest)
read_sentence k h v rest f l = read_result _ _ h (read_value v rest) f (omega arith)

pub read_last_sentence :
    (k : Text) (h : IsName k) (v : Sentence)
    → Reads (λ f. parse_result f (k ++ b'=' ∷ emit v)) (4 * length (emit v) + 2) (k, denote v, [])
read_last_sentence k h v f l =
    subst (λ t. parse_result f (k ++ b'=' ∷ t) ≡ ok (k, denote v, [])) (append-nil (emit v))
      (read_sentence k h v [] f l)
