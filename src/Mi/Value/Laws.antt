-- ===== src/Mi/Value/Laws.antt =====
-- What a tuple holds after a run of `addResult`.
use vscode_cann_debugger.Base.{
  true, false, Option, none, some, List, [], ◌∷◌, ◌++◌, append_assoc, append-nil, ◌≡◌, refl, ◌∙◌,
  ap, arith, Text, codes, ◌===◌, ===_iff, ===_refl, if◌then◌else◌, Bool-cases, inl, inr,
}
use vscode_cann_debugger.Mi.Value.{
  MiValue, MiTuple, MiValues, str, tuple, arr, builtin, no_fields, field, no_items, item,
  is_inherited, own, get, or_inherited, put, push, collect, grow, add_result,
}

pub own-put :
    (t : MiTuple) (k j : Text) (v : MiValue)
    → own (put t k v) j ≡ (if k === j then some v else own t j)
unfolding own put
own-put no_fields k j v = refl
own-put (field i w t) k j v = ground (arith, ===_iff i k, ===_iff i j, ===_iff k j, own-put t k j v)

-- `addResult` for each result in turn.
unfoldable pub add_results : MiTuple → List (Text × MiValue) → MiTuple
add_results t [] = t
add_results t ((k, v) ∷ rs) = add_results (add_result t k v) rs

abbrev pub values_for : Text → List (Text × MiValue) → List MiValue
values_for k [] = []
values_for k ((j, v) ∷ rs) = if j === k then v ∷ values_for k rs else values_for k rs

abbrev pub items : List MiValue → MiValues
items [] = no_items
items (v ∷ vs) = item v (items vs)

-- One value stands for itself, several for their array, in the order of their arrival.
abbrev pub gathered : List MiValue → Option MiValue
gathered [] = none
gathered (v ∷ []) = some v
gathered (v ∷ w ∷ vs) = some (arr (items (v ∷ w ∷ vs)))

abbrev pub NotArray : MiValue → Type 0
NotArray (arr xs) = ⊥
NotArray v = Unit

-- The first value under the key is no array, or there is none.
abbrev pub StartsPlain : List MiValue → Type 0
StartsPlain [] = Unit
StartsPlain (v ∷ vs) = NotArray v

push-items : (vs : List MiValue) (v : MiValue) → push (items vs) v ≡ items (vs ++ v ∷ [])
unfolding push
push-items [] v = refl
push-items (w ∷ vs) v = ap (item w) (push-items vs v)

collect-NotArray : (w v : MiValue) → NotArray w → collect w v ≡ arr (item w (item v no_items))
unfolding collect
collect-NotArray (arr xs) v h = absurd h
collect-NotArray (str s) v h = refl
collect-NotArray (tuple t) v h = refl
collect-NotArray (builtin k) v h = refl

grow-gathered :
    (vs : List MiValue) (v : MiValue)
    → StartsPlain vs
    → some (grow (gathered vs) v) ≡ gathered (vs ++ v ∷ [])
unfolding grow
grow-gathered [] v h = refl
grow-gathered (w ∷ []) v h = ap some (collect-NotArray w v h)
grow-gathered (w ∷ x ∷ vs) v h =
    unfold collect in ap (λ xs. some (arr xs)) (push-items (w ∷ x ∷ vs) v)

or_inherited-plain : (k : Text) (o : Option MiValue) → is_inherited k ≡ false → or_inherited k o ≡ o
unfolding or_inherited
or_inherited-plain k none h = rw h
or_inherited-plain k (some v) h = refl

proto-is_inherited : is_inherited (codes "__proto__") ≡ true
unfolding is_inherited
proto-is_inherited = refl

not_proto : (k : Text) → is_inherited k ≡ false → (k === codes "__proto__") ≡ false
not_proto k h = elim (Bool-cases (k === codes "__proto__")) [
  | inl e ↦ cc ((===_iff k (codes "__proto__")).0 e, proto-is_inherited)
  | inr n ↦ n
]

own-add_result_self :
    (t : MiTuple) (k : Text) (v : MiValue)
    → is_inherited k ≡ false
    → own (add_result t k v) k ≡ some (grow (own t k) v)
unfolding add_result get
own-add_result_self t k v h =
    rw (not_proto k h) (rw own-put (rw ===_refl (rw (or_inherited-plain k (own t k) h))))

own-add_result_ne :
    (t : MiTuple) (j k : Text) (v : MiValue)
    → (j === k) ≡ false
    → own (add_result t j v) k ≡ own t k
unfolding add_result
own-add_result_ne t j k v h = elim (Bool-cases (j === codes "__proto__")) [
  | inl e ↦ rw e
  | inr n ↦ rw n (rw own-put (rw h))
]

StartsPlain-front : (vs ws : List MiValue) → StartsPlain (vs ++ ws) → StartsPlain vs
StartsPlain-front [] ws h = tt
StartsPlain-front (v ∷ vs) ws h = h

add_results-gathered :
    (k : Text) (rs : List (Text × MiValue)) (t : MiTuple) (vs : List MiValue)
    → is_inherited k ≡ false
    → own t k ≡ gathered vs
    → StartsPlain (vs ++ values_for k rs)
    → own (add_results t rs) k ≡ gathered (vs ++ values_for k rs)
unfolding add_results
add_results-gathered k [] t vs n e p = rw append-nil e
add_results-gathered k ((j, v) ∷ rs) t vs n e p = elim (Bool-cases (j === k)) [
  | inl same ↦
      let j-is-k = (===_iff j k).0 same in
      let p' = rw same at p in
      let grown =
        own-add_result_self t k v n
        ∙ ap (λ o. some (grow o v)) e
        ∙ grow-gathered vs v (StartsPlain-front vs (v ∷ values_for k rs) p') in
      rw (same, j-is-k)
        (rw (← append_assoc vs (v ∷ []) (values_for k rs)) (
          add_results-gathered k rs (add_result t k v) (vs ++ v ∷ []) n grown
            (rw (append_assoc vs (v ∷ []) (values_for k rs)) p')))
  | inr other ↦ rw other (
      add_results-gathered k rs (add_result t j v) vs n (own-add_result_ne t j k v other ∙ e)
        (rw other at p))
]

-- Repeated keys are gathered, whatever other keys stand between them: after any run of results a key
-- that no object inherits holds its one value, or the array of its values in their order, or is
-- absent if it did not occur. The first value under the key must not itself be an array.
pub get-add_results :
    (k : Text) (rs : List (Text × MiValue))
    → is_inherited k ≡ false
    → StartsPlain (values_for k rs)
    → get (add_results no_fields rs) k ≡ gathered (values_for k rs)
unfolding get own
get-add_results k rs n p =
    or_inherited-plain k _ n ∙ add_results-gathered k rs no_fields [] n refl p
