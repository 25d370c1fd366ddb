-- ===== src/Mi/Value.antt =====
-- The values of MI output (src/mi/miParser.ts): `MiValue`, `MiTuple`, and how a tuple grows.
pub mod Laws
use vscode_cann_debugger.Base.{
  Bool, false, ◌||◌, Option, none, some, List, [], ◌∷◌, ◌++◌, Text, codes, ◌===◌, if◌then◌else◌,
}

-- A JavaScript object is its own fields in the order of their insertion. `builtin k` is what a read
-- of the inherited property `k` gives: a function of `Object.prototype`.
mutual
  pub data MiValue : Type 0 where
    str : Text → MiValue
    tuple : MiTuple → MiValue
    arr : MiValues → MiValue
    builtin : Text → MiValue

  pub data MiTuple : Type 0 where
    no_fields : MiTuple
    field : Text → MiValue → MiTuple → MiTuple

  pub data MiValues : Type 0 where
    no_items : MiValues
    item : MiValue → MiValues → MiValues

elem : Text → List Text → Bool
elem k [] = false
elem k (x ∷ xs) = k === x || elem k xs

-- The properties that every object literal inherits.
abbrev inherited_names : List Text
inherited_names =
    codes "constructor"
    ∷ codes "hasOwnProperty"
    ∷ codes "isPrototypeOf"
    ∷ codes "propertyIsEnumerable"
    ∷ codes "toLocaleString"
    ∷ codes "toString"
    ∷ codes "valueOf"
    ∷ codes "__defineGetter__"
    ∷ codes "__defineSetter__"
    ∷ codes "__lookupGetter__"
    ∷ codes "__lookupSetter__"
    ∷ codes "__proto__"
    ∷ []

unfoldable pub is_inherited : Text → Bool
unfolding elem ◌===◌
is_inherited k = elem k inherited_names

-- The object's own field `k`.
unfoldable pub own : MiTuple → Text → Option MiValue
own no_fields k = none
own (field j v t) k = if j === k then some v else own t k

or_inherited : Text → Option MiValue → Option MiValue
or_inherited k (some v) = some v
or_inherited k none = if is_inherited k then some (builtin k) else none

-- `t[k]`: own fields first, then what the object inherits; `none` is `undefined`.
unfoldable pub get : MiTuple → Text → Option MiValue
unfolding own is_inherited or_inherited
get t k = or_inherited k (own t k)

-- `t[k] = v`: an own field keeps its place, a new one comes last.
unfoldable pub put : MiTuple → Text → MiValue → MiTuple
put no_fields k v = field k v no_fields
put (field j w t) k v = if j === k then field j v t else field j w (put t k v)

unfoldable pub push : MiValues → MiValue → MiValues
push no_items v = item v no_items
push (item w xs) v = item w (push xs v)

-- `[existing, value]`, or `existing.push(value)` where the field holds an array already.
collect : MiValue → MiValue → MiValue
unfolding push
collect (arr xs) v = arr (push xs v)
collect w v = arr (item w (item v no_items))

grow : Option MiValue → MiValue → MiValue
unfolding collect
grow none v = v
grow (some existing) v = collect existing v

-- `addResult`: `key in target` holds of inherited names too. An assignment to `__proto__` makes no
-- field; the prototype that it sets is not modelled.
unfoldable pub add_result : MiTuple → Text → MiValue → MiTuple
unfolding get put grow ◌===◌
add_result target key value =
    if key === codes "__proto__" then target else put target key (grow (get target key) value)

-- `miString`
unfoldable pub mi_string : Option MiValue → Text → Text
mi_string (some (str s)) fallback = s
mi_string v fallback = fallback

-- `miTuple`
unfoldable pub mi_tuple : Option MiValue → Option MiTuple
mi_tuple (some (tuple t)) = some t
mi_tuple v = none

-- `miArray`: a lone value is an array of one.
unfoldable pub mi_array : Option MiValue → MiValues
mi_array none = no_items
mi_array (some (arr xs)) = xs
mi_array (some v) = item v no_items

-- The tuples of an array: the inner loop of `miList`.
unfoldable pub tuples_of : MiValues → List MiTuple
tuples_of no_items = []
tuples_of (item (tuple t) xs) = t ∷ tuples_of xs
tuples_of (item v xs) = tuples_of xs

-- What one element of the array gives.
unfoldable pub listed : Text → MiTuple → Option MiValue → List MiTuple
unfolding tuples_of mi_array
listed key t none = t ∷ []
listed key t (some keyed) = tuples_of (mi_array (some keyed))

list_tuples : Text → MiValues → List MiTuple
unfolding listed get
list_tuples key no_items = []
list_tuples key (item (tuple t) xs) = listed key t (get t key) ++ list_tuples key xs
list_tuples key (item v xs) = list_tuples key xs

-- `miList`
unfoldable pub mi_list : Option MiValue → Text → List MiTuple
unfolding list_tuples mi_array
mi_list v key = list_tuples key (mi_array v)
