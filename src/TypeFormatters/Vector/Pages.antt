-- ===== src/TypeFormatters/Vector/Pages.antt =====
-- The pages of `StdVectorFormatter` in src/typeFormatters.ts: which rows `getChildren` gives.
use vscode_cann_debugger.Base.{
  ℕ, zero, suc, ◌-◌, Bool, true, false, Option, none, some, List, [], ◌∷◌, ◌++◌, Text, codes,
  decimal, map, min, length, ◌==◌, ==_iff, Bool-cases, inl, inr, ◌≡◌, refl, ap, ◌∙◌, ℤ, pos,
  pos_part, ltb_ℤ,
}
use vscode_cann_debugger.VarObjects.Manager.{done, VarObject, create, children}
use vscode_cann_debugger.VarObjects.Outcomes.{
  Gives, gives, Yields, yields, Gives-value, Gives-bind, Yields-bind, Gives-Yields, Gives-recovered,
  any_outcome,
}
use vscode_cann_debugger.TypeFormatters.Registry.{
  on_manager, Client, FormatterContext, Variable, FormatterView,
}
use vscode_cann_debugger.TypeFormatters.Vector.{
  VectorState, element_expression, element_reference, to_element, to_elements, type_or,
  slice_expression, page_if_whole, read_page_as_array, read_element, read_page_elementwise,
  page_or_elements, vector_page, vector_children,
}

-- What identifies a row: its name, the expression that evaluates it again, and where it lives.
abbrev pub Row : Type 0
Row = Text × Text × Option Text

abbrev pub row_of : Variable → Row
row_of v = (v.name, v.evaluate_name, v.memory_reference)

unfoldable pub row_at : VectorState → ℕ → Row
unfolding element_expression element_reference decimal
row_at s index = (
  codes "[" ++ (decimal index ++ codes "]"),
  element_expression s index,
  element_reference s index,
)

-- The rows of the elements from `index` on.
unfoldable pub window : VectorState → ℕ → ℕ → List Row
unfolding row_at
window s index zero = []
window s index (suc n) = row_at s index ∷ window s (suc index) n

abbrev Shows : VectorState → ℕ → ℕ → List Variable → Type 0
Shows s index n vs = map row_of vs ≡ window s index n

to_element-row :
    (ctx : FormatterContext) (s : VectorState) (index : ℕ) (value type : Text) (expandable : Bool)
    (c : Client)
    → Gives (λ v. row_of v ≡ row_at s index) (to_element ctx s index value type expandable c)
unfolding to_element row_at
to_element-row ctx s index value type true c = gives refl
to_element-row ctx s index value type false c = gives refl

Shows-cons :
    (s : VectorState) (index n : ℕ) (v : Variable) (vs : List Variable)
    → row_of v ≡ row_at s index
    → Shows s (suc index) n vs
    → Shows s index (suc n) (v ∷ vs)
unfolding window
Shows-cons s index n v vs h k = cc (h, k)

to_elements-Shows :
    (ctx : FormatterContext) (s : VectorState) (index : ℕ) (objects : List VarObject) (c : Client)
    → Gives (Shows s index (length objects)) (to_elements ctx s index objects c)
unfolding to_elements window
to_elements-Shows ctx s index [] c = gives refl
to_elements-Shows ctx s index (o ∷ os) c =
    Gives-bind
      (to_element-row ctx s index o.value (type_or o.type s.element_type) (ltb_ℤ (pos 0) o.numchild)
        c)
      (λ v c1 h.
        Gives-bind (to_elements-Shows ctx s (suc index) os c1)
          (λ vs c2 k. gives (Shows-cons s index (length os) v vs h k)))

abbrev ShowsIfAny : VectorState → ℕ → ℕ → Option (List Variable) → Type 0
ShowsIfAny s index n none = Unit
ShowsIfAny s index n (some vs) = Shows s index n vs

page_if_whole-ShowsIfAny :
    (ctx : FormatterContext) (s : VectorState) (first n : ℕ) (objects : List VarObject) (c : Client)
    → Yields (ShowsIfAny s first n) (page_if_whole ctx s first n objects c)
unfolding page_if_whole
page_if_whole-ShowsIfAny ctx s first n objects c = elim (Bool-cases (length objects == n)) [
  | inl e ↦ rw e (
      Gives-Yields (
        Gives-bind (to_elements-Shows ctx s first objects c)
          (λ vs c1 h. gives (h ∙ ap (window s first) ((==_iff (length objects) n).0 e)))))
  | inr h ↦ rw h (yields tt)
]

read_page_as_array-ShowsIfAny :
    (ctx : FormatterContext) (s : VectorState) (first n : ℕ) (c : Client)
    → Gives (ShowsIfAny s first n) (read_page_as_array ctx s first n c)
unfolding read_page_as_array
read_page_as_array-ShowsIfAny ctx s first n c =
    Gives-recovered none
      (Yields-bind {A = VarObject}
        (any_outcome (
          on_manager
            (create ctx.debugger (slice_expression s first n) ctx.thread_id ctx.frame_level) c))
        (λ array c1 u.
          Yields-bind {A = List VarObject}
            (any_outcome (on_manager (children ctx.debugger array.name none none) c1))
            (λ objects c2 w. page_if_whole-ShowsIfAny ctx s first n objects c2)))
      tt

read_element-any :
    (ctx : FormatterContext) (s : VectorState) (index : ℕ) (c : Client)
    → Gives (λ read. Unit {0}) (read_element ctx s index c)
unfolding read_element
read_element-any ctx s index c = Gives-recovered (codes "<unreadable>", false) (any_outcome _) tt

read_page_elementwise-Shows :
    (ctx : FormatterContext) (s : VectorState) (index n : ℕ) (c : Client)
    → Gives (Shows s index n) (read_page_elementwise ctx s index n c)
unfolding read_page_elementwise window
read_page_elementwise-Shows ctx s index zero c = gives refl
read_page_elementwise-Shows ctx s index (suc n) c =
    Gives-bind (read_element-any ctx s index c) (λ read c1 u.
      Gives-bind (to_element-row ctx s index read.0 s.element_type read.1 c1) (λ v c2 h.
        Gives-bind (read_page_elementwise-Shows ctx s (suc index) n c2)
          (λ vs c3 k. gives (Shows-cons s index n v vs h k))))

page_or_elements-Shows :
    (ctx : FormatterContext) (s : VectorState) (first n : ℕ) (batched : Option (List Variable))
    (c : Client)
    → ShowsIfAny s first n batched
    → Gives (Shows s first n) (page_or_elements ctx s first n batched c)
unfolding page_or_elements
page_or_elements-Shows ctx s first n none c h = read_page_elementwise-Shows ctx s first n c
page_or_elements-Shows ctx s first n (some vs) c h = gives h

vector_page-Shows :
    (ctx : FormatterContext) (s : VectorState) (first n : ℕ) (c : Client)
    → Gives (Shows s first n) (vector_page ctx s first n c)
unfolding vector_page window
vector_page-Shows ctx s first zero c = gives refl
vector_page-Shows ctx s first (suc n) c =
    Gives-bind (read_page_as_array-ShowsIfAny ctx s first (suc n) c)
      (λ batched c1 h. page_or_elements-Shows ctx s first (suc n) batched c1 h)

-- `getChildren` of a vector never rejects, and whatever the debugger answers (a page in one
-- round trip, a page of another length, an error on the page or on single elements), its rows are
-- those of the elements from `start`, or from 0 if that is negative, as many as asked for but none
-- behind the last element, in order: each has the name, the expression and the address of its index.
pub vector_children-window :
    (ctx : FormatterContext) (view : FormatterView VectorState) (start count : ℤ) (c : Client)
    → (vs : List Variable) × ((vector_children ctx view start count c).0 ≡ done vs)
      × (map row_of vs
          ≡ window view.state
              (pos_part start)
              (min (pos_part count) (view.state.count - pos_part start)))
unfolding vector_children
vector_children-window ctx view start count c = Gives-value (
    vector_page-Shows ctx view.state (pos_part start)
      (min (pos_part count) (view.state.count - pos_part start)) c)
