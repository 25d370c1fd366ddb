-- ===== src/TypeFormatters/Vector/Measure.antt =====
-- When `inspect` of `StdVectorFormatter` in src/typeFormatters.ts believes a vector.
use vscode_cann_debugger.Base.{
  ℕ, zero, suc, ◌*◌, ◌≤◌, Option, none, some, Text, ◌↔◌, ◌≡◌, refl, ap, sym, ◌∙◌, arith, ℤ, pos,
  negsuc, ◌-ℤ◌, ◌++◌, codes, decimal,
}
use vscode_cann_debugger.Mi.Number.{hexadecimal_ℤ}
use vscode_cann_debugger.VarObjects.Memory.{memory_reference}
use vscode_cann_debugger.TypeFormatters.Types.Lengths.{vector_length-multiple, vector_length-some}
use vscode_cann_debugger.TypeFormatters.Registry.{FormatterView}
use vscode_cann_debugger.TypeFormatters.Vector.{
  VectorState, max_elements, believed, measured, vector_view,
}

believed-small :
    (expression element_type : Text) (start : ℤ) (size n : ℕ)
    → n ≤ max_elements
    → believed expression element_type start size (some n)
      ≡ some (vector_view expression element_type start size n)
unfolding believed
believed-small expression element_type start size n h = ground arith

-- What the three numbers of a vector of `n` elements are.
abbrev pub IsVector : ℤ → ℤ → ℤ → ℕ → ℕ → Type 0
IsVector start finish size k n =
    (size ≡ pos (suc k)) × (finish -ℤ start ≡ pos (n * suc k)) × (n ≤ max_elements)

believed-some :
    (expression element_type : Text) (start : ℤ) (size : ℕ) (o : Option ℕ)
    (view : FormatterView VectorState)
    → believed expression element_type start size o ≡ some view
    → (n : ℕ) × (o ≡ some n)
      × (n ≤ max_elements)
      × (view ≡ vector_view expression element_type start size n)
unfolding believed
believed-some expression element_type start size none view h = cc
believed-some expression element_type start size (some n) view h =
    (n, refl, ground (arith, h), ground (arith, h))

measured-IsVector :
    (expression element_type : Text) (start finish size : ℤ) (k n : ℕ)
    → IsVector start finish size k n
    → measured expression element_type (some start) (some finish) (some size)
      ≡ some (vector_view expression element_type start (suc k) n)
unfolding measured
measured-IsVector expression element_type start finish size k n (e, h, l) =
    ap (λ z. measured expression element_type (some start) (some finish) (some z)) e
    ∙ ap (believed expression element_type start (suc k))
        (vector_length-multiple start finish k n h)
    ∙ believed-small expression element_type start (suc k) n l

measured-some :
    (expression element_type : Text) (start finish size : ℤ) (view : FormatterView VectorState)
    → measured expression element_type (some start) (some finish) (some size) ≡ some view
    → (k n : ℕ) × IsVector start finish size k n
      × (view ≡ vector_view expression element_type start (suc k) n)
unfolding measured
measured-some expression element_type start finish (negsuc k) view h = cc
measured-some expression element_type start finish (pos zero) view h = cc
measured-some expression element_type start finish (pos (suc k)) view h =
    let (n, e, l, v) = believed-some expression element_type start (suc k) _ view h in
    let (j, s, d) = vector_length-some start finish (pos (suc k)) n e in
    (k, n, (refl, cc (s, d), l), v)

-- The reference that a vector of `n` elements at `start` has: none for an empty one or for a start
-- of 0, and the start in hexadecimal digits otherwise.
abbrev pub reference_of : ℤ → ℕ → Option Text
reference_of start zero = none
reference_of (pos zero) (suc n) = none
reference_of (pos (suc a)) (suc n) = some (codes "0x" ++ hexadecimal_ℤ (pos (suc a)))
reference_of (negsuc a) (suc n) = some (codes "0x" ++ hexadecimal_ℤ (negsuc a))

-- What is shown of a vector of `n` elements of the size `k` at `start`.
abbrev pub shown : Text → Text → ℤ → ℕ → ℕ → FormatterView VectorState
shown expression element_type start k n = record {
  value = codes "{ size=" ++ (decimal n ++ codes " }");
  indexed_variables = n;
  memory_reference = reference_of start n;
  state = record {
    expression = expression;
    data_address = start;
    element_size = k;
    element_type = element_type;
    count = n;
  };
}

vector_view-shown :
    (expression element_type : Text) (start : ℤ) (k n : ℕ)
    → vector_view expression element_type start k n ≡ shown expression element_type start k n
unfolding vector_view memory_reference
vector_view-shown expression element_type start k zero = refl
vector_view-shown expression element_type (pos zero) k (suc n) = ground arith
vector_view-shown expression element_type (pos (suc a)) k (suc n) = ground arith
vector_view-shown expression element_type (negsuc a) k (suc n) = ground arith

-- A vector is shown exactly when its end lies a whole number of elements behind its start, at most
-- four million of them, and elements have a positive size; then it is shown with this number of
-- elements, with the reference of its start, and with this start and this size for the addresses
-- of its pages.
pub measured-iff-IsVector :
    (expression element_type : Text) (start finish size : ℤ) (view : FormatterView VectorState)
    → (measured expression element_type (some start) (some finish) (some size) ≡ some view) ↔ (
        (k n : ℕ) × IsVector start finish size k n
        × (view ≡ shown expression element_type start (suc k) n))
measured-iff-IsVector expression element_type start finish size view = (
  λ h.
      let (k, n, i, v) = measured-some expression element_type start finish size view h in
      (k, n, i, v ∙ vector_view-shown expression element_type start (suc k) n),
  λ (k, n, h, v).
      measured-IsVector expression element_type start finish size k n h
      ∙ ap some (vector_view-shown expression element_type start (suc k) n ∙ sym v),
)
