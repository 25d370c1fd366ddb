-- ===== src/TensorDecode/Elements/Window.antt =====
-- Which bytes `decodeTensor` of src/tensorDecode.ts reads.
use vscode_cann_debugger.Base.{
  ℕ, zero, suc, ◌+◌, ◌*◌, ◌/◌, ◌≤◌, ◌<◌, some, List, [], ◌∷◌, length, take, drop, min, map, ◌≡◌,
  refl, ap, sym, ◌∙◌, arith,
}
use vscode_cann_debugger.TensorDecode.Elements.{
  TensorDtype, dtype_info, Numbers, bytes_at, element_of, element_read, cons_element, elements,
  decode_tensor, float16,
}

-- The first `n` pieces of `size` bytes, one behind the other.
unfoldable pub pieces : ℕ → ℕ → List ℕ → List (List ℕ)
pieces size zero bytes = []
pieces size (suc n) bytes = take size bytes ∷ pieces size n (drop size bytes)

drop-nil : (n : ℕ) → drop {A = ℕ} n [] ≡ []
drop-nil zero = refl
drop-nil (suc n) = refl

drop-add : (a b : ℕ) (xs : List ℕ) → drop (a + b) xs ≡ drop b (drop a xs)
drop-add zero b xs = let e : 0 + b ≡ b = omega arith in ap (λ k. drop k xs) e
drop-add (suc a) b [] = drop-nil (suc a + b) ∙ sym (drop-nil b)
drop-add (suc a) b (x ∷ xs) =
    let e : suc a + b ≡ suc (a + b) = omega arith in ap (λ k. drop k (x ∷ xs)) e ∙ drop-add a b xs

drop-suc : (i size : ℕ) (xs : List ℕ) → drop (suc i * size) xs ≡ drop size (drop (i * size) xs)
drop-suc i size xs =
    let e : suc i * size ≡ i * size + size = grind arith in
    ap (λ k. drop k xs) e ∙ drop-add (i * size) size xs

bytes_at-inside :
    (bytes : List ℕ) (offset size : ℕ)
    → offset + size ≤ length bytes
    → bytes_at bytes offset size ≡ some (take size (drop offset bytes))
unfolding bytes_at
bytes_at-inside bytes offset size h = ground arith

fits : (i n size l : ℕ) → (i + suc n) * size ≤ l → i * size + size ≤ l
fits i n size l h = grind arith

next_fits : (i n size l : ℕ) → (i + suc n) * size ≤ l → (suc i + n) * size ≤ l
next_fits i n size l h = grind arith

all_fit : (count size l : ℕ) → 0 < size → (0 + min count (l / size)) * size ≤ l
all_fit count size l h = grind arith

none_before : (size : ℕ) → 0 * size ≡ 0
none_before size = grind arith

module _ (numbers : Numbers) where
  elements-pieces :
      (n : ℕ) (bytes : List ℕ) (dtype : TensorDtype) (i : ℕ)
      → (i + n) * (dtype_info dtype).size ≤ length bytes
      → elements numbers bytes dtype i n
        ≡ some (
            map
              (element_of numbers dtype)
              (pieces (dtype_info dtype).size n (drop (i * (dtype_info dtype).size) bytes)))
  unfolding elements pieces cons_element element_read
  elements-pieces zero bytes dtype i h = refl
  elements-pieces (suc n) bytes dtype i h =
      let size = (dtype_info dtype).size in
      ap
        (λ o.
          cons_element numbers (element_read numbers dtype o)
            (elements numbers bytes dtype (suc i) n))
        (bytes_at-inside bytes (i * size) size (fits i n size (length bytes) h))
      ∙ ap
          (cons_element numbers
            (some (element_of numbers dtype (take size (drop (i * size) bytes)))))
          (elements-pieces n bytes dtype (suc i) (next_fits i n size (length bytes) h)
            ∙ ap (λ b. some (map (element_of numbers dtype) (pieces size n b)))
                (drop-suc i size bytes))

  size-positive : (dtype : TensorDtype) → 0 < (dtype_info dtype).size
  unfolding dtype_info
  size-positive float16 = omega arith
  size-positive _ = omega arith

  -- `decodeTensor` never reads past the end of the bytes: its elements are those of the first pieces
  -- of the size of the type, as many as asked for, or as whole pieces are there if these are fewer.
  pub decode_tensor-pieces :
      (bytes : List ℕ) (dtype : TensorDtype) (count : ℕ)
      → decode_tensor numbers bytes dtype count
        ≡ some (
            map (element_of numbers dtype) (
              pieces
                (dtype_info dtype).size
                (min count (length bytes / (dtype_info dtype).size))
                bytes))
  unfolding decode_tensor
  decode_tensor-pieces bytes dtype count =
      let size = (dtype_info dtype).size in
      let n = min count (length bytes / size) in
      elements-pieces n bytes dtype 0 (all_fit count size (length bytes) (size-positive dtype))
      ∙ ap (λ k. some (map (element_of numbers dtype) (pieces size n (drop k bytes))))
          (none_before size)
