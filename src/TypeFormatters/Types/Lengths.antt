-- ===== src/TypeFormatters/Types/Lengths.antt =====
-- `vectorLength` of src/typeFormatters.ts: the lengths that it gives.
use vscode_cann_debugger.Base.{
  ℕ, zero, suc, ◌*◌, ◌/◌, ◌%◌, some, ◌≡◌, refl, ap, ◌∙◌, arith, ℤ, pos, negsuc, ◌-ℤ◌,
}
use vscode_cann_debugger.TypeFormatters.Types.{vector_length, whole_elements}

multiple-mod : (n k : ℕ) → (n * suc k) % suc k ≡ 0
multiple-mod n k = grind arith

multiple-div : (n k : ℕ) → (n * suc k) / suc k ≡ n
multiple-div n k = grind arith

div-multiple : (b k : ℕ) → b % suc k ≡ 0 → b ≡ b / suc k * suc k
div-multiple b k h = grind arith

-- A difference of `n` elements is the length `n`.
pub vector_length-multiple :
    (start finish : ℤ) (k n : ℕ)
    → finish -ℤ start ≡ pos (n * suc k)
    → vector_length start finish (pos (suc k)) ≡ some n
unfolding vector_length
vector_length-multiple start finish k n h =
    ap (λ b. whole_elements b (suc k)) h ∙ rw (multiple-mod n k) (ap some (multiple-div n k))

whole_elements-some :
    (bytes : ℤ) (k n : ℕ) → whole_elements bytes (suc k) ≡ some n → bytes ≡ pos (n * suc k)
whole_elements-some (negsuc b) k n h = cc
whole_elements-some (pos b) k n h =
    let exact : (b / suc k ≡ n) × (b % suc k ≡ 0) = ground (arith, h) in
    ap pos (div-multiple b k exact.1 ∙ ap (λ x. x * suc k) exact.0)

-- A length is that of a difference of so many elements, whose size is positive.
pub vector_length-some :
    (start finish size : ℤ) (n : ℕ)
    → vector_length start finish size ≡ some n
    → (k : ℕ) × (size ≡ pos (suc k)) × (finish -ℤ start ≡ pos (n * suc k))
unfolding vector_length
vector_length-some start finish (negsuc k) n h = cc
vector_length-some start finish (pos zero) n h = cc
vector_length-some start finish (pos (suc k)) n h =
    (k, refl, whole_elements-some (finish -ℤ start) k n h)
