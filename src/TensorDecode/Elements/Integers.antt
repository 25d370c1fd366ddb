-- ===== src/TensorDecode/Elements/Integers.antt =====
-- The integers of `decodeTensor` in src/tensorDecode.ts: what the debugger's machine stores is what
-- is shown.
use vscode_cann_debugger.Base.{
  ℕ, zero, suc, ◌+◌, ◌-◌, ◌*◌, ◌/◌, ◌%◌, ◌≤◌, ◌<◌, false, List, [], ◌∷◌, ltb, if◌then◌else◌, ◌≡◌,
  ap, ◌∙◌, arith, ℤ, pos, negsuc,
}
use vscode_cann_debugger.Mi.Number.{minus}
use vscode_cann_debugger.TensorDecode.Elements.{
  TensorDtype, int8, int16, int32, Numbers, unsigned_of, signed_of, element_of,
}

-- A number in `k` bytes, the lowest first.
unfoldable pub le_bytes : ℕ → ℕ → List ℕ
le_bytes zero n = []
le_bytes (suc k) n = n % 256 ∷ le_bytes k (n / 256)

-- How many numbers `k` bytes hold.
abbrev pub capacity : ℕ → ℕ
capacity zero = 1
capacity (suc k) = 256 * capacity k

unsigned_of-le_bytes : (k n : ℕ) → n < capacity k → unsigned_of (le_bytes k n) ≡ n
unfolding unsigned_of le_bytes
unsigned_of-le_bytes zero n h = omega arith
unsigned_of-le_bytes (suc k) n h =
    let rest = unsigned_of-le_bytes k (n / 256) (omega arith) in omega arith

-- Two's complement in a word of `2 * half` numbers.
unfoldable pub twos_complement : ℕ → ℤ → ℕ
twos_complement half (pos n) = n
twos_complement half (negsuc n) = half + half - suc n

abbrev pub IsInWord : ℕ → ℤ → Type 0
IsInWord half (pos n) = n < half
IsInWord half (negsuc n) = n < half

signed_of-twos_complement :
    (half : ℕ) (z : ℤ) → IsInWord half z → signed_of half (twos_complement half z) ≡ z
unfolding signed_of twos_complement
signed_of-twos_complement half (pos n) h = ground arith
signed_of-twos_complement half (negsuc n) h =
    let test : ltb (half + half - suc n) half ≡ false = ground arith in
    let back : half + half - (half + half - suc n) ≡ suc n = omega arith in
    ap (λ b. if b then pos (half + half - suc n) else minus (half + half - (half + half - suc n)))
      test
    ∙ ap minus back

twos_complement-bound : (half : ℕ) (z : ℤ) → IsInWord half z → twos_complement half z < half + half
unfolding twos_complement
twos_complement-bound half (pos n) h = omega arith
twos_complement-bound half (negsuc n) h = omega arith

decoded :
    (half k : ℕ) (z : ℤ)
    → IsInWord half z
    → half + half ≤ capacity k
    → signed_of half (unsigned_of (le_bytes k (twos_complement half z))) ≡ z
decoded half k z h fit =
    ap (signed_of half) (
      unsigned_of-le_bytes k (twos_complement half z)
        (omega (arith, twos_complement-bound half z h)))
    ∙ signed_of-twos_complement half z h

-- The signed types, their sizes and half of what a word of them holds.
pub data Signed : Type 0 where
  byte short word : Signed

abbrev pub dtype_of : Signed → TensorDtype
dtype_of byte = int8
dtype_of short = int16
dtype_of word = int32

abbrev pub half_of_word : Signed → ℕ
half_of_word byte = 0x80
half_of_word short = 0x8000
half_of_word word = 0x80000000

abbrev pub bytes_of : Signed → ℕ
bytes_of byte = 1
bytes_of short = 2
bytes_of word = 4

-- An integer in the range of a signed type, stored in two's complement with its lowest byte first,
-- is decoded as this integer.
pub element_of-twos_complement :
    (numbers : Numbers) (s : Signed) (z : ℤ)
    → IsInWord (half_of_word s) z
    → element_of numbers (dtype_of s) (le_bytes (bytes_of s) (twos_complement (half_of_word s) z))
      ≡ numbers.integer z
unfolding element_of
element_of-twos_complement numbers byte z h = ap numbers.integer (decoded 0x80 1 z h (omega arith))
element_of-twos_complement numbers short z h =
    ap numbers.integer (decoded 0x8000 2 z h (omega arith))
element_of-twos_complement numbers word z h =
    ap numbers.integer (decoded 0x80000000 4 z h (omega arith))
