-- ===== src/TensorDecode/Elements.antt =====
-- Element types and `decodeTensor` of src/tensorDecode.ts. Bytes are numbers below 256. What Node's
-- Buffer makes of the bytes of a float is a parameter; integers are little-endian two's complement.
pub mod Window
pub mod Integers
use vscode_cann_debugger.Base.{
  ℕ, zero, suc, ◌+◌, ◌-◌, ◌*◌, ◌/◌, ◌%◌, ◌^◌, Bool, true, false, Option, none, some, List, [], ◌∷◌,
  Text, codes, ◌===◌, ltb, ◌==◌, if◌then◌else◌, length, take, drop, min, ℤ, pos, negsuc, sub_ℕ, not,
}
use vscode_cann_debugger.Mi.Number.{minus}

pub data TensorDtype : Type 0 where
  float16 bfloat16 float32 float64 int8 uint8 int16 uint16 int32 uint32 : TensorDtype

pub record DtypeInfo : Type 0 where
  pub id : Text
  pub label : Text
  pub size : ℕ
  pub float : Bool

-- The entry of `DTYPES` that `dtypeInfo` finds.
unfoldable pub dtype_info : TensorDtype → DtypeInfo
dtype_info float16 = record {
  id = codes "float16";
  label = codes "FP16 (half)";
  size = 2;
  float = true;
}
dtype_info bfloat16 = record {
  id = codes "bfloat16";
  label = codes "BF16 (bfloat16)";
  size = 2;
  float = true;
}
dtype_info float32 = record {
  id = codes "float32";
  label = codes "FP32 (float)";
  size = 4;
  float = true;
}
dtype_info float64 = record {
  id = codes "float64";
  label = codes "FP64 (double)";
  size = 8;
  float = true;
}
dtype_info int8 = record { id = codes "int8"; label = codes "INT8"; size = 1; float = false }
dtype_info uint8 = record { id = codes "uint8"; label = codes "UINT8"; size = 1; float = false }
dtype_info int16 = record { id = codes "int16"; label = codes "INT16"; size = 2; float = false }
dtype_info uint16 = record { id = codes "uint16"; label = codes "UINT16"; size = 2; float = false }
dtype_info int32 = record { id = codes "int32"; label = codes "INT32"; size = 4; float = false }
dtype_info uint32 = record { id = codes "uint32"; label = codes "UINT32"; size = 4; float = false }

-- JavaScript numbers, as far as decoding makes them: an integer, `mantissa * 2 ** exponent` with its
-- sign, which a double holds exactly for the mantissas of a half, the special values, and what Buffer
-- reads as a float or a double.
pub record Numbers : Type 1 where
  pub Number : Type 0
  pub integer : ℤ → Number
  pub scaled : Bool → ℕ → ℤ → Number
  pub infinity : Bool → Number
  pub not_a_number : Number
  pub float_of : List ℕ → Number
  pub double_of : List ℕ → Number

-- The number that bytes spell, the lowest first.
unfoldable pub unsigned_of : List ℕ → ℕ
unsigned_of [] = 0
unsigned_of (b ∷ bs) = b + 256 * unsigned_of bs

-- Two's complement of a number below `2 * half`.
unfoldable pub signed_of : ℕ → ℕ → ℤ
signed_of half n = if ltb n half then pos n else minus (half + half - n)

-- `readUInt…LE(offset)` and its kin throw a RangeError, which is `none`, unless all `size` bytes are
-- there.
unfoldable pub bytes_at : List ℕ → ℕ → ℕ → Option (List ℕ)
bytes_at bytes offset size =
    if ltb (length bytes) (offset + size) then none else some (take size (drop offset bytes))

module _ (numbers : Numbers) where
  -- The branches of `readFloat16` for the fields of the half.
  unfoldable pub half_of : Bool → ℕ → ℕ → numbers.Number
  half_of sign exponent fraction =
      if exponent == 0
      then numbers.scaled sign fraction (negsuc 23)
      else if exponent == 0x1f
      then (if fraction == 0 then numbers.infinity sign else numbers.not_a_number)
      else numbers.scaled sign (1024 + fraction) (sub_ℕ exponent 25)

  -- `readFloat16`, of the two bytes at the offset.
  unfoldable pub float16_of : ℕ → numbers.Number
  unfolding half_of
  float16_of raw = half_of (not (ltb raw 0x8000)) (raw / 1024 % 32) (raw % 1024)

  -- `readBFloat16`: the two bytes above two zeros.
  unfoldable pub bfloat16_of : List ℕ → numbers.Number
  bfloat16_of bytes = numbers.float_of (0 ∷ 0 ∷ bytes)

  -- The switch of `decodeTensor`.
  unfoldable pub element_of : TensorDtype → List ℕ → numbers.Number
  unfolding float16_of bfloat16_of unsigned_of signed_of
  element_of float16 bytes = float16_of (unsigned_of bytes)
  element_of bfloat16 bytes = bfloat16_of bytes
  element_of float32 bytes = numbers.float_of bytes
  element_of float64 bytes = numbers.double_of bytes
  element_of int8 bytes = numbers.integer (signed_of 0x80 (unsigned_of bytes))
  element_of uint8 bytes = numbers.integer (pos (unsigned_of bytes))
  element_of int16 bytes = numbers.integer (signed_of 0x8000 (unsigned_of bytes))
  element_of uint16 bytes = numbers.integer (pos (unsigned_of bytes))
  element_of int32 bytes = numbers.integer (signed_of 0x80000000 (unsigned_of bytes))
  element_of uint32 bytes = numbers.integer (pos (unsigned_of bytes))

  element_read : TensorDtype → Option (List ℕ) → Option numbers.Number
  unfolding element_of
  element_read dtype none = none
  element_read dtype (some bytes) = some (element_of dtype bytes)

  cons_element : Option numbers.Number → Option (List numbers.Number) → Option (List numbers.Number)
  cons_element (some x) (some xs) = some (x ∷ xs)
  cons_element x xs = none

  -- The loop from element `i` on, `n` rounds.
  elements : List ℕ → TensorDtype → ℕ → ℕ → Option (List numbers.Number)
  unfolding cons_element element_read bytes_at dtype_info
  elements bytes dtype i zero = some []
  elements bytes dtype i (suc n) =
      let size = (dtype_info dtype).size in
      cons_element (element_read dtype (bytes_at bytes (i * size) size))
        (elements bytes dtype (suc i) n)

  -- `decodeTensor`; `none` is a RangeError.
  unfoldable pub decode_tensor : List ℕ → TensorDtype → ℕ → Option (List numbers.Number)
  unfolding elements dtype_info
  decode_tensor bytes dtype count =
      elements bytes dtype 0 (min count (length bytes / (dtype_info dtype).size))
