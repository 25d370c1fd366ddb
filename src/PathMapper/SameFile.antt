-- ===== src/PathMapper/SameFile.antt =====
-- When two paths denote the same file: `sameFile` and `basename` of src/pathMapper.ts.
use vscode_cann_debugger.Base.{
  Bool, true, false, ◌&&◌, ◌||◌, [], ◌∷◌, Text, ◌==◌, ◌===◌, ===_refl, if◌then◌else◌, arith, ◌≡◌,
  refl,
}
use vscode_cann_debugger.PathMapper.{Mapper, to_debugger}

-- `lastIndexOf('/')` is not -1.
has_slash : Text → Bool
has_slash [] = false
has_slash (c ∷ t) = c == b'/' || has_slash t

unfoldable pub basename : Text → Text
unfolding has_slash
basename [] = []
basename (c ∷ t) =
    let behind = basename t in if has_slash t then behind else if c == b'/' then t else c ∷ t

-- `value.endsWith(end)`.
unfoldable pub ends_with : Text → Text → Bool
unfolding ◌===◌
ends_with [] end = [] === end
ends_with (c ∷ t) end = (c ∷ t) === end || ends_with t end

-- Two paths of the guest.
unfoldable pub same_guest : Text → Text → Bool
unfolding basename ends_with ◌===◌
same_guest a b = a === b || basename a === basename b && (ends_with a b || ends_with b a)

unfoldable pub same_file : (Text → Text) → Mapper → Text → Text → Bool
unfolding same_guest to_debugger
same_file to_lower m a b = same_guest (to_debugger to_lower m a) (to_debugger to_lower m b)

===_sym : (a b : Text) → (a === b) ≡ (b === a)
unfolding ◌===◌
===_sym (x ∷ a) (y ∷ b) = ground (arith, ===_sym a b)
===_sym [] [] = refl
===_sym [] (y ∷ b) = refl
===_sym (x ∷ a) [] = refl

or_comm : (a b : Bool) → (a || b) ≡ (b || a)
or_comm true true = refl
or_comm true false = refl
or_comm false true = refl
or_comm false false = refl

same_guest_sym : (a b : Text) → same_guest a b ≡ same_guest b a
unfolding same_guest
same_guest_sym a b =
    rw (===_sym a b, ===_sym (basename a) (basename b), or_comm (ends_with a b) (ends_with b a))

same_guest_refl : (a : Text) → same_guest a a ≡ true
unfolding same_guest
same_guest_refl a = rw (===_refl a)

-- Every path denotes the same file as itself, and the order of the two paths makes no difference.
same_file_sym :
    (to_lower : Text → Text) (m : Mapper) (a b : Text)
    → (same_file to_lower m a a ≡ true) × (same_file to_lower m a b ≡ same_file to_lower m b a)
unfolding same_file
same_file_sym to_lower m a b = (
  same_guest_refl (to_debugger to_lower m a),
  same_guest_sym (to_debugger to_lower m a) (to_debugger to_lower m b),
)
