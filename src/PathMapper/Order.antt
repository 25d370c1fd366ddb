-- ===== src/PathMapper/Order.antt =====
-- The order of the mappings of src/pathMapper.ts: the constructor's `sort`.
use vscode_cann_debugger.Base.{
  ℕ, ◌≤◌, IsAmong, first, later, List, [], ◌∷◌, length, leb, All, arith, Bool-cases, inl, inr,
}
use vscode_cann_debugger.PathMapper.{MapEntry, insert, sort}

-- No entry's guest prefix is longer than that of an entry before it.
pub data IsLongestFirst : List MapEntry → Type 0 where
  none_left : IsLongestFirst []
  next :
      {e : MapEntry} {es : List MapEntry}
      → All (λ x. length x.guest ≤ length e.guest) es
      → IsLongestFirst es
      → IsLongestFirst (e ∷ es)

abbrev AtMost : ℕ → List MapEntry → Type 0
AtMost n = All (λ x. length x.guest ≤ n)

AtMost-weaken : (n m : ℕ) (es : List MapEntry) → n ≤ m → AtMost n es → AtMost m es
AtMost-weaken n m [] h hs = tt
AtMost-weaken n m (e ∷ es) h (h', hs) = (omega arith, AtMost-weaken n m es h hs)

insert-AtMost :
    (n : ℕ) (e : MapEntry) (es : List MapEntry)
    → length e.guest ≤ n
    → AtMost n es
    → AtMost n (insert e es)
unfolding insert
insert-AtMost n e [] h hs = (h, tt)
insert-AtMost n e (x ∷ xs) h (h', hs) = elim (Bool-cases (leb (length x.guest) (length e.guest))) [
  | inl b ↦ rw (b) (h, (h', hs))
  | inr b ↦ rw (b) (h', insert-AtMost n e xs h hs)
]

insert-IsLongestFirst :
    (e : MapEntry) (es : List MapEntry) → IsLongestFirst es → IsLongestFirst (insert e es)
unfolding insert
insert-IsLongestFirst e [] s = next tt none_left
insert-IsLongestFirst e (x ∷ xs) (next h s) =
    elim (Bool-cases (leb (length x.guest) (length e.guest))) [
      | inl b ↦
          let le : length x.guest ≤ length e.guest = ground arith in
          rw (b) (next (le, AtMost-weaken (length x.guest) (length e.guest) xs le h) (next h s))
      | inr b ↦
          let le : length e.guest ≤ length x.guest = ground arith in
          rw (b) (next (insert-AtMost (length x.guest) e xs le h) (insert-IsLongestFirst e xs s))
    ]

pub sort-IsLongestFirst : (es : List MapEntry) → IsLongestFirst (sort es)
unfolding sort
sort-IsLongestFirst [] = none_left
sort-IsLongestFirst (e ∷ es) = insert-IsLongestFirst e (sort es) (sort-IsLongestFirst es)

insert-here : (e : MapEntry) (es : List MapEntry) → IsAmong e (insert e es)
unfolding insert
insert-here e [] = first
insert-here e (x ∷ xs) = elim (Bool-cases (leb (length x.guest) (length e.guest))) [
  | inl b ↦ rw (b) first
  | inr b ↦ rw (b) (later (insert-here e xs))
]

insert-behind :
    (e : MapEntry) {y : MapEntry} (es : List MapEntry) → IsAmong y es → IsAmong y (insert e es)
unfolding insert
insert-behind e [] among = later among
insert-behind e (x ∷ xs) first = elim (Bool-cases (leb (length x.guest) (length e.guest))) [
  | inl b ↦ rw (b) (later first)
  | inr b ↦ rw (b) first
]
insert-behind e (x ∷ xs) (later a) = elim (Bool-cases (leb (length x.guest) (length e.guest))) [
  | inl b ↦ rw (b) (later (later a))
  | inr b ↦ rw (b) (later (insert-behind e xs a))
]

insert-All :
    (P : MapEntry → Type 0) (e : MapEntry) (es : List MapEntry)
    → P e
    → All P es
    → All P (insert e es)
unfolding insert
insert-All P e [] h hs = (h, tt)
insert-All P e (x ∷ xs) h (h', hs) = elim (Bool-cases (leb (length x.guest) (length e.guest))) [
  | inl b ↦ rw (b) (h, (h', hs))
  | inr b ↦ rw (b) (h', insert-All P e xs h hs)
]

pub sort-keeps : {y : MapEntry} (es : List MapEntry) → IsAmong y es → IsAmong y (sort es)
unfolding sort
sort-keeps [] among = among
sort-keeps (e ∷ es) first = insert-here e (sort es)
sort-keeps (e ∷ es) (later a) = insert-behind e (sort es) (sort-keeps es a)

pub sort-All : (P : MapEntry → Type 0) (es : List MapEntry) → All P es → All P (sort es)
unfolding sort
sort-All P [] hs = tt
sort-All P (e ∷ es) (h, hs) = insert-All P e (sort es) h (sort-All P es hs)
