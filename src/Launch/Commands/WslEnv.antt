-- ===== src/Launch/Commands/WslEnv.antt =====
-- The WSLENV list of src/sshLauncher.ts: `appendWslEnv`.
use vscode_cann_debugger.Base.{
  ℕ, Bool, true, false, ◌||◌, ◌===◌, ===_iff, arith, ◌⊎◌, Option, none, some, List, [], ◌∷◌, ◌++◌,
  Text, codes, ◌==◌, ◌≡◌, refl, All, Bool-cases, inl, inr, if◌then◌else◌,
}
use vscode_cann_debugger.Launch.Shell.{join}
use vscode_cann_debugger.Launch.Commands.{
  split, onto_first, filter_set, wsl_entries, entry_name, some_named, append_wsl_env,
}

-- An entry of the list: not empty, and without the separator.
abbrev Unseparated : Text → Type 0
Unseparated = All (λ c. (c == b':') ≡ false)

pub data IsEntry : Text → Type 0 where
  entry : (c : ℕ) (t : Text) → Unseparated (c ∷ t) → IsEntry (c ∷ t)

split_whole : (p : Text) → Unseparated p → split b':' p ≡ p ∷ []
unfolding split onto_first
split_whole [] h = refl
split_whole (c ∷ p) (h, hs) = rw (split_whole p hs, h) refl

-- What stands in front of a separator is the first part.
split_front :
    (p behind : Text) → Unseparated p → split b':' (p ++ b':' ∷ behind) ≡ p ∷ split b':' behind
unfolding split onto_first
split_front [] behind h = refl
split_front (c ∷ p) behind (h, hs) = rw (split_front p behind hs, h) refl

onto_first-Unseparated :
    (x : ℕ) (ps : List Text)
    → (x == b':') ≡ false
    → All Unseparated ps
    → All Unseparated (onto_first x ps)
unfolding onto_first
onto_first-Unseparated x [] h hs = ((h, tt), tt)
onto_first-Unseparated x (p ∷ ps) h (h', hs) = ((h, h'), hs)

split-Unseparated : (t : Text) → All Unseparated (split b':' t)
unfolding split
split-Unseparated [] = (tt, tt)
split-Unseparated (x ∷ t) =
    let hs = split-Unseparated t in
    elim (Bool-cases (x == b':')) [
      | inl h ↦ rw (h) (tt, hs)
      | inr h ↦ rw (h) (onto_first-Unseparated x (split b':' t) h hs)
    ]

filter_set-IsEntry : (ps : List Text) → All Unseparated ps → All IsEntry (filter_set ps)
unfolding filter_set
filter_set-IsEntry [] hs = tt
filter_set-IsEntry ([] ∷ ps) (h, hs) = filter_set-IsEntry ps hs
filter_set-IsEntry ((c ∷ t) ∷ ps) (h, hs) = (entry c t h, filter_set-IsEntry ps hs)

wsl_entries-IsEntry : (t : Text) → All IsEntry (wsl_entries t)
unfolding wsl_entries
wsl_entries-IsEntry t = filter_set-IsEntry (split b':' t) (split-Unseparated t)

-- Reading a list of entries back.
wsl_entries-join : (ps : List Text) → All IsEntry ps → wsl_entries (join (codes ":") ps) ≡ ps
unfolding wsl_entries filter_set join split
wsl_entries-join [] hs = refl
wsl_entries-join (p ∷ []) (entry c t h, hs) = rw (split_whole (c ∷ t) h) refl
wsl_entries-join (p ∷ q ∷ ps) (entry c t h, hs) =
    rw (split_front (c ∷ t) (join (codes ":") (q ∷ ps)) h, wsl_entries-join (q ∷ ps) hs) refl

append-IsEntry :
    (ps : List Text) {q : Text} → All IsEntry ps → IsEntry q → All IsEntry (ps ++ q ∷ [])
append-IsEntry [] hs h = (h, tt)
append-IsEntry (p ∷ ps) (h', hs) h = (h', append-IsEntry ps hs h)

-- The entries of the list before: an absent variable has none.
abbrev pub entries_of : Option Text → List Text
entries_of none = wsl_entries []
entries_of (some t) = wsl_entries t

appended-entries :
    (ps : List Text) (e : Text)
    → All IsEntry ps
    → IsEntry e
    → wsl_entries (
        if some_named (entry_name e) ps
        then join (codes ":") ps
        else join (codes ":") (ps ++ e ∷ []))
      ≡ (if some_named (entry_name e) ps then ps else ps ++ e ∷ [])
appended-entries ps e hs h = elim (Bool-cases (some_named (entry_name e) ps)) [
  | inl b ↦ rw (b) (wsl_entries-join ps hs)
  | inr b ↦ rw (b) (wsl_entries-join (ps ++ e ∷ []) (append-IsEntry ps hs h))
]

-- Some entry of the list has the name.
pub data HasName (name : Text) : List Text → Type 0 where
  here : {p : Text} {ps : List Text} → entry_name p ≡ name → HasName name (p ∷ ps)
  later : {p : Text} {ps : List Text} → HasName name ps → HasName name (p ∷ ps)

some_named-HasName : (name : Text) (ps : List Text) → some_named name ps ≡ true → HasName name ps
unfolding some_named
some_named-HasName name [] h = cc
some_named-HasName name (p ∷ ps) h = elim (Bool-cases (entry_name p === name)) [
  | inl e ↦ here ((===_iff (entry_name p) name).0 e)
  | inr e ↦ later (some_named-HasName name ps (or-true _ _ e h))
]
  where
    or-true : (a b : Bool) → a ≡ false → (a || b) ≡ true → b ≡ true
    or-true true b e h = cc
    or-true false b e h = h

some_named-lacks : (name : Text) (ps : List Text) → some_named name ps ≡ false → ¬ HasName name ps
unfolding some_named
some_named-lacks name [] h n = elim n [ ]
some_named-lacks name (p ∷ ps) h (here e) =
    let same : (entry_name p === name) ≡ true = (===_iff (entry_name p) name).1 e in ground arith
some_named-lacks name (p ∷ ps) h (later n) = some_named-lacks name ps (or-false _ _ h) n
  where
    or-false : (a b : Bool) → (a || b) ≡ false → b ≡ false
    or-false true b h = cc
    or-false false b h = h

pub HasName-append : (ps : List Text) (e : Text) → HasName (entry_name e) (ps ++ e ∷ [])
HasName-append [] e = here refl
HasName-append (p ∷ ps) e = later (HasName-append ps e)

append_wsl_env-chosen :
    (existing : Option Text) (e : Text)
    → IsEntry e
    → wsl_entries (append_wsl_env existing e) ≡ (
        if some_named (entry_name e) (entries_of existing)
        then entries_of existing
        else entries_of existing ++ e ∷ [])
unfolding append_wsl_env
append_wsl_env-chosen none e h = appended-entries (wsl_entries []) e (wsl_entries-IsEntry []) h
append_wsl_env-chosen (some t) e h = appended-entries (wsl_entries t) e (wsl_entries-IsEntry t) h

-- Adding an entry to WSLENV drops and reorders nothing: where an old entry has the name of the new
-- one, the list's entries are the old ones, and where none has, they are the old ones with the
-- new entry last. An entry is any text that is not empty and holds no separator.
pub append_wsl_env-entries :
    (existing : Option Text) (e : Text)
    → IsEntry e
    → (HasName (entry_name e) (entries_of existing)
        × (wsl_entries (append_wsl_env existing e) ≡ entries_of existing))
      ⊎ ((¬ HasName (entry_name e) (entries_of existing))
          × (wsl_entries (append_wsl_env existing e) ≡ entries_of existing ++ e ∷ []))
append_wsl_env-entries existing e h =
    elim (Bool-cases (some_named (entry_name e) (entries_of existing))) [
      | inl b ↦ inl (
        some_named-HasName _ (entries_of existing) b,
        rw (append_wsl_env-chosen existing e h) (rw b refl),
      )
      | inr b ↦ inr (
        some_named-lacks _ (entries_of existing) b,
        rw (append_wsl_env-chosen existing e h) (rw b refl),
      )
    ]
