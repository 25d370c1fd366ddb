-- ===== src/PathMapper.antt =====
-- Path translation between host and guest: src/pathMapper.ts. Letters of patterns and of drives are
-- ASCII; `toLowerCase` of a whole path is an argument, `to_lower`.
pub mod Slashes
pub mod Drives
pub mod Order
pub mod Longest
pub mod Prefix
pub mod SameFile
mod Tests
use vscode_cann_debugger.Base.{
  ℕ, zero, suc, Bool, true, false, not, ◌&&◌, ◌||◌, Option, none, some, List, [], ◌∷◌, ◌++◌, Text,
  codes, length, drop, ltb, leb, ◌==◌, if◌then◌else◌,
}
use vscode_cann_debugger.Mi.CString.{replace_unit}
use vscode_cann_debugger.Registers.{lower, upper}

pub record MapEntry : Type 0 where
  pub guest : Text
  pub host : Text
  pub host_key : Text

-- The fields of the class; `entries` is sorted by its constructor.
pub record Mapper : Type 0 where
  pub entries : List MapEntry
  pub mnt_root : Text
  pub distro : Text
  pub passthrough : Bool

-- `source_file_map` is the list of `Object.entries`, in its order.
pub record PathMapperOptions : Type 0 where
  pub source_file_map : List (Text × Text)
  pub mnt_root : Text
  pub distro : Text
  pub passthrough : Bool

unfoldable pub to_posix : Text → Text
unfolding replace_unit
to_posix p = replace_unit b'\\' (codes "/") p

unfoldable pub to_windows : Text → Text
unfolding replace_unit
to_windows p = replace_unit b'/' (codes "\\") p

onto_end : (ℕ → Bool) → ℕ → Text → Text
onto_end test c [] = if test c then [] else c ∷ []
onto_end test c (d ∷ t) = c ∷ d ∷ t

unfoldable pub drop_end : (ℕ → Bool) → Text → Text
unfolding onto_end
drop_end test [] = []
drop_end test (c ∷ t) = onto_end test c (drop_end test t)

unfoldable pub trim_trailing_slash : Text → Text
unfolding drop_end
trim_trailing_slash p = if ltb 1 (length p) then drop_end (λ c. c == b'/') p else p

abbrev pub is_drive_letter : ℕ → Bool
is_drive_letter c = leb b'a' c && leb c b'z' || leb b'A' c && leb c b'Z'

-- `/^[a-zA-Z]:\\?$/`.
is_drive_root : Text → Bool
is_drive_root (c ∷ d ∷ []) = is_drive_letter c && d == b':'
is_drive_root (c ∷ d ∷ e ∷ []) = is_drive_letter c && d == b':' && e == b'\\'
is_drive_root _ = false

unfoldable pub trim_trailing_backslash : Text → Text
unfolding is_drive_root drop_end
trim_trailing_backslash p = if is_drive_root p then p else drop_end (λ c. c == b'/' || c == b'\\') p

-- `replace(/^\/+/, '')`.
unfoldable pub drop_slashes : Text → Text
drop_slashes [] = []
drop_slashes (c ∷ t) = let behind = drop_slashes t in if c == b'/' then behind else c ∷ t

-- `r ? start + r : otherwise`.
abbrev with_rest : Text → Text → Text → Text
with_rest start otherwise [] = otherwise
with_rest start otherwise (c ∷ r) = start ++ (c ∷ r)

unfoldable pub join_posix : Text → Text → Text
unfolding trim_trailing_slash drop_slashes
join_posix base rest =
    let b = trim_trailing_slash base in with_rest (b ++ codes "/") b (drop_slashes rest)

unfoldable pub starts_with : Text → Text → Bool
starts_with value [] = true
starts_with [] (c ∷ prefix) = false
starts_with (v ∷ value) (c ∷ prefix) = v == c && starts_with value prefix

unfoldable pub ends_in : Text → ℕ → Bool
ends_in [] sep = false
ends_in (c ∷ []) sep = c == sep
ends_in (c ∷ d ∷ t) sep = ends_in (d ∷ t) sep

unfoldable pub unit_at : ℕ → Text → Option ℕ
unit_at n [] = none
unit_at zero (c ∷ t) = some c
unit_at (suc n) (c ∷ t) = unit_at n t

abbrev is_unit : Option ℕ → ℕ → Bool
is_unit none sep = false
is_unit (some c) sep = c == sep

abbrev is_empty : Text → Bool
is_empty [] = true
is_empty (c ∷ t) = false

unfoldable pub is_prefix : Text → Text → ℕ → Bool
unfolding starts_with ends_in unit_at
is_prefix value prefix sep =
    if is_empty prefix
    then false
    else if not (starts_with value prefix)
    then false
    else if length value == length prefix
    then true
    else ends_in prefix sep || is_unit (unit_at (length prefix) value) sep

-- `entries.sort(…)`, which is stable: longer guests first.
insert : MapEntry → List MapEntry → List MapEntry
insert e [] = e ∷ []
insert e (x ∷ xs) =
    let later = x ∷ insert e xs in
    if leb (length x.guest) (length e.guest) then e ∷ x ∷ xs else later

unfoldable pub sort : List MapEntry → List MapEntry
unfolding insert
sort [] = []
sort (e ∷ es) = insert e (sort es)

-- `/^[a-zA-Z]:[\\/]/`.
unfoldable pub is_win_abs : Text → Bool
is_win_abs (c ∷ d ∷ e ∷ t) = is_drive_letter c && d == b':' && (e == b'\\' || e == b'/')
is_win_abs _ = false

-- A word of a pattern under the flag `i`.
word : Text → Text → Option Text
unfolding lower
word [] t = some t
word (w ∷ ws) [] = none
word (w ∷ ws) (c ∷ t) = let behind = word ws t in if lower c == w then behind else none

infixl 5 ◌>>=◌
abbrev ◌>>=◌ {ℓ κ} : {A : Type ℓ} {B : Type κ} → Option A → (A → Option B) → Option B
none >>= f = none
some a >>= f = f a

either_word : Text → Text → Text → Option Text
unfolding word
either_word v w t = elim (word v t) as (λ _. Option Text) [ none ↦ word w t | some b ↦ some b ]

-- `.` takes no line terminator.
is_line : Text → Bool
is_line [] = true
is_line (c ∷ t) = not (c == 10 || c == 13 || c == 0x2028 || c == 0x2029) && is_line t

-- Behind the distro's name: its separator, if there is one, and the path.
behind_distro : Text → Text
behind_distro [] = []
behind_distro (c ∷ t) = let later = behind_distro t in if c == b'\\' then t else later

distro_path : Text → Option Text
unfolding is_line behind_distro
distro_path [] = none
distro_path (c ∷ t) =
    if not (c == b'\\') && is_line (behind_distro t) then some (behind_distro t) else none

-- `UNC_WSL.exec(…)?.[2]`. The distro's name ends at the first backslash; a path behind it that is no
-- line fails for every shorter name, too.
unfoldable pub unc_path : Text → Option Text
unfolding word either_word distro_path
unc_path p = word (codes "\\\\wsl") p >>= λ t.
    either_word (codes "$") (codes ".localhost") t >>= λ t.
    word (codes "\\") t >>= λ t. distro_path t

drive_path : Mapper → Text → Text
unfolding to_posix join_posix lower is_win_abs
drive_path m (c ∷ d ∷ e ∷ t) =
    if is_win_abs (c ∷ d ∷ e ∷ t)
    then join_posix (m.mnt_root ++ codes "/" ++ lower c ∷ []) (to_posix (e ∷ t))
    else to_posix (c ∷ d ∷ e ∷ t)
drive_path m win = to_posix win

mapped_to_guest : List MapEntry → Text → Text → Option Text
unfolding is_prefix to_posix join_posix
mapped_to_guest [] win win_key = none
mapped_to_guest (e ∷ es) win win_key =
    let later = mapped_to_guest es win win_key in
    if is_prefix win_key e.host_key b'\\'
    then some (join_posix e.guest (to_posix (drop (length e.host) win)))
    else later

or_else : Option Text → Text → Text
or_else none t = t
or_else (some p) t = p

mapped_to_host : (Text → Text) → List MapEntry → Text → Option Text
unfolding is_prefix to_windows drop_slashes
mapped_to_host to_lower [] guest = none
mapped_to_host to_lower (e ∷ es) guest =
    let later = mapped_to_host to_lower es guest in
    let rest = drop_slashes (drop (length e.guest) guest) in
    if is_prefix (to_lower guest) (to_lower e.guest) b'/'
    then some (with_rest (e.host ++ codes "\\") e.host (to_windows rest))
    else later

-- `^root/([a-zA-Z])(/|$)`: the drive and the path behind it.
pub drive_of : Text → Text → Option (ℕ × Text)
drive_of (r ∷ root) [] = none
drive_of (r ∷ root) (c ∷ t) = let behind = drive_of root t in if c == r then behind else none
drive_of [] (s ∷ c ∷ []) = if s == b'/' && is_drive_letter c then some (c, []) else none
drive_of [] (s ∷ c ∷ d ∷ t) =
    if s == b'/' && is_drive_letter c && d == b'/' then some (c, d ∷ t) else none
drive_of [] _ = none

guest_local : Mapper → Text → Text → Text
unfolding starts_with to_windows drop_slashes
guest_local m path guest =
    if starts_with guest (codes "/") && not (is_empty m.distro)
    then codes "\\\\wsl$\\" ++ m.distro ++ codes "\\" ++ to_windows (drop_slashes guest)
    else path

drive_or_local : Mapper → Text → Text → Option (ℕ × Text) → Text
unfolding upper to_windows drop_slashes guest_local
drive_or_local m path guest none = guest_local m path guest
drive_or_local m path guest (some (c, t)) =
    let root = upper c ∷ codes ":\\" in with_rest root root (to_windows (drop_slashes t))

module _ (to_lower : Text → Text) where
  entry_of : Text × Text → MapEntry
  unfolding trim_trailing_slash trim_trailing_backslash to_posix to_windows
  entry_of (guest, host) =
      let h = trim_trailing_backslash (to_windows host) in
      record { guest = trim_trailing_slash (to_posix guest); host = h; host_key = to_lower h }

  entries_of : List (Text × Text) → List MapEntry
  unfolding entry_of
  entries_of [] = []
  entries_of ((guest, host) ∷ es) =
      let others = entries_of es in
      if is_empty guest || is_empty host then others else entry_of (guest, host) ∷ others

  -- The constructor.
  unfoldable pub path_mapper : PathMapperOptions → Mapper
  unfolding entries_of sort trim_trailing_slash
  path_mapper o = record {
    entries = sort (entries_of o.source_file_map);
    mnt_root = trim_trailing_slash (if is_empty o.mnt_root then codes "/mnt" else o.mnt_root);
    distro = o.distro;
    passthrough = o.passthrough;
  }

  from_host : Mapper → Text → Option Text → Text
  unfolding to_posix to_windows drop_slashes mapped_to_guest or_else drive_path
  from_host m path (some rest) = b'/' ∷ drop_slashes (to_posix rest)
  from_host m path none =
      let win = to_windows path in
      or_else (mapped_to_guest m.entries win (to_lower win)) (drive_path m win)

  unfoldable pub to_debugger : Mapper → Text → Text
  unfolding starts_with to_posix unc_path from_host
  to_debugger m path =
      if is_empty path || m.passthrough
      then path
      else if starts_with path (codes "/")
      then to_posix path
      else from_host m path (unc_path path)

  unfoldable pub to_host : Mapper → Text → Text
  unfolding is_win_abs starts_with to_posix to_windows mapped_to_host or_else drive_of
      drive_or_local
  to_host m path =
      let guest = to_posix path in
      if is_empty path || m.passthrough
      then path
      else if is_win_abs path || starts_with path (codes "\\\\")
      then to_windows path
      else or_else (mapped_to_host to_lower m.entries guest)
          (drive_or_local m path guest (drive_of m.mnt_root guest))
