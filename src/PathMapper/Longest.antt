-- ===== src/PathMapper/Longest.antt =====
-- The mapping that `toHost` of src/pathMapper.ts takes.
use vscode_cann_debugger.Base.{
  ◌≤◌, true, false, ◌++◌, drop, codes, subst, refl, sym, ap, ◌∙◌, ◌≡◌, ◌≢◌, IsAmong, first, later,
  All-IsAmong, ◌||◌, some, List, [], ◌∷◌, Text, length, All, arith, Bool-cases, inl, inr,
}
use vscode_cann_debugger.PathMapper.{
  to_posix, to_windows, trim_trailing_slash, trim_trailing_backslash, is_prefix, with_rest,
  drop_slashes, mapped_to_host, or_else, to_host, entry_of, is_empty, is_win_abs, starts_with,
  Mapper, MapEntry, PathMapperOptions, sort, entries_of, path_mapper,
}
use vscode_cann_debugger.PathMapper.Order.{
  IsLongestFirst, next, sort-IsLongestFirst, sort-keeps, sort-All,
}

-- What a mapping of the user is made into: a guest folder and a host folder.
abbrev pub guest_folder : Text → Text
guest_folder guest = trim_trailing_slash (to_posix guest)

abbrev pub host_folder : Text → Text
host_folder host = trim_trailing_backslash (to_windows host)

-- The guest folder leads to the path, in whole segments.
abbrev pub Leads : (Text → Text) → Text → Text → Type 0
Leads to_lower guest path = is_prefix (to_lower path) (to_lower (guest_folder guest)) b'/' ≡ true

-- The path below the guest folder, put below the host folder.
abbrev pub moved : Text × Text → Text → Text
moved (guest, host) path =
    with_rest (host_folder host ++ codes "\\") (host_folder host)
      (to_windows (drop_slashes (drop (length (guest_folder guest)) path)))

entries_of-keeps :
    (to_lower : Text → Text) (guest host : Text) (es : List (Text × Text))
    → guest ≢ []
    → host ≢ []
    → IsAmong (guest, host) es
    → IsAmong (entry_of to_lower (guest, host)) (entries_of to_lower es)
unfolding entries_of
entries_of-keeps to_lower [] host es hg hh among = absurd (hg refl)
entries_of-keeps to_lower (c ∷ guest) [] es hg hh among = absurd (hh refl)
entries_of-keeps to_lower (c ∷ guest) (d ∷ host) [] hg hh among = elim among [ ]
entries_of-keeps to_lower (c ∷ guest) (d ∷ host) (p ∷ es) hg hh first = first
entries_of-keeps to_lower (c ∷ guest) (d ∷ host) ((g, h) ∷ es) hg hh (later a) =
    elim (Bool-cases (is_empty g || is_empty h)) [
      | inl b ↦ rw (b) (entries_of-keeps to_lower (c ∷ guest) (d ∷ host) es hg hh a)
      | inr b ↦ rw (b) (later (entries_of-keeps to_lower (c ∷ guest) (d ∷ host) es hg hh a))
    ]

-- The entry of some mapping of the user.
abbrev Comes : (Text → Text) → List (Text × Text) → MapEntry → Type 0
Comes to_lower es e =
    (guest host : Text) × IsAmong (guest, host) es × (e ≡ entry_of to_lower (guest, host))

Comes-weaken :
    (to_lower : Text → Text) (p : Text × Text) (es : List (Text × Text)) (xs : List MapEntry)
    → All (Comes to_lower es) xs
    → All (Comes to_lower (p ∷ es)) xs
Comes-weaken to_lower p es [] hs = tt
Comes-weaken to_lower p es (x ∷ xs) ((g, h, a, e), hs) =
    ((g, h, later a, e), Comes-weaken to_lower p es xs hs)

entries_of-Comes :
    (to_lower : Text → Text) (es : List (Text × Text))
    → All (Comes to_lower es) (entries_of to_lower es)
unfolding entries_of
entries_of-Comes to_lower [] = tt
entries_of-Comes to_lower ((g, h) ∷ es) =
    let hs =
      Comes-weaken to_lower (g, h) es (entries_of to_lower es) (entries_of-Comes to_lower es) in
    elim (Bool-cases (is_empty g || is_empty h)) [
      | inl b ↦ rw (b) hs
      | inr b ↦ rw (b) ((g, h, first, refl), hs)
    ]

-- Of the entries that match a path the mapper takes a longest one.
mapped_to_host-longest :
    (to_lower : Text → Text) (P : MapEntry → Type 0) (path : Text) {e : MapEntry}
    (es : List MapEntry)
    → IsLongestFirst es
    → All P es
    → IsAmong e es
    → is_prefix (to_lower path) (to_lower e.guest) b'/' ≡ true
    → (x : MapEntry) × P x
      × (is_prefix (to_lower path) (to_lower x.guest) b'/' ≡ true)
      × (length e.guest ≤ length x.guest)
      × (mapped_to_host to_lower es path
          ≡ some (
              with_rest
                (x.host ++ codes "\\")
                x.host
                (to_windows (drop_slashes (drop (length x.guest) path)))))
unfolding mapped_to_host
mapped_to_host-longest to_lower P path [] s hs among m = elim among [ ]
mapped_to_host-longest to_lower P path (x ∷ xs) (next longest s) (h, hs) first m =
    (x, h, m, omega arith, rw m refl)
mapped_to_host-longest to_lower P path (x ∷ xs) (next longest s) (h, hs) (later a) m =
    elim (Bool-cases (is_prefix (to_lower path) (to_lower x.guest) b'/')) [
      | inl b ↦ (x, h, b, All-IsAmong _ xs longest a, rw b refl)
      | inr b ↦
          let (y, p, m', l, r) = mapped_to_host-longest to_lower P path xs s hs a m in
          (y, p, m', l, rw b r)
    ]

slash-is_win_abs : (t : Text) → is_win_abs (b'/' ∷ t) ≡ false
unfolding is_win_abs
slash-is_win_abs [] = refl
slash-is_win_abs (d ∷ []) = refl
slash-is_win_abs (d ∷ e ∷ t) = refl

to_host-mapped :
    (to_lower : Text → Text) (m : Mapper) (t p : Text)
    → m.passthrough ≡ false
    → mapped_to_host to_lower m.entries (to_posix (b'/' ∷ t)) ≡ some p
    → to_host to_lower m (b'/' ∷ t) ≡ p
unfolding to_host or_else starts_with
to_host-mapped to_lower m t p h e = rw (h, slash-is_win_abs t, e) refl

-- However the user wrote the map: where a mapping leads to a path of the guest, the path is put below
-- the host folder of a mapping that leads to it and whose guest folder is at least as long. So a
-- nested mapping beats its parent. Both sides of the mapping are not empty, and translation is on.
pub to_host-longest :
    (to_lower : Text → Text) (o : PathMapperOptions) (guest host t : Text)
    → o.passthrough ≡ false
    → guest ≢ []
    → host ≢ []
    → IsAmong (guest, host) o.source_file_map
    → Leads to_lower guest (to_posix (b'/' ∷ t))
    → (g h : Text) × IsAmong (g, h) o.source_file_map
      × Leads to_lower g (to_posix (b'/' ∷ t))
      × (length (guest_folder guest) ≤ length (guest_folder g))
      × (to_host to_lower (path_mapper to_lower o) (b'/' ∷ t) ≡ moved (g, h) (to_posix (b'/' ∷ t)))
unfolding path_mapper entry_of
to_host-longest to_lower o guest host t on hg hh among m =
    let es = entries_of to_lower o.source_file_map in
    let (x, (g, h, a, e), m', l, r) =
      mapped_to_host-longest to_lower (Comes to_lower o.source_file_map) (to_posix (b'/' ∷ t))
        (sort es) (sort-IsLongestFirst es)
        (sort-All (Comes to_lower o.source_file_map) es
          (entries_of-Comes to_lower o.source_file_map))
        (sort-keeps es (entries_of-keeps to_lower guest host o.source_file_map hg hh among)) m in
    (
      g,
      h,
      a,
      ap (λ y. is_prefix (to_lower (to_posix (b'/' ∷ t))) (to_lower y.guest) b'/') (sym e) ∙ m',
      subst (λ y. length (guest_folder guest) ≤ length y.guest) e l,
      to_host-mapped to_lower (path_mapper to_lower o) t _ on r
          ∙ ap
              (λ y.
                with_rest (y.host ++ codes "\\") y.host
                  (to_windows (drop_slashes (drop (length y.guest) (to_posix (b'/' ∷ t))))))
              e,
    )
