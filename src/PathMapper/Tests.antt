-- ===== src/PathMapper/Tests.antt =====
-- Concrete runs of the theorems on src/pathMapper.ts.
use vscode_cann_debugger.Base.{
  true, false, Text, IsAmong, first, later, length, ◌≤◌, [], ◌∷◌, codes, ◌≡◌, refl,
}
use vscode_cann_debugger.Registers.{lower_case}
use vscode_cann_debugger.PathMapper.{
  PathMapperOptions, path_mapper, to_debugger, to_host, to_posix, is_prefix, trim_trailing_slash,
}
use vscode_cann_debugger.PathMapper.SameFile.{same_guest}
use vscode_cann_debugger.PathMapper.Longest.{Leads, guest_folder, moved, to_host-longest}
use vscode_cann_debugger.PathMapper.Drives.{unmapped, host_path, to_host-to_debugger}

abbrev two_maps : PathMapperOptions
two_maps = record {
  source_file_map =
      (codes "/src", codes "D:\\src") ∷ (codes "/src/kernels", codes "E:\\kernels") ∷ [];
  mnt_root = [];
  distro = [];
  passthrough = false;
}

to_host-longest_example :
    (g h : Text) × IsAmong (g, h) two_maps.source_file_map
    × Leads lower_case g (to_posix (codes "/src/kernels/k.cpp"))
    × (length (guest_folder (codes "/src/kernels")) ≤ length (guest_folder g))
    × (to_host lower_case (path_mapper lower_case two_maps) (codes "/src/kernels/k.cpp")
        ≡ moved (g, h) (to_posix (codes "/src/kernels/k.cpp")))
unfolding is_prefix lower_case to_posix trim_trailing_slash
to_host-longest_example =
    to_host-longest lower_case two_maps (codes "/src/kernels") (codes "E:\\kernels")
      (codes "src/kernels/k.cpp") refl (λ e. cc) (λ e. cc) (later first) refl

to_host-to_debugger_example :
    to_host lower_case (unmapped (codes "/mnt") (codes "Ubuntu")) (
      to_debugger lower_case
        (unmapped (codes "/mnt") (codes "Ubuntu"))
        (host_path b'D' (codes "a\\b")))
    ≡ host_path b'D' (codes "a\\b")
to_host-to_debugger_example =
    to_host-to_debugger lower_case (codes "mnt") (codes "Ubuntu") b'D' b'a' (codes "\\b")
      (refl, (refl, (refl, (refl, tt)))) refl (refl, (refl, (refl, tt))) refl

-- A suffix that starts within a folder's name is taken for the same file.
within_folder : same_guest (codes "/src/foo/k.cpp") (codes "oo/k.cpp") ≡ true
unfolding same_guest
within_folder = refl
