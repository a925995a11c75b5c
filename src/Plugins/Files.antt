-- ===== src/Plugins/Files.antt =====
-- pkg/plugins/plugin.go: where the files of a plugin are, and SyncInstalled. The file system is a map
-- from paths; joining paths and the directories for libraries and binaries are parameters.
use cedana.Base.{
  ℕ, suc, ◌+◌, String, ltb, str_eq, Bool, true, false, Option, none, some, List, [], ◌∷◌, ◌++◌,
  if◌then◌else◌, Dict, load, length,
}
use cedana.Plugins.Version.{Binary, Plugin, installed, outdated, Versions, sync_version}

pub record FileInfo : Type 0 where
  pub is_dir : Bool
  pub file_size : ℕ
  pub sum : List ℕ
  pub mod_time : ℕ

-- `link` is filepath.Join. (Every file can be read, for its checksum.)
pub record Layout : Type 0 where
  pub link : String → String → String
  pub lib_dir : String
  pub bin_dir : String

-- os.Stat, and that it is no directory.
unfoldable pub stat_file : Dict FileInfo → String → Option FileInfo
unfolding load
stat_file fs path = elim (load path fs) [ none ↦ none | some i ↦ if i.is_dir then none else some i ]

abbrev pub file_path : Layout → String → Binary → String
file_path l dir b =
    if str_eq b.install_dir "" then l.link dir b.file_name else l.link b.install_dir b.file_name

unfoldable pub paths_of : Layout → String → List Binary → List String
paths_of l dir [] = []
paths_of l dir (b ∷ bs) = file_path l dir b ∷ paths_of l dir bs

unfoldable pub library_paths : Layout → Plugin → List String
unfolding paths_of
library_paths l p = paths_of l l.lib_dir p.libraries

unfoldable pub binary_paths : Layout → Plugin → List String
unfolding paths_of
binary_paths l p = paths_of l l.bin_dir p.binaries

unfoldable pub sums : List Binary → List ℕ
sums [] = []
sums (b ∷ bs) = b.checksum ++ sums bs

unfoldable pub checksum_of : Plugin → List ℕ
unfolding sums
checksum_of p = sums p.libraries ++ sums p.binaries

-- A loop of SyncInstalled: the files with the checksums of those that are there, how many these are,
-- and their size.
unfoldable pub sync_files : Layout → Dict FileInfo → String → List Binary → List Binary × ℕ × ℕ
unfolding stat_file
sync_files l fs dir [] = ([], 0, 0)
sync_files l fs dir (b ∷ bs) =
    let (rest, found, size) = sync_files l fs dir bs in
    elim (stat_file fs (file_path l dir b)) [
      | none ↦ (b ∷ rest, found, size)
      | some i ↦ (record b { checksum = i.sum } ∷ rest, suc found, i.file_size + size)
    ]

unfoldable pub sync_installed : Layout → Versions → List Plugin → Dict FileInfo → Plugin → Plugin
unfolding sync_files sync_version
sync_installed l v registry fs p =
    let (libs, found_libs, lib_size) = sync_files l fs l.lib_dir p.libraries in
    let (bins, found_bins, bin_size) = sync_files l fs l.bin_dir p.binaries in
    let with_libs = record p { libraries = libs } in
    let with_files = record p { libraries = libs; binaries = bins } in
    if ltb found_libs (length p.libraries)
    then with_libs
    else if ltb found_bins (length p.binaries)
    then with_files
    else record with_files {
      status = installed;
      size = lib_size + bin_size;
      version = sync_version v registry with_files;
    }

unfoldable pub is_installed_plugin : Plugin → Bool
is_installed_plugin p = elim p.status [ installed ↦ true | outdated ↦ true | _ ↦ false ]
