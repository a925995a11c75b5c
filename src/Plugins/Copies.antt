-- ===== src/Plugins/Copies.antt =====
-- pkg/plugins/manager_local.go: Install and Remove of LocalManager, with CopyFile of pkg/utils/files.go.
use cedana.Base.{
  String, Bool, true, false, ◌&&◌, ◌||◌, not, Option, none, some, List, [], ◌∷◌, if◌then◌else◌,
  Dict, load, store, delete,
}
use cedana.Plugins.Version.{installed, Binary, Plugin}
use cedana.Plugins.Files.{FileInfo, stat_file, file_path}
use cedana.Plugins.Local.{Setup, list_plugins, available_set}

-- What the operating system does where a call can fail: whether a path can be removed, whether a copy to
-- a path succeeds, and what a copy that fails leaves there.
pub record Disk : Type 0 where
  pub removable : String → Bool
  pub copies : String → Bool
  pub left : String → Option FileInfo

-- os.Remove, and whether it succeeds.
unfoldable pub remove_file : Disk → String → Dict FileInfo → Dict FileInfo × Bool
unfolding load delete
remove_file d path fs = elim (load path fs) [
  | none ↦ (fs, false)
  | some i ↦ if d.removable path then (delete path fs, true) else (fs, false)
]

abbrev pub leave : String → Option FileInfo → Dict FileInfo → Dict FileInfo
leave path none fs = fs
leave path (some i) fs = store path i fs

-- utils.CopyFile, of a file that must be there to a path that must not be a directory.
unfoldable pub copy_file : Disk → String → String → Dict FileInfo → Dict FileInfo × Bool
unfolding stat_file load store
copy_file d src dest fs =
    let failed = leave dest (d.left dest) fs in
    elim (stat_file fs src) [
      | none ↦ (fs, false)
      | some i ↦ elim (load dest fs) [
        | none ↦ if d.copies dest then (store dest i fs, true) else (failed, false)
        | some j ↦
            if j.is_dir
            then (fs, false)
            else if d.copies dest
            then (store dest i fs, true)
            else (failed, false)
      ]
    ]

-- A loop of Install over files: it ends at the first failure.
unfoldable pub install_files :
    Setup → Disk → String → String → List Binary → Dict FileInfo → Dict FileInfo × Bool
unfolding stat_file remove_file copy_file
install_files u d src_dir dir [] fs = (fs, true)
install_files u d src_dir dir (b ∷ bs) fs =
    let src = u.layout.link src_dir b.file_name in
    let dest = file_path u.layout dir b in
    let (fs', good) = copy_file d src dest (remove_file d dest fs).0 in
    elim (stat_file fs src) [
      | none ↦ (fs, false)
      | some i ↦ if good then install_files u d src_dir dir bs fs' else (fs', false)
    ]

-- Both loops of Install for one plugin; the second runs after a failure of the first too.
unfoldable pub install_plugin :
    Setup → Disk → String → Plugin → Dict FileInfo → Dict FileInfo × Bool
unfolding install_files
install_plugin u d src_dir p fs =
    let (fs', good) = install_files u d src_dir u.layout.lib_dir p.libraries fs in
    let (fs'', good') = install_files u d src_dir u.layout.bin_dir p.binaries fs' in
    (fs'', good && good')

-- What is reported of a name.
pub data Report : Type 0 where
  not_available already_installed not_installed failed done : Report

abbrev pub source_dir : Dict String → String → String
source_dir dirs name = elim (load name dirs) [ none ↦ "" | some d ↦ d ]

-- The body of the loop of Install over the names.
unfoldable pub install_one :
    Setup → Disk → Dict String → String → Option Plugin → Dict FileInfo → Dict FileInfo × Report
unfolding install_plugin
install_one u d dirs n none fs = (fs, not_available)
install_one u d dirs n (some p) fs =
    let (fs', good) = install_plugin u d (source_dir dirs n) p fs in
    elim p.status [ installed ↦ (fs, already_installed) | _ ↦ (fs', if good then done else failed) ]

unfoldable pub install_names :
    Setup
    → Disk
    → Dict String
    → Dict Plugin
    → List String
    → Dict FileInfo
    → Dict FileInfo × List Report
unfolding install_one load
install_names u d dirs set [] fs = (fs, [])
install_names u d dirs set (n ∷ ns) fs =
    let (fs', r) = install_one u d dirs n (load n set) fs in
    let (fs'', rs) = install_names u d dirs set ns fs' in (fs'', r ∷ rs)

unfoldable pub install :
    Setup → Disk → List String → Dict String → Dict FileInfo → Dict FileInfo × List Report
unfolding list_plugins available_set install_names
install u d names dirs fs =
    let (dirs', ps) = list_plugins u fs true names u.registry dirs in
    install_names u d dirs' (available_set ps []) names fs

-- A loop of Remove over files.
unfoldable pub remove_files :
    Setup → Disk → String → List Binary → Dict FileInfo → Dict FileInfo × Bool
unfolding remove_file
remove_files u d dir [] fs = (fs, true)
remove_files u d dir (b ∷ bs) fs =
    let (fs', good) = remove_file d (file_path u.layout dir b) fs in
    if good then remove_files u d dir bs fs' else (fs', false)

unfoldable pub remove_plugin : Setup → Disk → Plugin → Dict FileInfo → Dict FileInfo × Bool
unfolding remove_files
remove_plugin u d p fs =
    let (fs', good) = remove_files u d u.layout.lib_dir p.libraries fs in
    let (fs'', good') = remove_files u d u.layout.bin_dir p.binaries fs' in (fs'', good && good')

-- The body of the loop of Remove over the names, with whether its variable `err` is set before and after.
unfoldable pub remove_one :
    Setup → Disk → Option Plugin → Bool → Dict FileInfo → Dict FileInfo × Bool × Report
unfolding remove_plugin
remove_one u d none err fs = (fs, err, not_available)
remove_one u d (some p) err fs =
    let (fs', good) = remove_plugin u d p fs in
    let err' = err || not good in
    elim p.status [
      | installed ↦ (fs', err', if err' then failed else done)
      | _ ↦ (fs, err, not_installed)
    ]

unfoldable pub remove_names :
    Setup → Disk → Dict Plugin → Bool → List String → Dict FileInfo → Dict FileInfo × List Report
unfolding remove_one load
remove_names u d set err [] fs = (fs, [])
remove_names u d set err (n ∷ ns) fs =
    let (fs', err', r) = remove_one u d (load n set) err fs in
    let (fs'', rs) = remove_names u d set err' ns fs' in (fs'', r ∷ rs)

unfoldable pub remove : Setup → Disk → List String → Dict FileInfo → Dict FileInfo × List Report
unfolding list_plugins available_set remove_names
remove u d names fs =
    let ps = (list_plugins u fs false [] u.registry []).1 in
    remove_names u d (available_set ps []) false names fs
