-- ===== src/Plugins/Installed.antt =====
-- pkg/plugins/manager_local.go and plugin.go: a plugin whose files are all copied is installed.
use cedana.Base.{
  String, str_eq, ◌≡◌, refl, sym, subst, true, false, some, List, [], ◌∷◌, is_some, ◌⊎◌, eq_refl,
  All, All-map, arith, length, Dict, store, load-store, load-delete, Bool-cases, Option-cases, inl,
  inr,
}
use cedana.Plugins.Version.{Binary, Plugin, installed}
use cedana.Plugins.Files.{
  FileInfo, Layout, stat_file, file_path, paths_of, sync_files, sync_installed,
}
use cedana.Plugins.Local.{Setup, synced}
use cedana.Plugins.Copies.{Disk, remove_file, copy_file, install_files, install_plugin}

-- A file, and no directory, is at the path.
abbrev Present : Dict FileInfo → String → Type 0
Present fs path = is_some (stat_file fs path) ≡ true

remove_file-Present :
    (d : Disk) (fs : Dict FileInfo) (dest q : String)
    → str_eq dest q ≡ false
    → Present fs q
    → Present (remove_file d dest fs).0 q
unfolding remove_file stat_file
remove_file-Present d fs dest q n h = ground (arith, load-delete dest q fs)

stat_file_lem :
    (fs : Dict FileInfo) (path : String) (i : FileInfo)
    → stat_file fs path ≡ some i
    → i.is_dir ≡ false
unfolding stat_file
stat_file_lem fs path i h = ground arith

-- A copy that succeeds stores what is at the source, which is no directory.
copy_file_lem :
    (d : Disk) (fs : Dict FileInfo) (src dest : String)
    → (copy_file d src dest fs).1 ≡ true
    → (i : FileInfo) × ((i.is_dir ≡ false) × ((copy_file d src dest fs).0 ≡ store dest i fs))
unfolding copy_file
copy_file_lem d fs src dest h = elim (Option-cases (stat_file fs src)) [
  | inl e ↦ absurd (ground (arith, h, e))
  | inr (i, e) ↦ (i, (stat_file_lem fs src i e, ground (arith, h, e)))
]

stored-Present :
    (fs : Dict FileInfo) (dest q : String) (i : FileInfo)
    → i.is_dir ≡ false
    → (str_eq dest q ≡ true ⊎ Present fs q)
    → Present (store dest i fs) q
unfolding stat_file
stored-Present fs dest q i f h = ground (arith, load-store dest q i fs)

-- A path that the paths of `ps` or the file system have before is there afterwards.
abbrev Grows : Dict FileInfo → Dict FileInfo → Type 0
Grows fs fs' = (q : String) → Present fs q → Present fs' q

install_one :
    (d : Disk) (fs : Dict FileInfo) (src dest : String)
    → (copy_file d src dest (remove_file d dest fs).0).1 ≡ true
    → Present (copy_file d src dest (remove_file d dest fs).0).0 dest
      × Grows fs (copy_file d src dest (remove_file d dest fs).0).0
install_one d fs src dest good =
    let gone = (remove_file d dest fs).0 in
    let (i, (f, e)) = copy_file_lem d gone src dest good in
    rw e (
      stored-Present gone dest dest i f (inl (eq_refl dest)),
      λ q h. elim (Bool-cases (str_eq dest q)) [
        | inl t ↦ stored-Present gone dest q i f (inl t)
        | inr t ↦ stored-Present gone dest q i f (inr (remove_file-Present d fs dest q t h))
      ],
    )

module _ (u : Setup) (d : Disk) (src_dir dir : String) where
  abbrev Installs : List Binary → Dict FileInfo → Dict FileInfo → Type 0
  Installs bs fs fs' = All (Present fs') (paths_of u.layout dir bs) × Grows fs fs'

  install_files-step :
      (b : Binary) (bs : List Binary) (fs : Dict FileInfo)
      → (install_files u d src_dir dir (b ∷ bs) fs).1 ≡ true
      → let dest = file_path u.layout dir b in
        let step = copy_file d (u.layout.link src_dir b.file_name) dest (remove_file d dest fs).0 in
        (step.1 ≡ true)
        × ((install_files u d src_dir dir bs step.0).1 ≡ true)
        × ((install_files u d src_dir dir (b ∷ bs) fs).0
            ≡ (install_files u d src_dir dir bs step.0).0)
  unfolding install_files
  install_files-step b bs fs good = ground arith

  install_files-none : (fs : Dict FileInfo) → Grows fs (install_files u d src_dir dir [] fs).0
  unfolding install_files
  install_files-none fs q h = h

  install_files-Present :
      (bs : List Binary) (fs : Dict FileInfo)
      → (install_files u d src_dir dir bs fs).1 ≡ true
      → Installs bs fs (install_files u d src_dir dir bs fs).0
  unfolding paths_of
  install_files-Present [] fs good = (tt, install_files-none fs)
  install_files-Present (b ∷ bs) fs good =
      let dest = file_path u.layout dir b in
      let src = u.layout.link src_dir b.file_name in
      let step = copy_file d src dest (remove_file d dest fs).0 in
      let (one, more, same) = install_files-step b bs fs good in
      let (here, grows) = install_one d fs src dest one in
      let (rest, grows') = install_files-Present bs step.0 more in
      subst (Installs (b ∷ bs) fs) (sym same)
        ((grows' dest here, rest), λ q h. grows' q (grows q h))

sync_files-found :
    (l : Layout) (fs : Dict FileInfo) (dir : String) (bs : List Binary)
    → All (Present fs) (paths_of l dir bs)
    → (sync_files l fs dir bs).1 ≡ length bs
unfolding sync_files paths_of
sync_files-found l fs dir [] h = refl
sync_files-found l fs dir (b ∷ bs) h = ground (arith, sync_files-found l fs dir bs h.1, h.0)

synced-installed :
    (u : Setup) (fs : Dict FileInfo) (p : Plugin)
    → All (Present fs) (paths_of u.layout u.layout.lib_dir p.libraries)
    → All (Present fs) (paths_of u.layout u.layout.bin_dir p.binaries)
    → (synced u fs p).status ≡ installed
unfolding sync_installed
synced-installed u fs p h k = ground (
  arith,
  sync_files-found u.layout fs u.layout.lib_dir p.libraries h,
  sync_files-found u.layout fs u.layout.bin_dir p.binaries k,
)

install_plugin-parts :
    (u : Setup) (d : Disk) (src_dir : String) (p : Plugin) (fs : Dict FileInfo)
    → (install_plugin u d src_dir p fs).1 ≡ true
    → All
        (Present (install_plugin u d src_dir p fs).0)
        (paths_of u.layout u.layout.lib_dir p.libraries)
      × All
          (Present (install_plugin u d src_dir p fs).0)
          (paths_of u.layout u.layout.bin_dir p.binaries)
unfolding install_plugin
install_plugin-parts u d src_dir p fs good =
    let libs = install_files u d src_dir u.layout.lib_dir p.libraries fs in
    let (here, _) =
      install_files-Present u d src_dir u.layout.lib_dir p.libraries fs (ground (arith, good)) in
    let (there, grows) =
      install_files-Present u d src_dir u.layout.bin_dir p.binaries libs.0 (ground (arith, good)) in
    (
      All-map (Present libs.0)
          (Present (install_files u d src_dir u.layout.bin_dir p.binaries libs.0).0) grows
          (paths_of u.layout u.layout.lib_dir p.libraries) here,
      there,
    )

-- A plugin that Install reports as installed or updated, all of whose files are then copied, is found
-- installed by SyncInstalled afterwards, whatever was there before.
pub install_plugin-synced :
    (u : Setup) (d : Disk) (src_dir : String) (p : Plugin) (fs : Dict FileInfo)
    → (install_plugin u d src_dir p fs).1 ≡ true
    → (synced u (install_plugin u d src_dir p fs).0 p).status ≡ installed
install_plugin-synced u d src_dir p fs good =
    let (libs, bins) = install_plugin-parts u d src_dir p fs good in
    synced-installed u (install_plugin u d src_dir p fs).0 p libs bins
