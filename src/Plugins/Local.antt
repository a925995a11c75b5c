-- ===== src/Plugins/Local.antt =====
-- pkg/plugins/manager_local.go: the methods of LocalManager. Names in requests are taken to be
-- not empty, without blanks at their ends and without a version specifier, and the search path is the list of its parts.
use cedana.Base.{
  ℕ, suc, ◌+◌, ◌==◌, String, str_eq, Bool, true, false, ◌||◌, not, Option, none, some, List, [],
  ◌∷◌, ◌++◌, if◌then◌else◌, Dict, store, length,
}
use cedana.Io.Compression.{codes, same}
use cedana.Plugins.Version.{
  unimplemented, unknown, available, installed, outdated, Binary, Plugin, Versions,
}
use cedana.Plugins.Files.{
  FileInfo, Layout, stat_file, checksum_of, sync_installed, is_installed_plugin,
}

-- What the manager works on: the directories, the sources of versions, the registry and the search path.
pub record Setup : Type 0 where
  pub layout : Layout
  pub versions : Versions
  pub registry : List Plugin
  pub search : List String

abbrev pub synced : Setup → Dict FileInfo → Plugin → Plugin
synced u fs p = sync_installed u.layout u.versions u.registry fs p

unfoldable pub entry : List Plugin → String → Option Plugin
entry [] name = none
entry (p ∷ ps) name = if str_eq p.name name then some p else entry ps name

unfoldable pub get : Setup → Dict FileInfo → String → Option Plugin
unfolding entry sync_installed
get u fs name = elim (entry u.registry name) [ none ↦ none | some p ↦ some (synced u fs p) ]

unfoldable pub is_installed : Setup → Dict FileInfo → String → Bool
unfolding entry sync_installed is_installed_plugin
is_installed u fs name = elim (entry u.registry name) [
  | none ↦ false
  | some p ↦ is_installed_plugin (synced u fs p)
]

-- The first directory of the search path that has the file.
unfoldable pub find_source :
    Setup → Dict FileInfo → List String → String → Option (String × FileInfo)
unfolding stat_file
find_source u fs [] file = none
find_source u fs (d ∷ ds) file = elim (stat_file fs (u.layout.link d file)) [
  | none ↦ find_source u fs ds file
  | some i ↦ some (d, i)
]

-- The loop over the files of a plugin: how many are found, the directory of the last one, the sum of
-- the sizes, the time of the last one, and the checksums.
pub record Sources : Type 0 where
  pub found : ℕ
  pub dir : String
  pub total_size : ℕ
  pub published : ℕ
  pub total_sum : List ℕ

abbrev pub no_sources : Sources
no_sources = record { found = 0; dir = ""; total_size = 0; published = 0; total_sum = [] }

unfoldable pub find_sources : Setup → Dict FileInfo → List Binary → Sources → Sources
unfolding find_source
find_sources u fs [] s = s
find_sources u fs (b ∷ bs) s = elim (find_source u fs u.search b.file_name) [
  | none ↦ find_sources u fs bs s
  | some (d, i) ↦ find_sources u fs bs record {
    found = suc s.found;
    dir = d;
    total_size = s.total_size + i.file_size;
    published = i.mod_time;
    total_sum = s.total_sum ++ i.sum;
  }
]

-- What a plugin whose files are all found becomes.
unfoldable pub offered : Sources → Plugin → Plugin
unfolding checksum_of
offered s p =
    let q = record p {
      available_version = codes "local";
      size = if p.size == 0 then s.total_size else p.size;
      published_at = s.published;
    } in
    let fresh =
      if same (checksum_of p) s.total_sum
      then record q { status = installed; version = codes "local" }
      else record q { status = outdated } in
    elim p.status [
      | installed ↦ fresh
      | outdated ↦ fresh
      | unknown ↦ record q { status = available }
      | available ↦ q
    ]

-- The body of the loop of List(true), for a plugin that is synced: its entry, and its source directory.
unfoldable pub with_sources : Setup → Dict FileInfo → Plugin → Dict String → Dict String × Plugin
unfolding find_sources offered
with_sources u fs p dirs =
    let files = p.libraries ++ p.binaries in
    let s = find_sources u fs files no_sources in
    if s.found == length files then (store p.name s.dir dirs, offered s p) else (dirs, p)

unfoldable pub listed_name : List String → String → Bool
listed_name [] name = false
listed_name (n ∷ ns) name = str_eq n name || listed_name ns name

-- The plugins that List goes through.
unfoldable pub is_listed : List String → Plugin → Bool
unfolding listed_name
is_listed filter p = elim p.type [
  | unimplemented ↦ false
  | _ ↦ elim filter [ [] ↦ true | n ∷ ns ↦ listed_name (n ∷ ns) p.name ]
]

unfoldable pub list_plugins :
    Setup
    → Dict FileInfo
    → Bool
    → List String
    → List Plugin
    → Dict String
    → Dict String × List Plugin
unfolding is_listed with_sources sync_installed
list_plugins u fs latest filter [] dirs = (dirs, [])
list_plugins u fs latest filter (p ∷ ps) dirs =
    let (dirs', q) = with_sources u fs (synced u fs p) dirs in
    let skipped = list_plugins u fs latest filter ps dirs in
    let (dirs'', rest) = list_plugins u fs latest filter ps dirs' in
    if not (is_listed filter p)
    then skipped
    else if latest
    then (dirs'', q ∷ rest)
    else (skipped.0, synced u fs p ∷ skipped.1)

-- The map from names of a list; a later entry of a name replaces an earlier one.
unfoldable pub available_set : List Plugin → Dict Plugin → Dict Plugin
available_set [] set = set
available_set (p ∷ ps) set = available_set ps (store p.name p set)
