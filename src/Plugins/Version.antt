-- ===== src/Plugins/Version.antt =====
-- pkg/plugins/plugin.go: the plugin, and the version that SyncVersion fetches. Versions, file names in
-- tests for a suffix, and checksums are lists of bytes.
use mathlib.Core.List.{reverse}
use cedana.Base.{
  ℕ, String, ◌==◌, leb, Bool, true, false, ◌&&◌, not, Option, none, some, List, [], ◌∷◌,
  if◌then◌else◌, before_first, after_last,
}
use cedana.Io.Compression.{codes, slash, same}

pub data PluginType : Type 0 where
  unimplemented deprecated experimental external supported : PluginType

pub data Status : Type 0 where
  unknown available installed outdated : Status

pub record Binary : Type 0 where
  pub file_name : String
  pub checksum : List ℕ
  pub install_dir : String

pub record Plugin : Type 0 where
  pub name : String
  pub type : PluginType
  pub status : Status
  pub version : List ℕ
  pub available_version : List ℕ
  pub libraries : List Binary
  pub binaries : List Binary
  pub size : ℕ
  pub published_at : ℕ

-- The version symbol of a plugin, if it has one, and what a binary that succeeds prints for --version,
-- both without blanks at the ends.
pub record Versions : Type 0 where
  pub symbol : String → Option (List ℕ)
  pub output : String → Option (List ℕ)

abbrev pub unknown_version : List ℕ
unknown_version = codes "unknown"

unfoldable pub starts_with : List ℕ → List ℕ → Bool
starts_with [] ys = true
starts_with (x ∷ xs) [] = false
starts_with (x ∷ xs) (y ∷ ys) = x == y && starts_with xs ys

-- strings.HasSuffix(name, ".sh").
unfoldable pub is_script : String → Bool
unfolding starts_with
is_script name = starts_with (reverse (codes ".sh")) (reverse (codes name))

unfoldable pub fetched : Versions → Plugin → List ℕ
unfolding is_script
fetched v p = elim p.type [
  | supported ↦ elim (v.symbol p.name) [ none ↦ unknown_version | some s ↦ s ]
  | external ↦ elim p.binaries [
    | [] ↦ unknown_version
    | b ∷ bs ↦ if is_script b.file_name then unknown_version else elim (v.output b.file_name) [
      | none ↦ unknown_version
      | some [] ↦ unknown_version
      | some (c ∷ cs) ↦ c ∷ cs
    ]
  ]
  | _ ↦ unknown_version
]

-- Up to the first line break, if that is not at the start.
unfoldable pub first_line : List ℕ → List ℕ
unfolding before_first
first_line t = elim (before_first 10 t) [ none ↦ t | some [] ↦ t | some (c ∷ cs) ↦ c ∷ cs ]

-- After the last blank, if that is not at the start.
unfoldable pub last_word : List ℕ → List ℕ
unfolding after_last
last_word [] = []
last_word (c ∷ cs) = elim (after_last 32 cs) [ none ↦ c ∷ cs | some w ↦ w ]

unfoldable pub with_prefix : List ℕ → List ℕ
with_prefix [] = []
with_prefix (c ∷ cs) = if leb 48 c && leb c 57 then b'v' ∷ c ∷ cs else c ∷ cs

unfoldable pub normalized : List ℕ → List ℕ
unfolding first_line last_word with_prefix
normalized t = if same t unknown_version then t else with_prefix (last_word (first_line t))

unfoldable pub named : List Plugin → List ℕ → Option Plugin
named [] name = none
named (p ∷ ps) name = if same (codes p.name) name then some p else named ps name

-- SyncVersion. The name of a parent has no slash, so that a parent has no parent.
unfoldable pub sync_version : Versions → List Plugin → Plugin → List ℕ
unfolding normalized fetched named before_first
sync_version v registry p =
    let own = normalized (fetched v p) in
    if not (same own unknown_version) then own else elim (before_first slash (codes p.name)) [
      | none ↦ own
      | some parent ↦ elim (named registry parent) [
        | none ↦ own
        | some q ↦ normalized (fetched v q)
      ]
    ]
