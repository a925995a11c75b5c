-- ===== src/Gpu/Mounts.antt =====
-- The external mounts of a process that uses a GPU, and the adapters Restore and Dump:
-- restore_adapters.go and dump_adapters.go of internal/cedana/gpu. The patterns, package filepath and
-- os.Lstat are parameters; so are the texts that Sprintf makes.
use mathlib.Core.List.{append_assoc, append-nil}
use cedana.Base.{
  ℕ, ◌==◌, ltb, String, str_eq, Bool, true, not, ◌&&◌, Option, none, some, List, [], ◌∷◌, ◌++◌, map,
  ◌≡◌, refl, ap, sym, ◌∙◌, filter_by, Bool-cases, inl, inr, if◌then◌else◌,
}
use cedana.Process.Node.{Mount, MountInfo}
use cedana.Process.Forest.{Tree}
use cedana.Process.Trees.{walk_list, walk_tree, tree_values, walk_tree_lem}

pub record Files : Type 0 where
  -- NVIDIA_MOUNTS_PATTERN.
  pub is_nvidia : String → Bool
  -- mountinfo.GetMounts; `none` is an error.
  pub host_mounts : Option (List MountInfo)
  -- The length of a text.
  pub len : String → ℕ
  pub lstat : String → Bool
  -- filepath.Rel and Join.
  pub rel : String → String → Option String
  pub join_path : String → String → String
  -- Whether a path is ".." or begins with "../".
  pub leads_out : String → Bool
  -- "mnt[%s]:%s".
  pub mount_entry : String → String → String

-- From a device to a mount, and from the id of a mount to a path.
abbrev pub ByDevice : Type 0
ByDevice = List ((ℕ × ℕ) × MountInfo)

abbrev pub same_device : ℕ × ℕ → ℕ × ℕ → Bool
same_device (a, b) (c, d) = a == c && b == d

unfoldable pub device_mount : ℕ × ℕ → ByDevice → Option MountInfo
device_mount d [] = none
device_mount d ((e, m) ∷ ms) = if same_device e d then some m else device_mount d ms

unfoldable pub set_device : ℕ × ℕ → MountInfo → ByDevice → ByDevice
set_device d n [] = (d, n) ∷ []
set_device d n ((e, m) ∷ ms) = if same_device e d then (d, n) ∷ ms else (e, m) ∷ set_device d n ms

abbrev pub is_shorter : (String → ℕ) → MountInfo → Option MountInfo → Bool
is_shorter len m none = true
is_shorter len m (some c) = ltb (len m.info_root) (len c.info_root)

-- The loop over the mounts of the host.
unfoldable pub by_device : (String → ℕ) → List MountInfo → ByDevice → ByDevice
unfolding device_mount set_device
by_device len [] ms = ms
by_device len (m ∷ rest) ms =
    let d : ℕ × ℕ = (m.info_major, m.info_minor) in
    by_device len rest (if is_shorter len m (device_mount d ms) then set_device d m ms else ms)

abbrev pub MountSources : Type 0
MountSources = List (ℕ × String)

unfoldable pub source_of : ℕ → MountSources → Option String
source_of i [] = none
source_of i ((j, p) ∷ s) = if j == i then some p else source_of i s

unfoldable pub set_source : ℕ → String → MountSources → MountSources
set_source i p [] = (i, p) ∷ []
set_source i p ((j, q) ∷ s) = if j == i then (i, p) ∷ s else (j, q) ∷ set_source i p s

-- The fallback: the mount point, if it is there.
abbrev pub fallback : Files → Mount → MountSources → MountSources
fallback fs m s = if fs.lstat m.mount_point then set_source m.id m.mount_point s else s

abbrev pub resolve_in : Files → Mount → MountSources → MountInfo → Option String → MountSources
resolve_in fs m s h none = fallback fs m s
resolve_in fs m s h (some path) =
    if fs.leads_out path
    then fallback fs m s
    else set_source m.id (fs.join_path h.info_point path) s

abbrev pub resolve_on : Files → Mount → MountSources → Option MountInfo → MountSources
resolve_on fs m s none = fallback fs m s
resolve_on fs m s (some h) = resolve_in fs m s h (fs.rel h.info_root m.root)

-- The function that the walk over the mounts calls.
unfoldable pub resolve_mount : Files → ByDevice → Mount → MountSources → MountSources × Bool
unfolding device_mount set_source
resolve_mount fs ds m s =
    if fs.lstat m.root
    then (s, true)
    else (resolve_on fs m s (device_mount (m.major, m.minor) ds), true)

unfoldable pub resolve_external_mount_sources : Files → Tree → MountSources
unfolding resolve_mount by_device walk_tree
resolve_external_mount_sources fs t = elim fs.host_mounts [
  | none ↦ []
  | some ms ↦ (walk_tree (λ p. p.mounts) (resolve_mount fs (by_device fs.len ms [])) t []).0
]

abbrev pub or_root : String → Option String → String
or_root root none = root
or_root root (some p) = p

-- AddMountsForRestore: the function that its walk calls, and what it makes of External.
unfoldable pub add_mount : Files → MountSources → Mount → List String → List String × Bool
unfolding source_of
add_mount fs s m external =
    if fs.is_nvidia m.root
    then (external ++ fs.mount_entry m.mount_point (or_root m.root (source_of m.id s)) ∷ [], true)
    else (external, true)

unfoldable pub add_mounts_for_restore : Files → Tree → List String → List String
unfolding add_mount resolve_external_mount_sources
add_mounts_for_restore fs t external =
    (walk_tree (λ p. p.mounts) (add_mount fs (resolve_external_mount_sources fs t)) t external).0

-- gpuExternalMountKeys.
unfoldable pub add_key : Files → Mount → List String → List String × Bool
add_key fs m keys =
    if fs.is_nvidia m.root
    then (keys ++ fs.mount_entry m.mount_point m.mount_point ∷ [], true)
    else (keys, true)

unfoldable pub gpu_external_mount_keys : Files → Tree → List String
unfolding add_key walk_tree
gpu_external_mount_keys fs t = (walk_tree (λ p. p.mounts) (add_key fs) t []).0

-- Errors of Restore and Dump, and what they pass on: the request as it is, or one with the callbacks of
-- the controller with this id.
pub data Decision : Type 0 where
  please_install sync_failed attach_failed missing_state : Decision
  as_is : Decision
  with_gpu : String → Decision

-- Restore: whether the state says that a GPU is used, whether the plugin is installed, whether Sync
-- succeeds, the id of the request, and what Attach answers.
unfoldable pub restore_gpu : Bool → Bool → Bool → String → Option String → Decision
restore_gpu enabled installed synced id attached =
    if not enabled
    then as_is
    else if not installed
    then please_install
    else if not synced
    then sync_failed
    else if not (str_eq id "")
    then with_gpu id
    else elim attached [ none ↦ attach_failed | some new ↦ with_gpu new ]

-- Dump: whether there is a state, whether Sync succeeds, whether a controller is attached to the process,
-- and its id.
unfoldable pub dump_gpu : Bool → Bool → Bool → Bool → String → Decision
dump_gpu has_state synced attached installed id =
    if not has_state
    then missing_state
    else if not synced
    then sync_failed
    else if not attached
    then as_is
    else if not installed
    then please_install
    else with_gpu id

-- The entries that a walk over mounts appends are those of the matching mounts, in preorder.
module _ (test : Mount → Bool) (entry : Mount → String)
    (f : Mount → List String → List String × Bool)
    (step : (m : Mount) (ks : List String)
      → f m ks ≡ ((if test m then ks ++ entry m ∷ [] else ks), true)) where
  walk_list-entries :
      (ms : List Mount) (ks : List String)
      → (walk_list f ms ks).0 ≡ ks ++ map entry (filter_by test ms)
  unfolding walk_list filter_by
  walk_list-entries [] ks = sym (append-nil ks)
  walk_list-entries (m ∷ ms) ks = elim (Bool-cases (test m)) [
    | inl e ↦
        rw (step m ks, e)
          (walk_list-entries ms (ks ++ entry m ∷ [])
            ∙ append_assoc ks (entry m ∷ []) (map entry (filter_by test ms)))
    | inr e ↦ rw (step m ks, e) (walk_list-entries ms ks)
  ]

  walk_tree-entries :
      (t : Tree) (ks : List String)
      → (walk_tree (λ p. p.mounts) f t ks).0
        ≡ ks ++ map entry (filter_by test (tree_values (λ p. p.mounts) t))
  walk_tree-entries t ks =
      ap (λ r. r.0) (walk_tree_lem (λ p. p.mounts) f t ks)
      ∙ walk_list-entries (tree_values (λ p. p.mounts) t) ks

-- The entries of External that AddMountsForRestore appends are, for each mount of the
-- process and its descendants whose root matches the pattern of NVIDIA mounts, in preorder, its mount
-- point with the source that was found for it, or else with its root.
pub add_mounts_for_restore_lem :
    (fs : Files) (t : Tree) (external : List String)
    → add_mounts_for_restore fs t external
      ≡ external
        ++ map
            (λ m.
              fs.mount_entry m.mount_point
                (or_root m.root (source_of m.id (resolve_external_mount_sources fs t))))
            (filter_by (λ m. fs.is_nvidia m.root) (tree_values (λ p. p.mounts) t))
unfolding add_mounts_for_restore add_mount
add_mounts_for_restore_lem fs t external =
    let sources : MountSources = resolve_external_mount_sources fs t in
    walk_tree-entries (λ m. fs.is_nvidia m.root)
      (λ m. fs.mount_entry m.mount_point (or_root m.root (source_of m.id sources)))
      (add_mount fs sources)
      (λ m ks. elim (Bool-cases (fs.is_nvidia m.root)) [ inl e ↦ rw e refl | inr e ↦ rw e refl ]) t
      external

pub gpu_external_mount_keys_lem :
    (fs : Files) (t : Tree)
    → gpu_external_mount_keys fs t
      ≡ map
          (λ m. fs.mount_entry m.mount_point m.mount_point)
          (filter_by (λ m. fs.is_nvidia m.root) (tree_values (λ p. p.mounts) t))
unfolding gpu_external_mount_keys add_key
gpu_external_mount_keys_lem fs t =
    walk_tree-entries (λ m. fs.is_nvidia m.root) (λ m. fs.mount_entry m.mount_point m.mount_point)
      (add_key fs)
      (λ m ks. elim (Bool-cases (fs.is_nvidia m.root)) [ inl e ↦ rw e refl | inr e ↦ rw e refl ]) t
      []
