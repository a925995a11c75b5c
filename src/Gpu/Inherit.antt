-- ===== src/Gpu/Inherit.antt =====
-- InheritFilesForRestore of internal/cedana/gpu/restore_adapters.go: the files that CRIU is to find
-- open when it restores a process that uses a GPU. A file that is opened is named by its path; numbers
-- of descriptors stay below 2^31. The matches of the regular expressions and the texts that Sprintf
-- makes are parameters.
use cedana.Base.{
  ℕ, ◌+◌, ◌==◌, String, str_eq, Bool, true, false, not, ◌&&◌, ◌||◌, Option, none, some, List, [],
  ◌∷◌, ◌++◌, length, is_some, if◌then◌else◌, Dict, load, store,
}
use cedana.Process.Node.{File, Mount}
use cedana.Process.Forest.{Tree}
use cedana.Process.Trees.{walk_tree}

-- What afero.File.Read of the metadata of a hostmem file comes to: the file cannot be opened or read, or
-- has a size in its first 8 bytes.
pub data Metadata : Type 0 where
  closed_metadata unread_metadata : Metadata
  sized : ℕ → Metadata

pub record Paths : Type 0 where
  -- Whether the path of a mount matches CONTROLLER_SHM_FILE_PATTERN.
  pub is_shm : String → Bool
  -- The last match of CONTROLLER_HOSTMEM_FILE_PATTERN, and the last two of the patterns of logs.
  pub match_hostmem : String → Option String
  pub match_interceptor_log : String → Option (String × String)
  pub match_tracer_log : String → Option (String × String)
  pub atoi : String → Option ℕ
  pub shm_path : String → String
  pub hostmem_path : String → ℕ → String
  pub interceptor_log_path : String → ℕ → String
  pub tracer_log_path : String → ℕ → String
  -- "file[%x:%x]" of a mount and an inode.
  pub external_key : ℕ → ℕ → String
  -- strings.TrimPrefix(path, "/").
  pub trim_slash : String → String
  pub has_prefix : String → String → Bool

-- The file system and the configuration: which files can be opened, what becomes of a hostmem file, the
-- metadata in the dump (`none` if Glob fails), the directory that EnsureLogDir makes for an id, and
-- whether config.Global.GPU.LogDir is set.
pub record Host : Type 0 where
  pub can_open : String → Bool
  pub can_create : String → Bool
  pub can_chmod : String → Bool
  pub can_truncate : String → ℕ → Bool
  pub metadata : Option (List Metadata)
  pub ensure_log_dir : String → Option String
  pub has_log_dir : Bool

-- What the adapter changes: the options ExtraFiles and InheritFdMap, InheritFd of the request, the id
-- and the log directory, the files to close, and the error.
pub record Inherit : Type 0 where
  pub extra_files : List String
  pub inherit_fd_map : Dict ℕ
  pub inherit_fds : List (String × ℕ)
  pub id : String
  pub log_dir : String
  pub to_close : List String
  pub failed : Bool

-- The size in the first metadata file that can be read, or 0.
unfoldable pub first_size : List Metadata → ℕ
first_size [] = 0
first_size (closed_metadata ∷ ms) = first_size ms
first_size (unread_metadata ∷ ms) = first_size ms
first_size (sized n ∷ ms) = n

unfoldable pub hostmem_size : Option (List Metadata) → ℕ
unfolding first_size
hostmem_size none = 0
hostmem_size (some ms) = first_size ms

-- Whether the hostmem file is there in the end.
unfoldable pub create_hostmem : Host → String → Bool
unfolding hostmem_size
create_hostmem hs path =
    let size : ℕ = hostmem_size hs.metadata in
    hs.can_create path && hs.can_chmod path && (size == 0 || hs.can_truncate path size)

-- The new path of a file: that it is none of ours, that the walk stops (with the error if `true`), or
-- a path.
pub data NewPath : Type 0 where
  not_ours : NewPath
  stop : Bool → NewPath
  reopen : Inherit → String → NewPath

-- The branch for hostmem files. The variable `err` that the failures set is one of this branch.
unfoldable pub hostmem_file : Paths → Host → Option ℕ → Inherit → NewPath
unfolding create_hostmem
hostmem_file ps hs none s = stop true
hostmem_file ps hs (some pid) s =
    let path : String = ps.hostmem_path s.id pid in
    if create_hostmem hs path then reopen s path else stop false

abbrev pub or_old : String → String → String
or_old id old = if str_eq id "" then old else id

abbrev pub in_log_dir : Inherit → String → Option String → NewPath
in_log_dir s path none = stop true
in_log_dir s path (some dir) = reopen (record s { log_dir = dir }) path

-- The branch for the logs of the interceptor, and that for those of the tracer.
unfoldable pub log_file : Host → (String → ℕ → String) → String → Option ℕ → Inherit → NewPath
log_file hs format old none s = stop true
log_file hs format old (some pid) s =
    let id : String = or_old s.id old in
    if hs.has_log_dir
    then in_log_dir (record s { id = id }) (format id pid) (hs.ensure_log_dir id)
    else reopen (record s { id = id }) "/dev/null"

abbrev pub choose_tracer : Paths → Host → Inherit → Option (String × String) → NewPath
choose_tracer ps hs s none = not_ours
choose_tracer ps hs s (some m) = log_file hs ps.tracer_log_path m.0 (ps.atoi m.1) s

abbrev pub choose_log :
    Paths → Host → Inherit → Option (String × String) → Option (String × String) → NewPath
choose_log ps hs s none tracer = choose_tracer ps hs s tracer
choose_log ps hs s (some m) tracer = log_file hs ps.interceptor_log_path m.0 (ps.atoi m.1) s

abbrev pub choose :
    Paths
    → Host
    → Inherit
    → Option String
    → Option (String × String)
    → Option (String × String)
    → NewPath
choose ps hs s none interceptor tracer = choose_log ps hs s interceptor tracer
choose ps hs s (some pid) interceptor tracer =
    if str_eq s.id ""
    then choose_log ps hs s interceptor tracer
    else hostmem_file ps hs (ps.atoi pid) s

unfoldable pub new_path : Paths → Host → String → Inherit → NewPath
unfolding hostmem_file log_file
new_path ps hs path s =
    choose ps hs s (ps.match_hostmem path) (ps.match_interceptor_log path)
      (ps.match_tracer_log path)

abbrev pub mem : ℕ → List ℕ → Bool
mem n [] = false
mem n (m ∷ ms) = (m == n) || mem n ms

-- The key under which CRIU knows the file, by the ids of the mounts of the process.
unfoldable pub file_key : Paths → List ℕ → File → String
file_key ps mounts f =
    if mem f.mount_id mounts
      || ps.has_prefix f.path "pipe"
      || ps.has_prefix f.path "socket"
      || ps.has_prefix f.path "anon_inode"
      || ps.has_prefix f.path "/memfd:"
    then ps.trim_slash f.path
    else ps.external_key f.mount_id f.inode

abbrev next_fd : Inherit → ℕ
next_fd s = 3 + length s.extra_files

-- Notes a file that has been opened under its key.
unfoldable pub register : Bool → String → String → Inherit → Inherit
register is_container key path s =
    if is_some (load key s.inherit_fd_map)
    then s
    else let fd : ℕ = next_fd s in
      let noted : Inherit = record s { inherit_fd_map = store key fd s.inherit_fd_map } in
      if is_container then noted else record noted {
        extra_files = s.extra_files ++ path ∷ [];
        inherit_fds = s.inherit_fds ++ (key, fd) ∷ [];
      }

abbrev pub open_new : Bool → Host → String → NewPath → Inherit → Inherit × Bool
open_new is_container hs key not_ours s = (s, true)
open_new is_container hs key (stop error) s = (record s { failed = error }, false)
open_new is_container hs key (reopen t path) s =
    if hs.can_open path
    then (register is_container key path (record t { to_close = t.to_close ++ path ∷ [] }), true)
    else (record t { failed = true }, false)

-- The function that the walk over the open files calls.
unfoldable pub inherit_file : Paths → Host → Bool → List ℕ → File → Inherit → Inherit × Bool
unfolding new_path file_key register
inherit_file ps hs is_container mounts f s =
    open_new is_container hs (file_key ps mounts f) (new_path ps hs f.path s) s

-- The function that the walk over the mounts calls, with whether this is a container and the ids so far.
unfoldable pub see_mount : Paths → Mount → Bool × List ℕ → (Bool × List ℕ) × Bool
see_mount ps m (c, ids) = ((c || ps.is_shm m.mount_point, m.id ∷ ids), true)

-- The adapter, up to the handler that follows: `none` is an error.
unfoldable pub inherit_open_files : Paths → Host → Bool → List ℕ → Tree → Inherit → Option Inherit
unfolding inherit_file walk_tree
inherit_open_files ps hs is_container mounts t s =
    let r : Inherit × Bool =
      walk_tree (λ p. p.open_files) (inherit_file ps hs is_container mounts) t s in
    if r.0.failed then none else some r.0

-- The part that inherits the controller's shared memory, whose key is made from the id in the state.
unfoldable pub inherit_shm : Paths → Host → Bool → String → Inherit → Option Inherit
unfolding register
inherit_shm ps hs is_container gpu_id s =
    let key : String = ps.trim_slash (ps.shm_path gpu_id) in
    let path : String = ps.shm_path s.id in
    if is_some (load key s.inherit_fd_map)
    then none
    else if not is_container && not (hs.can_open path)
    then none
    else let t : Inherit =
        if is_container then s else record s { to_close = s.to_close ++ path ∷ [] } in
      some (register is_container key path t)

-- The adapter once it knows whether this is a container, and the ids of the mounts.
unfoldable pub inherit_with :
    Paths → Host → Bool → List ℕ → String → Tree → Inherit → Option Inherit
unfolding inherit_shm inherit_open_files
inherit_with ps hs is_container mounts gpu_id t s = elim (inherit_shm ps hs is_container gpu_id s) [
  | none ↦ none
  | some u ↦ inherit_open_files ps hs is_container mounts t u
]

-- InheritFilesForRestore up to the handler that follows, of a request whose id is in the context.
unfoldable pub inherit_files_for_restore : Paths → Host → String → Tree → Inherit → Option Inherit
unfolding inherit_with see_mount
inherit_files_for_restore ps hs gpu_id t s =
    let m : (Bool × List ℕ) × Bool = walk_tree (λ p. p.mounts) (see_mount ps) t (false, []) in
    inherit_with ps hs m.0.0 m.0.1 gpu_id t s
