-- ===== src/Process/Inherit.antt =====
-- InheritFilesForRestore of internal/cedana/process/restore_adapters.go: the files that CRIU is to find
-- open when it restores a process. An *os.File is named by its path, and `none` is nil. Numbers of
-- descriptors stay below 2^31; the texts that Sprintf makes are parameters.
use cedana.Base.{
  ℕ, ◌+◌, ◌==◌, String, str_eq, Bool, true, false, not, ◌&&◌, ◌||◌, Option, none, some, List, [],
  ◌∷◌, ◌++◌, length, is_some, if◌then◌else◌, Dict, load, store,
}
use cedana.Process.Node.{File, Mount}
use cedana.Process.Forest.{Tree}
use cedana.Process.Trees.{walk_tree}

-- The request, the options and the calls of the system that the adapter reads.
pub record Restoring : Type 0 where
  pub attachable : Bool
  pub has_log : Bool
  pub serverless : Bool
  pub can_open : String → Bool
  -- "tty[%x:%x]" and "file[%x:%x]".
  pub tty_key : ℕ → ℕ → String
  pub external_key : ℕ → ℕ → String
  -- strings.TrimPrefix(path, "/").
  pub trim_slash : String → String
  pub has_prefix : String → String → Bool

-- What the adapter changes: ExtraFiles, InheritFdMap, InheritFd, the visited descriptors, the files to
-- close, and whether `err` is set.
pub record Inheriting : Type 0 where
  pub extra_files : List (Option String)
  pub inherit_fd_map : Dict ℕ
  pub inherit_fds : List (String × ℕ)
  pub visited : List ℕ
  pub to_close : List String
  pub error : Bool

abbrev pub mem : ℕ → List ℕ → Bool
mem n [] = false
mem n (m ∷ ms) = (m == n) || mem n ms

unfoldable pub is_external : Restoring → List ℕ → File → Bool
is_external r mounts f = not (
    mem f.mount_id mounts
    || r.has_prefix f.path "pipe"
    || r.has_prefix f.path "socket"
    || r.has_prefix f.path "anon_inode"
    || r.has_prefix f.path "/memfd:")

abbrev pub next_fd : Inheriting → ℕ
next_fd s = 3 + length s.extra_files

abbrev pub is_taken : String → Inheriting → Bool
is_taken key s = str_eq key "" || is_some (load key s.inherit_fd_map)

-- The end of the function that the walk calls: the file under a key, unless it is empty or taken.
unfoldable pub inherit_under : String → ℕ → Option String → Inheriting → Inheriting × Bool
inherit_under key fd extra s = if is_taken key s then (s, true) else (
  record s {
    inherit_fd_map = store key fd s.inherit_fd_map;
    extra_files = s.extra_files ++ extra ∷ [];
    inherit_fds = s.inherit_fds ++ (key, fd) ∷ [];
  },
  true,
)

-- What follows os.OpenFile: a file that cannot be opened leaves `err` set, and one that can resets it.
abbrev pub open_external : String → File → Inheriting → Bool → Inheriting × Bool
open_external key f s true =
    inherit_under key (next_fd s) (some f.path)
      (record s { error = false; to_close = s.to_close ++ f.path ∷ [] })
open_external key f s false = (record s { error = true }, true)

-- The branch for a file outside the mounts of the process that is no terminal.
unfoldable pub inherit_external : Restoring → File → Inheriting → Inheriting × Bool
unfolding inherit_under
inherit_external r f s =
    let key : String = r.external_key f.mount_id f.inode in
    if f.mount_id == 0 && f.inode == 0
    then (s, true)
    else if is_taken key s
    then (s, true)
    else open_external key f s (r.can_open f.path)

-- The descriptors of the daemon that stand for the standard ones without a server.
abbrev pub standard : ℕ → Option String
standard fd =
    if fd == 0
    then some "stdin"
    else if fd == 1
    then some "stdout"
    else if fd == 2
    then some "stderr"
    else none

abbrev pub serve_standard : Restoring → File → Inheriting → Option String → Inheriting × Bool
serve_standard r f s none = inherit_under "" 0 none s
serve_standard r f s (some own) = inherit_under (r.trim_slash f.path) (next_fd s) (some own) s

-- The branch for the other files, of a descriptor that is visited for the first time.
unfoldable pub inherit_internal : Restoring → File → Inheriting → Inheriting × Bool
unfolding inherit_under
inherit_internal r f s =
    if r.serverless
    then serve_standard r f s (standard f.fd)
    else if f.is_tty
    then (record s { error = true }, false)
    else if (f.fd == 0 && r.attachable) || ((f.fd == 1 || f.fd == 2) && (r.attachable || r.has_log))
    then inherit_under (r.trim_slash f.path) f.fd none s
    else inherit_under "" 0 none s

-- The function that the walk over the open files calls.
unfoldable pub inherit_open_file : Restoring → List ℕ → File → Inheriting → Inheriting × Bool
unfolding is_external inherit_external inherit_internal
inherit_open_file r mounts f s =
    if is_external r mounts f
    then if f.is_tty
      then inherit_under (r.tty_key f.rdev f.dev) f.fd none s
      else inherit_external r f s
    else if mem f.fd s.visited
    then (s, true)
    else inherit_internal r f (record s { visited = f.fd ∷ s.visited })

unfoldable pub note_mount : Mount → List ℕ → List ℕ × Bool
note_mount m ids = (m.id ∷ ids, true)

-- InheritFilesForRestore up to the handler that follows, of a request with a state; `none` is an error.
unfoldable pub inherit_process_files : Restoring → Tree → Inheriting → Option Inheriting
unfolding inherit_open_file note_mount walk_tree
inherit_process_files r t s =
    let mounts : List ℕ = (walk_tree (λ p. p.mounts) note_mount t []).0 in
    let u : Inheriting = (walk_tree (λ p. p.open_files) (inherit_open_file r mounts) t s).0 in
    if u.error then none else some u
