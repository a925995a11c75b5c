-- ===== src/Process/Node.antt =====
-- fillProcessNode of pkg/utils/process.go: the state of one process as far as it can be read. Signed
-- and unsigned numbers of 32 and 64 bits are their bit patterns, so Int32ToUint32Slice keeps them.
use cedana.Base.{
  ℕ, ◌%◌, ◌^◌, String, Bool, true, false, ◌&&◌, Option, none, some, List, [], ◌∷◌, map, is_some,
}
use cedana.Job.{Host, or_else}

-- daemon.File.
pub record File : Type 0 where
  pub fd : ℕ
  pub path : String
  pub mode : String
  pub mount_id : ℕ
  pub inode : ℕ
  pub is_tty : Bool
  pub dev : ℕ
  pub rdev : ℕ

-- daemon.Mount.
pub record Mount : Type 0 where
  pub id : ℕ
  pub parent : ℕ
  pub major : ℕ
  pub minor : ℕ
  pub root : String
  pub mount_point : String
  pub options : String
  pub fs_type : String
  pub source : String

pub record Addr : Type 0 where
  pub ip : String
  pub port : ℕ

-- daemon.Connection.
pub record Connection : Type 0 where
  pub conn_fd : ℕ
  pub family : ℕ
  pub conn_type : ℕ
  pub laddr : Addr
  pub raddr : Addr
  pub conn_status : String
  pub conn_pid : ℕ
  pub conn_uids : List ℕ

-- daemon.ProcessState, without the children.
pub record State : Type 0 where
  pub pid : ℕ
  pub is_running : Bool
  pub host : Option Host
  pub cmdline : String
  pub start_time : ℕ
  pub sid : ℕ
  pub uids : List ℕ
  pub gids : List ℕ
  pub groups : List ℕ
  pub open_files : List File
  pub mounts : List Mount
  pub open_connections : List Connection
  pub status : String
  pub working_dir : String

-- What os.Stat answers for a path.
pub record Stat : Type 0 where
  pub stat_mode : String
  pub stat_dev : ℕ
  pub stat_rdev : ℕ

pub record FdInfo : Type 0 where
  pub mnt_id : ℕ
  pub ino : ℕ

-- An open file as gopsutil lists it, and what os.Stat, GetFdInfo and IsTTY answer for it; `none` for a
-- query that fails.
pub record FileProbe : Type 0 where
  pub probe_fd : ℕ
  pub probe_path : String
  pub os_stat : Option Stat
  pub fd_info : Option FdInfo
  pub tty : Option Bool

-- A mount as package mountinfo lists it; its numbers are ints.
pub record MountInfo : Type 0 where
  pub info_id : ℕ
  pub info_parent : ℕ
  pub info_major : ℕ
  pub info_minor : ℕ
  pub info_root : String
  pub info_point : String
  pub info_options : String
  pub info_type : String
  pub info_source : String

-- What the queries about a process answer, in the order in which they are asked. The file
-- /proc/<pid>/mountinfo can be missing, or be there and not be readable as mounts.
pub record Probe : Type 0 where
  pub read_cmdline : Option String
  pub read_create_time : Option ℕ
  pub read_sid : Option ℕ
  pub read_uids : Option (List ℕ)
  pub read_gids : Option (List ℕ)
  pub read_groups : Option (List ℕ)
  pub read_open_files : Option (List FileProbe)
  pub read_mountinfo : Option (Option (List MountInfo))
  pub read_connections : Option (List Connection)
  pub read_status : Option String
  pub read_cwd : Option String

-- What fillProcessNode leaves and whether it returns nil; or a nil dereference.
pub data Filled : Type 0 where
  filled : State → Bool → Filled
  panicked : Filled

unfoldable pub blank_file : FileProbe → File
blank_file f = record {
  fd = f.probe_fd;
  path = f.probe_path;
  mode = "";
  mount_id = 0;
  inode = 0;
  is_tty = false;
  dev = 0;
  rdev = 0;
}

unfoldable pub with_mode : Option Stat → File → File
with_mode none f = f
with_mode (some s) f = record f { mode = s.stat_mode }

unfoldable pub with_fd_info : Option FdInfo → File → File
with_fd_info none f = f
with_fd_info (some i) f = record f { mount_id = i.mnt_id; inode = i.ino }

-- The last query about a file reads `stat` again, which is nil where os.Stat has failed.
unfoldable pub with_tty : Option Bool → Option Stat → File → Option File
with_tty none s f = some f
with_tty (some t) none f = none
with_tty (some t) (some s) f = some (record f { is_tty = t; dev = s.stat_dev; rdev = s.stat_rdev })

-- The body of the loop over the open files; `none` is a nil dereference.
unfoldable pub fill_file : FileProbe → Option File
unfolding with_tty with_fd_info with_mode blank_file
fill_file p = with_tty p.tty p.os_stat (with_fd_info p.fd_info (with_mode p.os_stat (blank_file p)))

abbrev both : Option File → Option (List File) → Option (List File)
both none fs = none
both (some f) none = none
both (some f) (some fs) = some (f ∷ fs)

unfoldable pub fill_files : List FileProbe → Option (List File)
fill_files [] = some []
fill_files (p ∷ ps) = both (fill_file p) (fill_files ps)

-- The open files of the state: as before, where they cannot be listed.
unfoldable pub open_files_of : Option (List FileProbe) → List File → Option (List File)
unfolding fill_files
open_files_of none fs = some fs
open_files_of (some ps) fs = fill_files ps

unfoldable pub new_mount : MountInfo → Mount
new_mount m = record {
  id = m.info_id;
  parent = m.info_parent % 2 ^ 32;
  major = m.info_major % 2 ^ 32;
  minor = m.info_minor % 2 ^ 32;
  root = m.info_root;
  mount_point = m.info_point;
  options = m.info_options;
  fs_type = m.info_type;
  source = m.info_source;
}

unfoldable pub mounts_of : Option (Option (List MountInfo)) → List Mount → List Mount
unfolding new_mount
mounts_of none ms = ms
mounts_of (some none) ms = ms
mounts_of (some (some is)) ms = map new_mount is

abbrev is_parsed : Option (Option (List MountInfo)) → Bool
is_parsed none = false
is_parsed (some ms) = is_some ms

-- Whether errors.Join answers nil. An error of GetSID is not among the joined ones.
unfoldable pub no_errors : Probe → Bool
no_errors p =
    is_some p.read_cmdline
    && is_some p.read_create_time
    && is_some p.read_uids
    && is_some p.read_gids
    && is_some p.read_groups
    && is_some p.read_open_files
    && is_parsed p.read_mountinfo
    && is_some p.read_connections
    && is_some p.read_status
    && is_some p.read_cwd

-- The fields that the queries fill in; each keeps its value where its query fails.
unfoldable pub fill_fields : Probe → State → List File → State
unfolding or_else mounts_of
fill_fields p s files = record s {
  cmdline = or_else p.read_cmdline s.cmdline;
  start_time = or_else p.read_create_time s.start_time;
  sid = or_else p.read_sid s.sid;
  uids = or_else p.read_uids s.uids;
  gids = or_else p.read_gids s.gids;
  groups = or_else p.read_groups s.groups;
  open_files = files;
  mounts = mounts_of p.read_mountinfo s.mounts;
  open_connections = or_else p.read_connections s.open_connections;
  status = or_else p.read_status s.status;
  working_dir = or_else p.read_cwd s.working_dir;
}

unfoldable pub fill_process_node : (ℕ → Option Probe) → ℕ → State → Filled
unfolding open_files_of no_errors fill_fields
fill_process_node procs pid s = elim (procs pid) [
  | none ↦ filled (record s { pid = pid }) false
  | some p ↦ elim (open_files_of p.read_open_files s.open_files) [
    | none ↦ panicked
    | some fs ↦ filled (fill_fields p (record s { pid = pid; is_running = true }) fs) (no_errors p)
  ]
]
