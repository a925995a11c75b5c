-- ===== src/Db/Values.antt =====
-- The values of the daemon that internal/db/db_sqlite.go stores, and the conversions from rows. The
-- encoding of a job's details is a parameter. Numbers of the machine are their bit patterns.
use cedana.Base.{
  ℕ, String, ◌+◌, ◌-◌, ◌*◌, ◌/◌, ◌%◌, ◌^◌, ltb, Bool, true, false, Option, none, some, List, [],
  if◌then◌else◌,
}
use cedana.Db.Ids.{encode_ids, decode_ids}
use cedana.Db.Rows.{HostRow, JobRow, CheckpointRow, positive}
use cedana.Process.Node.{File, Mount, Connection}
use cedana.Process.Forest.{Forest, nil}

pub record Cpu : Type 0 where
  pub physical_id : String
  pub vendor_id : String
  pub family : String
  pub count : ℕ

-- `memory` is the total of the host's Memory; the pointers CPU and Memory may be nil.
pub record DaemonHost : Type 0 where
  pub id : String
  pub mac : String
  pub hostname : String
  pub os : String
  pub platform : String
  pub kernel_version : String
  pub kernel_arch : String
  pub cpu : Option Cpu
  pub memory : Option ℕ

-- daemon.ProcessState, with the fields for which there is no column last.
pub record DaemonState : Type 0 where
  pub pid : ℕ
  pub cmdline : String
  pub start_time : ℕ
  pub working_dir : String
  pub status : String
  pub is_running : Bool
  pub gpu_enabled : Bool
  pub host : Option DaemonHost
  pub uids : List ℕ
  pub gids : List ℕ
  pub groups : List ℕ
  pub sid : ℕ
  pub open_files : List File
  pub open_connections : List Connection
  pub mounts : List Mount
  pub children : Forest

pub record DaemonJob (D : Type 0) : Type 0 where
  pub jid : String
  pub type : String
  pub log : String
  pub details : D
  pub state : Option DaemonState

pub record DaemonCheckpoint : Type 0 where
  pub id : String
  pub jid : String
  pub path : String
  pub time : ℕ
  pub size : ℕ

-- What the getters answer of a nil state.
abbrev pub no_state : DaemonState
no_state = record {
  pid = 0;
  cmdline = "";
  start_time = 0;
  working_dir = "";
  status = "";
  is_running = false;
  gpu_enabled = false;
  host = none;
  uids = [];
  gids = [];
  groups = [];
  sid = 0;
  open_files = [];
  open_connections = [];
  mounts = [];
  children = nil;
}

abbrev pub state_of : Option DaemonState → DaemonState
state_of none = no_state
state_of (some s) = s

abbrev pub host_id_of : Option DaemonHost → String
host_id_of none = ""
host_id_of (some h) = h.id

abbrev pub bit : Bool → ℕ
bit true = 1
bit false = 0

-- The argument of time.Unix(0, _) for a number of milliseconds: a product that wraps.
unfoldable pub nanoseconds : ℕ → ℕ
nanoseconds ms = ms * 1000000 % 2 ^ 64

-- UnixMilli: a signed number, rounded down.
unfoldable pub unix_milli : ℕ → ℕ
unix_milli ns = if ltb ns (2 ^ 63) then ns / 1000000 else 2 ^ 64 - (2 ^ 64 - ns + 999999) / 1000000

-- int64 of an int32.
unfoldable pub sign_extend : ℕ → ℕ
sign_extend n = if ltb n (2 ^ 31) then n else n + (2 ^ 64 - 2 ^ 32)

-- The parameters of CreateJob and UpdateJob, with the encoded details.
unfoldable pub job_row : {D : Type 0} → DaemonJob D → String → JobRow
unfolding nanoseconds encode_ids
job_row j bytes =
    let s = state_of j.state in
    record {
      jid = j.jid;
      type = j.type;
      gpu_enabled = bit s.gpu_enabled;
      log = j.log;
      details = bytes;
      pid = s.pid;
      cmdline = s.cmdline;
      start_time = nanoseconds s.start_time;
      working_dir = s.working_dir;
      status = s.status;
      is_running = bit s.is_running;
      host_id = host_id_of s.host;
      uids = encode_ids s.uids;
      gids = encode_ids s.gids;
      groups = encode_ids s.groups;
    }

-- The parameters of CreateHost and UpdateHost; `none` where CPU or Memory is missing.
unfoldable pub host_row : DaemonHost → Option HostRow
unfolding sign_extend
host_row h = elim h.cpu [
  | none ↦ none
  | some c ↦ elim h.memory [
    | none ↦ none
    | some total ↦ some record {
      id = h.id;
      mac = h.mac;
      hostname = h.hostname;
      os = h.os;
      platform = h.platform;
      kernel_version = h.kernel_version;
      kernel_arch = h.kernel_arch;
      cpu_physical_id = c.physical_id;
      cpu_vendor_id = c.vendor_id;
      cpu_family = c.family;
      cpu_count = sign_extend c.count;
      mem_total = total;
    }
  ]
]

unfoldable pub checkpoint_row : DaemonCheckpoint → CheckpointRow
unfolding nanoseconds
checkpoint_row c = record {
  id = c.id;
  jid = c.jid;
  path = c.path;
  time = nanoseconds c.time;
  size = c.size;
}

unfoldable pub from_db_checkpoint : CheckpointRow → DaemonCheckpoint
unfolding unix_milli
from_db_checkpoint c = record {
  id = c.id;
  jid = c.jid;
  path = c.path;
  time = unix_milli c.time;
  size = c.size;
}

-- int32 of an int64 is its low half.
unfoldable pub from_db_host : HostRow → DaemonHost
from_db_host h = record {
  id = h.id;
  mac = h.mac;
  hostname = h.hostname;
  os = h.os;
  platform = h.platform;
  kernel_version = h.kernel_version;
  kernel_arch = h.kernel_arch;
  cpu = some record {
    physical_id = h.cpu_physical_id;
    vendor_id = h.cpu_vendor_id;
    family = h.cpu_family;
    count = h.cpu_count % 2 ^ 32;
  };
  memory = some h.mem_total;
}

-- The row types of the three queries of jobs.
pub data JobQuery : Type 0 where
  list_jobs_row list_jobs_by_ids_row list_jobs_by_host_ids_row : JobQuery

unfoldable pub from_db_row :
    {D : Type 0} → (String → Option D) → JobRow × HostRow → Option (DaemonJob D)
unfolding unix_milli decode_ids from_db_host
from_db_row unmarshal (j, h) = elim (unmarshal j.details) [
  | none ↦ none
  | some d ↦ some record {
    jid = j.jid;
    type = j.type;
    log = j.log;
    details = d;
    state = some record {
      pid = j.pid % 2 ^ 32;
      cmdline = j.cmdline;
      start_time = unix_milli j.start_time;
      working_dir = j.working_dir;
      status = j.status;
      is_running = positive j.is_running;
      gpu_enabled = positive j.gpu_enabled;
      host = some (from_db_host h);
      uids = decode_ids j.uids;
      gids = decode_ids j.gids;
      groups = decode_ids j.groups;
      sid = 0;
      open_files = [];
      open_connections = [];
      mounts = [];
      children = nil;
    };
  }
]

-- fromDBJobRow: it knows the row types of two of the queries; `none` is an error.
unfoldable pub from_db_job_row :
    {D : Type 0} → (String → Option D) → JobQuery → JobRow × HostRow → Option (DaemonJob D)
unfolding from_db_row
from_db_job_row unmarshal list_jobs_row row = from_db_row unmarshal row
from_db_job_row unmarshal list_jobs_by_ids_row row = from_db_row unmarshal row
from_db_job_row unmarshal list_jobs_by_host_ids_row row = none
