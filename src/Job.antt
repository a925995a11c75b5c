-- ===== src/Job.antt =====
-- internal/cedana/job/job.go: the thread-safe wrapper of a job, and how its state follows the
-- process that it stands for (with the parts of FillProcessState of pkg/utils/process.go that it
-- reads). Each method runs under the job's lock, so it is one function from the job to the new job.
-- Of the messages ProcessState, Job and Details the fields that these methods read are kept.
pub mod State
pub mod Stat
use cedana.Base.{
  ℕ, String, ◌==◌, str_eq, Bool, true, false, not, ◌&&◌, Option, none, some, List, [], ◌∷◌,
  if◌then◌else◌,
}

pub record Host : Type 0 where
  pub id : String

pub record ProcessState : Type 0 where
  pub pid : ℕ
  pub status : String
  pub is_running : Bool
  pub host : Option Host
  pub gpu_enabled : Bool
  pub cmdline : String

-- Details: the JID that SetDetails fills in, and the rest of the message as an opaque text.
pub record Details : Type 0 where
  pub details_jid : String
  pub body : String

-- daemon.Job.
pub record JobProto : Type 0 where
  pub proto_jid : String
  pub job_type : String
  pub state : Option ProcessState
  pub details : Option Details
  pub log : String

-- The channel `done`: nil before the job is managed, open while it runs, and closed afterwards with
-- the error that a failed cleanup left in it.
pub data Done : Type 0 where
  no_channel : Done
  waiting : Done
  closed : Option String → Done

pub record Job : Type 0 where
  pub jid : String
  pub proto : JobProto
  pub done : Done

-- A process as gopsutil shows it; `none` for a query that fails.
pub record Process : Type 0 where
  pub proc_cmdline : Option String
  pub proc_status : Option String

-- What the daemon asks of its host: host.HostID, utils.GetHost, process.NewProcess, Getpgid, and
-- whether os.Stat says that a file is not there.
pub record System : Type 0 where
  pub host_id : Option String
  pub get_host : Option Host
  pub process : ℕ → Option Process
  pub getpgid : ℕ → Option ℕ
  pub file_missing : String → Bool

abbrev pub empty_state : ProcessState
empty_state = record {
  pid = 0;
  status = "";
  is_running = false;
  host = none;
  gpu_enabled = false;
  cmdline = "";
}

-- The getters of a protobuf message answer with the zero value at nil.
abbrev pub state_of : Option ProcessState → ProcessState
state_of none = empty_state
state_of (some s) = s

abbrev pub host_id_of : Option Host → String
host_id_of none = ""
host_id_of (some h) = h.id

unfoldable pub new_job : String → String → Option Host → Job
new_job jid job_type host = record {
  jid = jid;
  proto = record {
    proto_jid = jid;
    job_type = job_type;
    state = some (record empty_state { host = host });
    details = none;
    log = "";
  };
  done = no_channel;
}

unfoldable pub from_proto : JobProto → Job
from_proto p = record { jid = p.proto_jid; proto = p; done = no_channel }

unfoldable pub or_else {ℓ} : {A : Type ℓ} → Option A → A → A
or_else none d = d
or_else (some a) d = a

-- fillProcessNode.
unfoldable pub fill_process_node : System → ℕ → ProcessState → ProcessState
unfolding or_else
fill_process_node sys pid s = elim (sys.process pid) [
  | none ↦ record s { pid = pid }
  | some p ↦ record s {
    pid = pid;
    is_running = true;
    cmdline = or_else p.proc_cmdline s.cmdline;
    status = or_else p.proc_status s.status;
  }
]

-- FillProcessState, without the descendants.
unfoldable pub fill_process_state : System → ℕ → ProcessState → ProcessState
unfolding fill_process_node
fill_process_state sys pid s = elim sys.get_host [
  | none ↦ fill_process_node sys pid s
  | some h ↦ fill_process_node sys pid (record s { host = some h })
]

-- The state names another machine than this one.
unfoldable pub is_foreign : System → ProcessState → Bool
is_foreign sys s = elim sys.host_id [
  | none ↦ false
  | some here ↦ not (str_eq (host_id_of s.host) "") && not (str_eq (host_id_of s.host) here)
]

-- The command line of the process with the saved PID is the saved one, where one is saved.
unfoldable pub same_cmdline : Process → ProcessState → Bool
same_cmdline p s =
    if str_eq s.cmdline ""
    then true
    else elim p.proc_cmdline [ none ↦ false | some c ↦ str_eq s.cmdline c ]

unfoldable pub latest_state : System → Option ProcessState → ProcessState
unfolding is_foreign same_cmdline fill_process_state
latest_state sys none = record empty_state { status = "unknown" }
latest_state sys (some s) =
    if is_foreign sys s
    then record s { status = "remote"; is_running = false }
    else elim (sys.process s.pid) [
      | none ↦ record s { status = "halted"; is_running = false }
      | some p ↦
          let stale = record s { status = "stale"; is_running = true } in
          if same_cmdline p s then fill_process_state sys s.pid stale else stale
    ]

unfoldable pub latest_log : System → String → String
latest_log sys log = if sys.file_missing log then "" else log

-- Sync and SyncDeep, which differ in the descendants; with a state, that state is taken over.
unfoldable pub sync : System → Option ProcessState → Job → Job
unfolding latest_state latest_log
sync sys given j =
    let p = j.proto in
    record j {
      proto = record p {
        state = some (elim given [ some s ↦ s | none ↦ latest_state sys p.state ]);
        log = latest_log sys p.log;
      };
    }

unfoldable pub set_pid : ℕ → Job → Job
set_pid pid j =
    let p = j.proto in
    let s = state_of p.state in
    record j { proto = record p { state = some (record s { pid = pid }) } }

unfoldable pub get_pid : Job → ℕ
get_pid j = (state_of j.proto.state).pid

unfoldable pub get_pgid : System → Job → ℕ
unfolding get_pid or_else
get_pgid sys j = if get_pid j == 0 then 0 else or_else (sys.getpgid (get_pid j)) 0

unfoldable pub set_details : Details → Job → Job
set_details d j =
    let p = j.proto in
    record j { proto = record p { details = some (record d { details_jid = j.jid }) } }

unfoldable pub set_log : String → Job → Job
set_log log j = let p = j.proto in record j { proto = record p { log = log } }

unfoldable pub is_running : Job → Bool
is_running j = (state_of j.proto.state).is_running

unfoldable pub get_status : Job → String
get_status j = (state_of j.proto.state).status

unfoldable pub is_remote : Job → Bool
unfolding get_status
is_remote j = str_eq (get_status j) "remote"

unfoldable pub gpu_enabled : Job → Bool
gpu_enabled j = (state_of j.proto.state).gpu_enabled

unfoldable pub set_gpu_enabled : Bool → Job → Job
set_gpu_enabled b j =
    let p = j.proto in
    let s = state_of p.state in
    record j { proto = record p { state = some (record s { gpu_enabled = b }) } }
