-- ===== src/Manager/Adapters.antt =====
-- internal/cedana/job/run_adapters.go and restore_adapters.go: the adapters that create and manage a
-- job around the handlers that start or restore its process. The handlers that follow (`next`), the
-- generated name and proto.Merge are parameters. A request is taken to have details; the source
-- dereferences them, or stops with a nil pointer.
use Prim.Native.String.{◌++◌ as text_append}
use cedana.Base.{ℕ, String, str_eq, Bool, not, ◌&&◌, Option, none, some, load, store, if◌then◌else◌}
use cedana.Job.{Details, Job, set_details, set_log, is_running}
use cedana.Manager.State.{Checkpoint, Manager, Error, ok, err, Env}
use cedana.Manager.Jobs.{new, get, manage}
use cedana.Manager.Checkpoints.{delete_job, get_latest_checkpoint}

pub record Request : Type 0 where
  pub req_type : String
  pub req_log : String
  pub req_path : String
  pub req_details : Details
  pub attachable : Bool

-- A handler may change the manager and the request; it answers the PID, unless it fails.
abbrev pub Next : Type 0
Next = Request → Manager → Manager × Option (Request × ℕ)

pub data Outcome : Type 0 where
  started : ℕ → Outcome
  not_created : Error → Outcome
  without_jid without_job still_running without_checkpoint not_started : Outcome
  not_managed : Error → Outcome

-- A change through the pointer to a job that the manager keeps.
unfoldable pub update : String → (Job → Job) → Manager → Manager
update jid f m = elim (load jid m.jobs) [
  | none ↦ m
  | some job ↦ record m { jobs = store jid (f job) m.jobs }
]

abbrev pub default_log : String → String
default_log jid = text_append "/var/log/cedana-output-" (text_append jid ".log")

-- The log file of a request, where the output is not attached and none was given.
unfoldable pub fill_log : String → Request → Request
fill_log jid req =
    if not req.attachable && str_eq req.req_log ""
    then record req { req_log = default_log jid }
    else req

-- The end of Manage of run_adapters.go, after the next handler.
unfoldable pub run_started : Env → String → Manager × Option (Request × ℕ) → Manager × Outcome
unfolding update set_details manage delete_job
run_started env jid (m, none) = (delete_job jid m, not_started)
run_started env jid (m, some (req, pid)) =
    let detailed = update jid (set_details req.req_details) m in
    elim (manage env jid pid detailed) [
      | ok managed ↦ (managed, started pid)
      | err e ↦ (delete_job jid detailed, not_managed e)
    ]

-- Manage of run_adapters.go, with the JID of the request.
unfoldable pub manage_run : Env → String → Next → String → Request → Manager → Manager × Outcome
unfolding new update fill_log set_log set_details run_started
manage_run env generated next req_jid req m =
    let jid = if str_eq req_jid "" then generated else req_jid in
    let req' = fill_log jid req in
    elim (new jid req.req_type m) [
      | err e ↦ (m, not_created e)
      | ok (created, job) ↦ run_started env jid (
          next req'
            (update jid (λ j. set_details req'.req_details (set_log req'.req_log j)) created))
    ]

unfoldable pub path_of : Option Checkpoint → String
path_of none = ""
path_of (some c) = c.path

-- The type, the log file, the details and the path of a restore, from the saved job.
unfoldable pub fill_restore :
    (Details → Details → Details) → String → Job → Manager → Request → Request
unfolding fill_log get_latest_checkpoint path_of
fill_restore merge jid job m req =
    let saved =
      if not req.attachable && str_eq req.req_log ""
      then record req { req_log = job.proto.log }
      else req in
    let logged = fill_log jid saved in
    record logged {
      req_type = job.proto.job_type;
      req_details = elim job.proto.details [
        | none ↦ req.req_details
        | some d ↦ merge d req.req_details
      ];
      req_path =
          if str_eq req.req_path "" then path_of (get_latest_checkpoint jid m) else req.req_path;
    }

-- The end of ManageRestore, after the next handler.
unfoldable pub restore_started : Env → String → Manager × Option (Request × ℕ) → Manager × Outcome
unfolding update set_details set_log manage
restore_started env jid (m, none) = (m, not_started)
restore_started env jid (m, some (req, pid)) =
    let saved = update jid (λ j. set_log req.req_log (set_details req.req_details j)) m in
    elim (manage env jid pid saved) [
      | ok managed ↦ (managed, started pid)
      | err e ↦ (saved, not_managed e)
    ]

unfoldable pub restore_job :
    Env → (Details → Details → Details) → Next → String → Request → Manager → Manager × Outcome
unfolding get fill_restore restore_started is_running
restore_job env merge next jid req m =
    let m' = (get env jid m).0 in
    elim (get env jid m).1 [
      | none ↦ (m', without_job)
      | some job ↦
          let req' = fill_restore merge jid job m' req in
          if is_running job
          then (m', still_running)
          else if str_eq req'.req_path ""
          then (m', without_checkpoint)
          else restore_started env jid (next req' m')
    ]

-- ManageRestore.
unfoldable pub manage_restore :
    Env → String → (Details → Details → Details) → Next → Request → Manager → Manager × Outcome
unfolding new restore_job
manage_restore env generated merge next req m =
    let d = req.req_details in
    let named = record req { req_details = record d { details_jid = generated } } in
    if not (str_eq d.details_jid "")
    then restore_job env merge next d.details_jid req m
    else if not req.attachable
    then (m, without_jid)
    else elim (new generated req.req_type m) [
      | err e ↦ (m, not_created e)
      | ok (created, job) ↦ restore_job env merge next generated named created
    ]
