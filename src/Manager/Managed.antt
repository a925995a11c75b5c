-- ===== src/Manager/Managed.antt =====
-- Manage of internal/cedana/job/run_adapters.go and ManageRestore of restore_adapters.go: which job
-- the manager has after them.
use cedana.Base.{
  ℕ, String, ◌≡◌, ◌≢◌, refl, ◌∙◌, inl, inr, eq_iff, eq_refl, str_eq, true, false, Option, none,
  some, [], ◌∷◌, arith, load, store, load-store, load-delete, In, In-append_right, Option-cases,
  if◌then◌else◌,
}
use cedana.Job.{
  Details, Job, Done, state_of, get_pid, set_pid, set_details, sync, latest_state, set_gpu_enabled,
  is_running, new_job, Host,
}
use cedana.Job.State.{sync_keeps}
use cedana.Manager.State.{Manager, Result, ok, err, Env, put_job, send}
use cedana.Manager.Jobs.{new, get, manage, manage-eq_ok, adopt, exists, refresh}
use cedana.Manager.Checkpoints.{delete_job, forget_job, list_checkpoints, get_latest_checkpoint}
use cedana.Manager.PidHistory.{delete_all-jobs}
use cedana.Manager.Adapters.{
  Request, Next, Outcome, started, not_created, without_checkpoint, update, run_started, manage_run,
  manage_restore, restore_job, fill_restore, path_of,
}

-- After Delete the job is not in memory.
delete_job-gone : (jid : String) (m : Manager) → load jid (delete_job jid m).jobs ≡ none
unfolding delete_job
delete_job-gone jid m = elim (Option-cases (load jid m.jobs)) [
  | inl e ↦ rw (e, delete_job) e
  | inr (job, e) ↦
      rw (e, delete_job)
        (rw (delete_all-jobs (list_checkpoints jid (forget_job jid job m)) (forget_job jid job m))
          (unfold forget_job in ground (arith, load-delete jid jid m.jobs, eq_refl jid)))
]

adopt-pid : (env : Env) (pid : ℕ) (job : Job) → get_pid (adopt env pid job) ≡ pid
unfolding adopt get_pid set_pid
adopt-pid env pid job =
    (sync_keeps env.system (set_pid pid job) (record (state_of job.proto.state) { pid = pid })
      refl).0

-- A job that is managed: it has the PID, waits for its exit, and is to be written to the database.
pub record ManagedAs (jid : String) (pid : ℕ) (m : Manager) : Type 0 where
  pub job : Job
  pub in_memory : load jid m.jobs ≡ some job
  pub has_pid : get_pid job ≡ pid
  pub real : pid ≢ 0
  pub waits : job.done ≡ Done.waiting
  pub owed : In (put_job jid) m.pending

manage-ManagedAs :
    (env : Env) (jid : String) (pid : ℕ) (m m' : Manager)
    → manage env jid pid m ≡ ok m'
    → ManagedAs jid pid m'
manage-ManagedAs env jid pid m m' h =
    let (job, e, real, free, q) = manage-eq_ok env jid pid m h in
    rw q (record {
      job = adopt env pid job;
      in_memory =
          unfold send in ground (arith, load-store jid jid (adopt env pid job) m.jobs, eq_refl jid);
      has_pid = adopt-pid env pid job;
      real = real;
      waits = unfold adopt in refl;
      owed = unfold send in In-append_right (put_job jid) m.pending (put_job jid ∷ []) (inl refl);
    })

-- What the manager `m'` has of the job after a run that found the manager `m`.
abbrev pub AfterRun : String → Manager → Manager → Outcome → Type 0
AfterRun jid m m' (started pid) = ManagedAs jid pid m'
AfterRun jid m m' (not_created e) = m' ≡ m
AfterRun jid m m' _ = load jid m'.jobs ≡ none

run_started-AfterRun :
    (env : Env) (jid : String) (m : Manager) (r : Manager × Option (Request × ℕ))
    → AfterRun jid m (run_started env jid r).0 (run_started env jid r).1
unfolding run_started
run_started-AfterRun env jid m (k, none) = delete_job-gone jid k
run_started-AfterRun env jid m (k, some (req, pid)) = by_result (manage env jid pid d) refl
  where
    d : Manager
    d = update jid (set_details req.req_details) k

    by_result :
        (q : Result Manager)
        → manage env jid pid d ≡ q
        → AfterRun jid m
            (run_started env jid (k, some (req, pid))).0
            (run_started env jid (k, some (req, pid))).1
    by_result (ok m') e = rw (e, run_started) (manage-ManagedAs env jid pid d m' e)
    by_result (err x) e = rw (e, run_started) (delete_job-gone jid d)

-- A run either starts its job, which the manager then has with the PID of the started process, to be
-- written to the database; or it could not create the job, and the manager is as before; or it fails
-- later, and the manager does not have the job, whatever the handlers that follow do. The JID is the
-- one of the request, or else the generated one.
pub manage_run-AfterRun :
    (env : Env) (generated : String) (next : Next) (req_jid : String) (req : Request) (m : Manager)
    → let r = manage_run env generated next req_jid req m in
      AfterRun (if str_eq req_jid "" then generated else req_jid) m r.0 r.1
unfolding manage_run
manage_run-AfterRun env generated next req_jid req m = by_result (new jid req.req_type m) refl
  where
    jid : String
    jid = if str_eq req_jid "" then generated else req_jid

    r : Manager × Outcome
    r = manage_run env generated next req_jid req m

    by_result : (q : Result (Manager × Job)) → new jid req.req_type m ≡ q → AfterRun jid m r.0 r.1
    by_result (err x) e = rw (e, manage_run) refl
    by_result (ok (k, job)) e = rw (e, manage_run) (run_started-AfterRun env jid m _)

-- A job that was just created does not run, and a refresh finds so.
new_job-idle :
    (env : Env) (jid job_type : String) (host : Option Host)
    → env.system.process 0 ≡ none
    → is_running (refresh env (new_job jid job_type host)).0 ≡ false
unfolding refresh sync latest_state set_gpu_enabled is_running new_job
new_job-idle env jid job_type host z = ground arith

get-present :
    (env : Env) (jid : String) (job : Job) (m : Manager)
    → load jid m.jobs ≡ some job
    → ((get env jid m).1 ≡ some (refresh env job).0)
      × ((get env jid m).0.checkpoints ≡ m.checkpoints)
      × (exists jid (get env jid m).0 ≡ true)
unfolding get exists
get-present env jid job m e =
    ground (arith, load-store jid jid (refresh env job).0 m.jobs, eq_refl jid)

-- GetLatestCheckpoint reads nothing but the checkpoints.
latest-cong :
    (jid : String) (m k : Manager)
    → m.checkpoints ≡ k.checkpoints
    → get_latest_checkpoint jid m ≡ get_latest_checkpoint jid k
unfolding get_latest_checkpoint
latest-cong jid m k e = cc

fill_restore-path :
    (merge : Details → Details → Details) (jid : String) (job : Job) (m : Manager) (req : Request)
    → req.req_path ≡ ""
    → get_latest_checkpoint jid m ≡ none
    → (fill_restore merge jid job m req).req_path ≡ ""
unfolding fill_restore path_of
fill_restore-path merge jid job m req p c = rw (p, c) refl

exists-none : (jid : String) (m : Manager) → load jid m.jobs ≡ none → exists jid m ≡ false
unfolding exists
exists-none jid m e = rw e refl

restore_job-without_checkpoint :
    (env : Env) (merge : Details → Details → Details) (next : Next) (jid : String) (job : Job)
    (req : Request) (m : Manager)
    → load jid m.jobs ≡ some job
    → is_running (refresh env job).0 ≡ false
    → req.req_path ≡ ""
    → get_latest_checkpoint jid m ≡ none
    → let r = restore_job env merge next jid req m in
      (r.1 ≡ without_checkpoint) × (exists jid r.0 ≡ true)
unfolding restore_job
restore_job-without_checkpoint env merge next jid job req m e idle p c =
    let (answer, same, there) = get-present env jid job m e in
    let path =
      fill_restore-path merge jid (refresh env job).0 (get env jid m).0 req p
        (latest-cong jid (get env jid m).0 m same ∙ c) in
    rw (answer, idle, path, restore_job) (refl, there)

-- A restore of an attachable process without a JID and without a path creates a job under the
-- generated name, finds no checkpoint for it and fails; the job, which has no process and no
-- checkpoint, stays in memory. (The name is not empty and not that of a job, no checkpoint is of that
-- name, and no process has the PID 0.)
pub manage_restore-leaves :
    (env : Env) (generated : String) (merge : Details → Details → Details) (next : Next)
    (req : Request) (m : Manager)
    → req.req_details.details_jid ≡ ""
    → req.req_path ≡ ""
    → req.attachable ≡ true
    → generated ≢ ""
    → load generated m.jobs ≡ none
    → get_latest_checkpoint generated m ≡ none
    → env.system.process 0 ≡ none
    → let r = manage_restore env generated merge next req m in
      (r.1 ≡ without_checkpoint) × (exists generated r.0 ≡ true)
unfolding manage_restore new
manage_restore-leaves env generated merge next req m j p a g n c z =
    let job : Job = new_job generated req.req_type m.host in
    let created : Manager = record m { jobs = store generated job m.jobs } in
    let named : Request = record req {
      req_details = record (req.req_details) { details_jid = generated };
    } in
    let stays =
      restore_job-without_checkpoint env merge next generated job named created
        (ground (arith, load-store generated generated job m.jobs, eq_refl generated))
        (new_job-idle env generated req.req_type m.host z) p
        (latest-cong generated created m refl ∙ c) in
    ground (arith, stays, eq_iff generated "", eq_refl "", exists-none generated m n)
