-- ===== src/Manager/Jobs.antt =====
-- internal/cedana/job/manager_lazy.go: the methods of the interface Manager on jobs.
use cedana.Base.{
  ◌≡◌, ◌≢◌, arith, eq_iff, Option-cases, inl, inr, ℕ, String, ◌==◌, str_eq, Bool, true, false, not,
  ◌&&◌, ◌||◌, Option, none, some, List, [], ◌∷◌, ◌++◌, if◌then◌else◌, Dict, load, store, values,
  is_some,
}
use cedana.Job.{
  Job, Done, new_job, sync, set_pid, get_pid, get_pgid, is_running, gpu_enabled, set_gpu_enabled,
  host_id_of, state_of,
}
use cedana.Manager.State.{
  Action, put_job, Manager, Result, ok, err, missing_jid, already_exists, does_not_exist,
  invalid_pid, already_managed, not_running, Env, send,
}

unfoldable pub exists : String → Manager → Bool
exists jid m = is_some (load jid m.jobs)

unfoldable pub new : String → String → Manager → Result (Manager × Job)
unfolding exists new_job
new jid job_type m =
    if str_eq jid ""
    then err missing_jid
    else if exists jid m
    then err already_exists
    else let job = new_job jid job_type m.host in ok (record m { jobs = store jid job m.jobs }, job)

-- Whether a job without the GPU flag is attached to a GPU controller, so that it gets the flag.
unfoldable pub gains_gpu : Env → Job → Bool
unfolding gpu_enabled get_pid
gains_gpu env job = not (gpu_enabled job) && env.is_attached (get_pid job)

-- What Get, List and ListByHostIDs do to each job that they return: the job, and whether it is to
-- be written to the database.
unfoldable pub refresh : Env → Job → Job × Bool
unfolding sync gains_gpu set_gpu_enabled
refresh env job =
    let synced = sync env.system none job in
    if gains_gpu env synced then (set_gpu_enabled true synced, true) else (synced, false)

abbrev pub put_if : Bool → String → List Action
put_if true jid = put_job jid ∷ []
put_if false jid = []

unfoldable pub get : Env → String → Manager → Manager × Option Job
unfolding refresh
get env jid m = elim (load jid m.jobs) [
  | none ↦ (m, none)
  | some job ↦
      let (fresh, dirty) = refresh env job in
      (
        record m { jobs = store jid fresh m.jobs; pending = m.pending ++ put_if dirty jid },
        some fresh,
      )
]

-- The loop of List and ListByHostIDs over the jobs: the map, the jobs found and the actions sent.
unfoldable pub range : Env → (String → Job → Bool) → Dict Job → Dict Job × List Job × List Action
unfolding refresh
range env keep [] = ([], [], [])
range env keep ((jid, job) ∷ rest) =
    let (rest', found, sent) = range env keep rest in
    if keep jid job
    then (let (fresh, dirty) = refresh env job in
        ((jid, fresh) ∷ rest', fresh ∷ found, put_if dirty jid ++ sent))
    else ((jid, job) ∷ rest', found, sent)

unfoldable pub contains : List String → String → Bool
contains [] x = false
contains (y ∷ ys) x = str_eq y x || contains ys x

-- No filter keeps everything.
unfoldable pub passes : List String → String → Bool
unfolding contains
passes [] x = true
passes (y ∷ ys) x = contains (y ∷ ys) x

unfoldable pub list_by : Env → (String → Job → Bool) → Manager → Manager × List Job
unfolding range
list_by env keep m =
    let (jobs', found, sent) = range env keep m.jobs in
    (record m { jobs = jobs'; pending = m.pending ++ sent }, found)

unfoldable pub list : Env → List String → Manager → Manager × List Job
unfolding list_by passes
list env jids m = list_by env (λ jid job. passes jids jid) m

unfoldable pub host_id : Job → String
host_id job = host_id_of (state_of job.proto.state).host

unfoldable pub list_by_host_ids : Env → List String → Manager → Manager × List Job
unfolding list_by passes host_id
list_by_host_ids env ids m = list_by env (λ jid job. passes ids (host_id job)) m

unfoldable pub find_pid : ℕ → List Job → Option Job
unfolding get_pid
find_pid pid [] = none
find_pid pid (job ∷ rest) = if get_pid job == pid then some job else find_pid pid rest

unfoldable pub find : ℕ → Manager → Option Job
unfolding find_pid
find pid m = find_pid pid (values m.jobs)

-- Another job holds the PID.
unfoldable pub taken : ℕ → String → Manager → Bool
unfolding find
taken pid jid m = elim (find pid m) [ none ↦ false | some other ↦ not (str_eq other.jid jid) ]

-- What Manage does to a job once its checks have passed: SetPID, SyncDeep, a new channel `done`.
unfoldable pub adopt : Env → ℕ → Job → Job
unfolding set_pid sync
adopt env pid job = record (sync env.system none (set_pid pid job)) { done = Done.waiting }

-- Manage from SetPID on, where its checks have passed.
unfoldable pub take_over : Env → String → ℕ → Job → Manager → Manager
unfolding send adopt
take_over env jid pid job m =
    send (put_job jid) (record m { jobs = store jid (adopt env pid job) m.jobs })

-- Manage, up to the start of the routine that waits for the exit code.
unfoldable pub manage : Env → String → ℕ → Manager → Result Manager
unfolding taken take_over
manage env jid pid m = elim (load jid m.jobs) [
  | none ↦ err does_not_exist
  | some job ↦
      if pid == 0
      then err invalid_pid
      else if taken pid jid m
      then err already_managed
      else ok (take_over env jid pid job m)
]

-- The routine of Manage after the exit code has come: the outcome of the cleanup goes to `done`.
unfoldable pub exited : String → Option String → Manager → Manager
exited jid cleanup m = elim (load jid m.jobs) [
  | none ↦ m
  | some job ↦ record m { jobs = store jid (record job { done = Done.closed cleanup }) m.jobs }
]

-- The target of kill(2): one process, or its whole group.
pub data Target : Type 0 where
  process : ℕ → Target
  group : ℕ → Target

abbrev pub sigkill : ℕ
sigkill = 9

-- The signal of the call, or else that of the job type's plugin, or else SIGKILL.
unfoldable pub choose_signal : Option ℕ → Option ℕ → ℕ
choose_signal (some s) plugin = s
choose_signal none (some s) = s
choose_signal none none = sigkill

unfoldable pub kill_target : Env → Option ℕ → Option ℕ → Job → Result (Target × ℕ)
unfolding is_running get_pid get_pgid choose_signal
kill_target env plugin given job =
    if not (is_running job)
    then err not_running
    else if get_pid job == 0
    then err not_running
    else if get_pgid env.system job == get_pid job
    then ok (group (get_pgid env.system job), choose_signal given plugin)
    else ok (process (get_pid job), choose_signal given plugin)

-- Kill: the manager after its Get, and the system call that it makes.
unfoldable pub kill : Env → Option ℕ → Option ℕ → String → Manager → Manager × Result (Target × ℕ)
unfolding get kill_target
kill env plugin given jid m =
    let (m', found) = get env jid m in
    elim found [
      | none ↦ (m', err does_not_exist)
      | some job ↦ (m', kill_target env plugin given job)
    ]

-- What a successful New and a successful Manage say of their input.
pub new-eq_ok :
    (jid job_type : String) (m : Manager) {r : Manager × Job}
    → new jid job_type m ≡ ok r
    → (jid ≢ "")
      × (load jid m.jobs ≡ none)
      × (r ≡ (
        record m { jobs = store jid (new_job jid job_type m.host) m.jobs },
        new_job jid job_type m.host,
      ))
unfolding new
new-eq_ok jid job_type m h =
    (ground (arith, eq_iff jid ""), ground (arith, eq_iff jid ""), ground (arith, eq_iff jid ""))

pub manage-eq_ok :
    (env : Env) (jid : String) (pid : ℕ) (m : Manager) {m' : Manager}
    → manage env jid pid m ≡ ok m'
    → (job : Job) × (load jid m.jobs ≡ some job)
      × (pid ≢ 0)
      × (taken pid jid m ≡ false)
      × (m' ≡ send (put_job jid) (record m { jobs = store jid (adopt env pid job) m.jobs }))
unfolding manage take_over
manage-eq_ok env jid pid m h = elim (Option-cases (load jid m.jobs)) [
  | inl e ↦ absurd (ground arith)
  | inr (job, e) ↦ (job, e, ground arith, ground arith, ground arith)
]

-- Kill changes the manager as its Get does.
pub kill-manager :
    (env : Env) (plugin given : Option ℕ) (jid : String) (m : Manager)
    → (kill env plugin given jid m).0 ≡ (get env jid m).0
unfolding kill
kill-manager env plugin given jid m = ground arith
