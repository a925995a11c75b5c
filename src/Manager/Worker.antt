-- ===== src/Manager/Worker.antt =====
-- The background routine of internal/cedana/job/manager_lazy.go against the invariant of
-- Manager/Tracked.antt, and any sequence of method calls and turns of the routine.
use cedana.Base.{
  ℕ, String, ◌≡◌, refl, inl, inr, eq_iff, Bool, true, false, Option, List, [], ◌∷◌, arith,
  if◌then◌else◌, Bool-cases, store, load-delete, values, In-append_left, In-append_right,
}
use cedana.Job.{JobProto, Job, from_proto}
use cedana.Manager.State.{
  Checkpoint, Action, initialize, put_job, put_checkpoint, shutdown, Manager, Result, ok, err, Env,
  send,
}
use cedana.Manager.Jobs.{new, get, list, list_by_host_ids, manage, exited, kill}
use cedana.Manager.Checkpoints.{add_checkpoint, delete_checkpoint, delete_job}
use cedana.Manager.Sync.{
  Db, Calls, World, accepts, store_checkpoints, load_jobs, sync_with_db, carry_out, work, of_jid,
}
use cedana.Manager.Tracked.{
  Tracked, send-Tracked, store_job-Tracked, store_checkpoint-Tracked, delete_checkpoint-Tracked,
  delete_job-Tracked, add_checkpoint-Tracked, get-Tracked, kill-Tracked, list_by-Tracked,
  new-Tracked, manage-Tracked, exited-Tracked,
}

store_checkpoints-Tracked :
    (cs : List Checkpoint) (m : Manager) → Tracked m → Tracked (store_checkpoints cs m)
unfolding store_checkpoints
store_checkpoints-Tracked [] m t = t
store_checkpoints-Tracked (c ∷ cs) m t =
    store_checkpoints-Tracked cs _ (store_checkpoint-Tracked c.id c m t)

load_jobs-Tracked :
    (calls : Calls) (db : Db) (ps : List JobProto) (m : Manager)
    → Tracked m
    → Tracked (load_jobs calls db ps m).0
unfolding load_jobs
load_jobs-Tracked calls db [] m t = t
load_jobs-Tracked calls db (p ∷ ps) m t =
    let job : Job = from_proto p in
    let stored : Manager = record m { jobs = store job.jid job m.jobs } in
    let kept : Tracked stored = store_job-Tracked job.jid job m t in
    let cs : List Checkpoint = of_jid job.jid (values db.checkpoint_table) in
    elim (Bool-cases (accepts job m)) [
      | inl e ↦ elim (Bool-cases (calls.list_checkpoints_ok job.jid)) [
        | inl f ↦
            rw (e, f)
              (load_jobs-Tracked calls db ps (store_checkpoints cs stored)
                (store_checkpoints-Tracked cs stored kept))
        | inr f ↦ rw (e, f) kept
      ]
      | inr e ↦ rw e (load_jobs-Tracked calls db ps m t)
    ]

-- A manager whose channel has just lost its oldest action.
abbrev popped : List Action → Manager → Manager
popped rest m = record m { pending = rest }

popped-Tracked :
    (a : Action) (rest : List Action) (m : Manager)
    → m.pending ≡ a ∷ rest
    → ((jid : String) → a ≡ put_job jid → ⊥)
    → ((id : String) → a ≡ put_checkpoint id → ⊥)
    → Tracked m
    → Tracked (popped rest m)
popped-Tracked a rest m e no_job no_checkpoint t = record {
  jobs_tracked = λ k d g. ground (arith, t.jobs_tracked k d g, no_job k);
  checkpoints_tracked = λ k d g. ground (arith, t.checkpoints_tracked k d g, no_checkpoint k);
}

-- Whether or not the action goes back into the channel.
kept_or_sent :
    (b : Bool) (a : Action) (w : World)
    → Tracked w.manager
    → Tracked (if b then w else record w { manager = send a w.manager }).manager
kept_or_sent true a w t = t
kept_or_sent false a w t = send-Tracked a w.manager t

initialize-Tracked :
    (calls : Calls) (w : World)
    → Tracked w.manager
    → Tracked (sync_with_db calls initialize w).0.manager
unfolding sync_with_db
initialize-Tracked calls w t = elim (Bool-cases calls.list_jobs_ok) [
  | inl e ↦ rw e (load_jobs-Tracked calls w.db (values w.db.job_table) w.manager t)
  | inr e ↦ rw e t
]

-- One turn of the routine keeps the invariant, whichever calls to the database fail.
carry_out-Tracked :
    (calls : Calls) (a : Action) (rest : List Action) (w : World)
    → w.manager.pending ≡ a ∷ rest
    → Tracked w.manager
    → Tracked (carry_out calls a rest w).manager
unfolding carry_out
carry_out-Tracked calls initialize rest w e t =
    let w' : World = record w { manager = popped rest w.manager } in
    kept_or_sent (sync_with_db calls initialize w').1 initialize _ (
      initialize-Tracked calls w'
        (popped-Tracked initialize rest w.manager e (λ k q. cc) (λ k q. cc) t))
carry_out-Tracked calls (put_job jid) rest w e t = record {
  jobs_tracked = λ k d g. ground (
    arith,
    eq_iff jid k,
    t.jobs_tracked k,
    load-delete jid k w.manager.deleted_jobs,
    In-append_right (put_job jid) rest (put_job jid ∷ []),
    In-append_left (put_job k) rest (put_job jid ∷ []),
  );
  checkpoints_tracked = λ k d g.
      ground
        (arith, t.checkpoints_tracked k, In-append_left (put_checkpoint k) rest (put_job jid ∷ []));
}
carry_out-Tracked calls (put_checkpoint id) rest w e t = record {
  jobs_tracked = λ k d g.
      ground (arith, t.jobs_tracked k, In-append_left (put_job k) rest (put_checkpoint id ∷ []));
  checkpoints_tracked = λ k d g. ground (
    arith,
    eq_iff id k,
    t.checkpoints_tracked k,
    load-delete id k w.manager.deleted_checkpoints,
    In-append_right (put_checkpoint id) rest (put_checkpoint id ∷ []),
    In-append_left (put_checkpoint k) rest (put_checkpoint id ∷ []),
  );
}
carry_out-Tracked calls shutdown rest w e t =
    popped-Tracked shutdown rest w.manager e (λ k q. cc) (λ k q. cc) t

work_on :
    (calls : Calls) (w : World) (p : List Action)
    → w.manager.pending ≡ p
    → Tracked w.manager
    → Tracked (work calls w).manager
unfolding work
work_on calls w [] e t = rw (e, work) t
work_on calls w (a ∷ rest) e t = rw (e, work) (carry_out-Tracked calls a rest w e t)

pub work-Tracked : (calls : Calls) (w : World) → Tracked w.manager → Tracked (work calls w).manager
work-Tracked calls w t = work_on calls w w.manager.pending refl t

-- The calls of methods that work in memory, each made to its end, and the exits of managed processes.
pub data Call : Type 0 where
  creates : String → String → Call
  gets : String → Call
  lists : List String → Call
  lists_by_host_ids : List String → Call
  manages : String → ℕ → Call
  exits : String → Option String → Call
  adds : String → List Checkpoint → Call
  deletes : String → Call
  deletes_checkpoint : String → Call
  kills : String → Option ℕ → Option ℕ → Call

-- What happens: such a call, a call of Sync (which reads the database), and a turn of the routine.
pub data Event : Type 0 where
  calls_it : Call → Event
  syncs : Calls → Event
  works : Calls → Event

abbrev pub created : Manager → Result (Manager × Job) → Manager
created m (ok (m', job)) = m'
created m (err e) = m

abbrev pub managed : Manager → Result Manager → Manager
managed m (ok m') = m'
managed m (err e) = m

unfoldable pub on : Env → Call → Manager → Manager
on env (creates jid job_type) m = created m (new jid job_type m)
on env (gets jid) m = (get env jid m).0
on env (lists jids) m = (list env jids m).0
on env (lists_by_host_ids ids) m = (list_by_host_ids env ids m).0
on env (manages jid pid) m = managed m (manage env jid pid m)
on env (exits jid cleanup) m = exited jid cleanup m
on env (adds jid cs) m = add_checkpoint jid cs m
on env (deletes jid) m = delete_job jid m
on env (deletes_checkpoint id) m = delete_checkpoint id m
on env (kills jid plugin given) m = (kill env plugin given jid m).0

unfoldable pub step : Env → Event → World → World
unfolding on
step env (syncs calls) w = (sync_with_db calls initialize w).0
step env (works calls) w = work calls w
step env (calls_it c) w = record w { manager = on env c w.manager }

unfoldable pub run : List (Env × Event) → World → World
run [] w = w
run ((env, e) ∷ es) w = run es (step env e w)

created-Tracked :
    (jid job_type : String) (m : Manager) (r : Result (Manager × Job))
    → new jid job_type m ≡ r
    → Tracked m
    → Tracked (created m r)
created-Tracked jid job_type m (ok (m', job)) e t = new-Tracked jid job_type m e t
created-Tracked jid job_type m (err x) e t = t

managed-Tracked :
    (env : Env) (jid : String) (pid : ℕ) (m : Manager) (r : Result Manager)
    → manage env jid pid m ≡ r
    → Tracked m
    → Tracked (managed m r)
managed-Tracked env jid pid m (ok m') e t = manage-Tracked env jid pid m e t
managed-Tracked env jid pid m (err x) e t = t

on-Tracked : (env : Env) (c : Call) (m : Manager) → Tracked m → Tracked (on env c m)
unfolding on
on-Tracked env (creates jid job_type) m t = created-Tracked jid job_type m _ refl t
on-Tracked env (gets jid) m t = get-Tracked env jid m t
on-Tracked env (lists jids) m t = unfold list in list_by-Tracked env _ m t
on-Tracked env (lists_by_host_ids ids) m t = unfold list_by_host_ids in list_by-Tracked env _ m t
on-Tracked env (manages jid pid) m t = managed-Tracked env jid pid m _ refl t
on-Tracked env (exits jid cleanup) m t = exited-Tracked jid cleanup m t
on-Tracked env (adds jid cs) m t = add_checkpoint-Tracked jid cs m t
on-Tracked env (deletes jid) m t = delete_job-Tracked jid m t
on-Tracked env (deletes_checkpoint id) m t = delete_checkpoint-Tracked id m t
on-Tracked env (kills jid plugin given) m t = kill-Tracked env plugin given jid m t

step-Tracked :
    (env : Env) (e : Event) (w : World) → Tracked w.manager → Tracked (step env e w).manager
unfolding step
step-Tracked env (calls_it c) w t = on-Tracked env c w.manager t
step-Tracked env (syncs calls) w t = initialize-Tracked calls w t
step-Tracked env (works calls) w t = work-Tracked calls w t

-- Whatever the clients call, whichever jobs exit and whichever calls to the database fail, a job or
-- checkpoint that was deleted here and is not in memory again has its action in the channel until
-- the database has deleted it.
pub run-Tracked :
    (es : List (Env × Event)) (w : World) → Tracked w.manager → Tracked (run es w).manager
unfolding run
run-Tracked [] w t = t
run-Tracked ((env, e) ∷ es) w t = run-Tracked es (step env e w) (step-Tracked env e w t)
