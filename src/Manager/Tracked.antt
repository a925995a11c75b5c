-- ===== src/Manager/Tracked.antt =====
-- What the in-memory manager owes the database: every deletion that the database has not seen yet
-- has its action in `pending`.
use cedana.Base.{
  ℕ, String, ◌≡◌, refl, inl, inr, eq_iff, Bool, true, Option, none, List, [], ◌∷◌, ◌++◌, arith,
  is_some, Option-cases, load, store, load-store, load-delete, In, In-append_left, In-append_right,
  Dict,
}
use cedana.Job.{Job}
use cedana.Manager.State.{Checkpoint, Action, put_job, put_checkpoint, Manager, ok, Env, send}
use cedana.Manager.Jobs.{
  new, refresh, get, range, list_by, manage, exited, put_if, new-eq_ok, manage-eq_ok, kill,
  kill-manager,
}
use cedana.Manager.Checkpoints.{
  add_one, add_all, add_checkpoint, delete_checkpoint, delete_all, forget_job, delete_job,
  list_checkpoints,
}

pub record Tracked (m : Manager) : Type 0 where
  pub jobs_tracked :
      (jid : String)
      → is_some (load jid m.deleted_jobs) ≡ true
      → load jid m.jobs ≡ none
      → In (put_job jid) m.pending
  pub checkpoints_tracked :
      (id : String)
      → is_some (load id m.deleted_checkpoints) ≡ true
      → load id m.checkpoints ≡ none
      → In (put_checkpoint id) m.pending

module _ (a : Action) (m : Manager) where
  -- The last action sent is in the channel, and those sent before stay.
  In-send_self : In a (m.pending ++ a ∷ [])
  In-send_self = In-append_right a m.pending (a ∷ []) (inl refl)

pub send-Tracked : (a : Action) (m : Manager) → Tracked m → Tracked (send a m)
unfolding send
send-Tracked a m t = record {
  jobs_tracked = λ jid d e. In-append_left _ m.pending _ (t.jobs_tracked jid d e);
  checkpoints_tracked = λ id d e. In-append_left _ m.pending _ (t.checkpoints_tracked id d e);
}

-- A store into the jobs or the checkpoints takes away obligations only.
pub store_job-Tracked :
    (jid : String) (job : Job) (m : Manager)
    → Tracked m
    → Tracked (record m { jobs = store jid job m.jobs })
store_job-Tracked jid job m t = record {
  jobs_tracked = λ k d e. ground (arith, load-store jid k job m.jobs, t.jobs_tracked k d);
  checkpoints_tracked = t.checkpoints_tracked;
}

pub store_checkpoint-Tracked :
    (id : String) (c : Checkpoint) (m : Manager)
    → Tracked m
    → Tracked (record m { checkpoints = store id c m.checkpoints })
store_checkpoint-Tracked id c m t = record {
  jobs_tracked = t.jobs_tracked;
  checkpoints_tracked =
      λ k d e. ground (arith, load-store id k c m.checkpoints, t.checkpoints_tracked k d);
}

pub delete_checkpoint-Tracked :
    (id : String) (m : Manager) → Tracked m → Tracked (delete_checkpoint id m)
unfolding delete_checkpoint
delete_checkpoint-Tracked id m t = elim (Option-cases (load id m.checkpoints)) [
  | inl e ↦ rw (e, delete_checkpoint) t
  | inr (c, e) ↦
      rw (e, delete_checkpoint)
        (record {
          jobs_tracked = λ jid d g. In-append_left _ m.pending _ (t.jobs_tracked jid d g);
          checkpoints_tracked = λ k d g. ground (
            arith,
            eq_iff id k,
            load-store id k c m.deleted_checkpoints,
            load-delete id k m.checkpoints,
            In-send_self (put_checkpoint id) m,
            In-append_left (put_checkpoint k) m.pending (put_checkpoint id ∷ []),
            t.checkpoints_tracked k,
          );
        })
]

delete_all-Tracked : (cs : List Checkpoint) (m : Manager) → Tracked m → Tracked (delete_all cs m)
unfolding delete_all
delete_all-Tracked [] m t = t
delete_all-Tracked (c ∷ cs) m t = delete_all-Tracked cs _ (delete_checkpoint-Tracked c.id m t)

forget_job-Tracked :
    (jid : String) (job : Job) (m : Manager) → Tracked m → Tracked (forget_job jid job m)
unfolding forget_job
forget_job-Tracked jid job m t = record {
  jobs_tracked = λ k d g. ground (
    arith,
    eq_iff jid k,
    load-store jid k job m.deleted_jobs,
    load-delete jid k m.jobs,
    In-send_self (put_job jid) m,
    In-append_left (put_job k) m.pending (put_job jid ∷ []),
    t.jobs_tracked k,
  );
  checkpoints_tracked = λ k d g. In-append_left _ m.pending _ (t.checkpoints_tracked k d g);
}

pub delete_job-Tracked : (jid : String) (m : Manager) → Tracked m → Tracked (delete_job jid m)
unfolding delete_job
delete_job-Tracked jid m t = elim (Option-cases (load jid m.jobs)) [
  | inl e ↦ rw (e, delete_job) t
  | inr (job, e) ↦
      rw (e, delete_job)
        (delete_all-Tracked (list_checkpoints jid (forget_job jid job m)) (forget_job jid job m)
          (forget_job-Tracked jid job m t))
]

add_all-Tracked : (cs : List Checkpoint) (m : Manager) → Tracked m → Tracked (add_all cs m)
unfolding add_all add_one
add_all-Tracked [] m t = t
add_all-Tracked (c ∷ cs) m t = add_all-Tracked cs (add_one c m) (
    send-Tracked (put_checkpoint c.id) (record m { checkpoints = store c.id c m.checkpoints })
      (store_checkpoint-Tracked c.id c m t))

pub add_checkpoint-Tracked :
    (jid : String) (cs : List Checkpoint) (m : Manager)
    → Tracked m
    → Tracked (add_checkpoint jid cs m)
unfolding add_checkpoint
add_checkpoint-Tracked jid cs m t = elim (Option-cases (load jid m.jobs)) [
  | inl e ↦ rw (e, add_checkpoint) t
  | inr (job, e) ↦ rw (e, add_checkpoint) (add_all-Tracked cs m t)
]

-- More actions in the channel break nothing.
pub append-Tracked :
    (more : List Action) (m : Manager)
    → Tracked m
    → Tracked (record m { pending = m.pending ++ more })
append-Tracked more m t = record {
  jobs_tracked = λ jid d e. In-append_left _ m.pending more (t.jobs_tracked jid d e);
  checkpoints_tracked = λ id d e. In-append_left _ m.pending more (t.checkpoints_tracked id d e);
}

pub get-Tracked : (env : Env) (jid : String) (m : Manager) → Tracked m → Tracked (get env jid m).0
unfolding get
get-Tracked env jid m t = elim (Option-cases (load jid m.jobs)) [
  | inl e ↦ rw (e, get) t
  | inr (job, e) ↦
      rw (e, get)
        (append-Tracked (put_if (refresh env job).1 jid) _
          (store_job-Tracked jid (refresh env job).0 m t))
]

pub kill-Tracked :
    (env : Env) (plugin given : Option ℕ) (jid : String) (m : Manager)
    → Tracked m
    → Tracked (kill env plugin given jid m).0
kill-Tracked env plugin given jid m t =
    rw (kill-manager env plugin given jid m) (get-Tracked env jid m t)

-- The loop of List stores no job under a new id and loses none.
is_some-load-range :
    (env : Env) (keep : String → Job → Bool) (k : String) (d : Dict Job)
    → is_some (load k (range env keep d).0) ≡ is_some (load k d)
unfolding range load
is_some-load-range env keep k [] = refl
is_some-load-range env keep k ((jid, job) ∷ rest) =
    ground (arith, is_some-load-range env keep k rest)

pub list_by-Tracked :
    (env : Env) (keep : String → Job → Bool) (m : Manager)
    → Tracked m
    → Tracked (list_by env keep m).0
unfolding list_by
list_by-Tracked env keep m t = record {
  jobs_tracked = λ k d e.
      In-append_left _ m.pending _
        (t.jobs_tracked k d (ground (arith, is_some-load-range env keep k m.jobs)));
  checkpoints_tracked = λ k d e. In-append_left _ m.pending _ (t.checkpoints_tracked k d e);
}

pub new-Tracked :
    (jid job_type : String) (m : Manager) {r : Manager × Job}
    → new jid job_type m ≡ ok r
    → Tracked m
    → Tracked r.0
new-Tracked jid job_type m h t = rw (new-eq_ok jid job_type m h).2 (store_job-Tracked jid _ m t)

pub manage-Tracked :
    (env : Env) (jid : String) (pid : ℕ) (m : Manager) {m' : Manager}
    → manage env jid pid m ≡ ok m'
    → Tracked m
    → Tracked m'
manage-Tracked env jid pid m h t =
    let (job, _, _, _, e) = manage-eq_ok env jid pid m h in
    rw e (send-Tracked (put_job jid) _ (store_job-Tracked jid _ m t))

pub exited-Tracked :
    (jid : String) (cleanup : Option String) (m : Manager)
    → Tracked m
    → Tracked (exited jid cleanup m)
unfolding exited
exited-Tracked jid cleanup m t = elim (Option-cases (load jid m.jobs)) [
  | inl e ↦ rw (e, exited) t
  | inr (job, e) ↦ rw (e, exited) (store_job-Tracked jid _ m t)
]
