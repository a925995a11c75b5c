-- ===== src/Manager/PidHistory.antt =====
-- The PIDs of the jobs of internal/cedana/job/manager_lazy.go over the calls of its methods that work in
-- memory.
use cedana.Base.{
  ℕ, String, ◌≡◌, refl, sym, ◌∙◌, ◌⊎◌, inl, inr, Bool, true, false, Option, List, [], ◌∷◌, arith,
  ap, if◌then◌else◌, Option-cases, load, values, Dict, In, In-values-load,
}
use cedana.Job.{Job, Done, get_pid}
use cedana.Manager.State.{Checkpoint, Manager, Result, ok, err, Env, send}
use cedana.Manager.Jobs.{
  new, refresh, range, list_by, list, list_by_host_ids, manage, exited, kill-manager,
}
use cedana.Manager.Checkpoints.{
  add_all, add_one, add_checkpoint, delete_checkpoint, delete_all, forget_job, delete_job,
  list_checkpoints,
}
use cedana.Manager.Worker.{
  Call, creates, gets, lists, lists_by_host_ids, manages, exits, adds, deletes, deletes_checkpoint,
  kills, on, created, managed,
}
use cedana.Manager.Pids.{
  Keyed, UniquePids, Keyed-load, refresh_lem, store-UniquePids, manage-UniquePids, new-UniquePids,
  get-UniquePids, delete-UniquePids,
}

-- The job of the list from which a job was refreshed: it has the same PID and the same JID.
abbrev Origin : Job → List Job → Type 0
Origin a js = (b : Job) × In b js × (get_pid a ≡ get_pid b) × (a.jid ≡ b.jid)

Origin-cons : (a b : Job) (js : List Job) → Origin a js → Origin a (b ∷ js)
Origin-cons a b js (c, i, p, q) = (c, inr i, p, q)

Origin-range :
    (a : Job) (picked : Bool) (fresh job : Job) (js : List Job)
    → (get_pid fresh ≡ get_pid job) × (fresh.jid ≡ job.jid)
    → (rest : List Job) → (In a rest → Origin a js)
    → (a ≡ (if picked then fresh else job)) ⊎ In a rest
    → Origin a (job ∷ js)
Origin-range a true fresh job js same rest later (inl e) =
    (job, inl refl, ap get_pid e ∙ same.0, ap (λ (j : Job). j.jid) e ∙ same.1)
Origin-range a false fresh job js same rest later (inl e) =
    (job, inl refl, ap get_pid e, ap (λ (j : Job). j.jid) e)
Origin-range a picked fresh job js same rest later (inr i) = Origin-cons a job js (later i)

In-values-range :
    (env : Env) (keep : String → Job → Bool) (a : Job) (d : Dict Job)
    → In a (values (range env keep d).0)
    → Origin a (values d)
unfolding range
In-values-range env keep a [] h = absurd h
In-values-range env keep a ((k, job) ∷ d) h =
    Origin-range a (keep k job) (refresh env job).0 job (values d) (refresh_lem env job)
      (values (range env keep d).0) (In-values-range env keep a d) (ground arith)

Keyed-range :
    (env : Env) (keep : String → Job → Bool) (d : Dict Job) → Keyed d → Keyed (range env keep d).0
unfolding range
Keyed-range env keep [] h = h
Keyed-range env keep ((k, job) ∷ d) h =
    ground (arith, Keyed-range env keep d, (refresh_lem env job).1)

list_by-UniquePids :
    (env : Env) (keep : String → Job → Bool) (m : Manager)
    → UniquePids m.jobs
    → UniquePids (list_by env keep m).0.jobs
unfolding list_by
list_by-UniquePids env keep m u = record {
  keyed = Keyed-range env keep m.jobs u.keyed;
  unique = λ a b i j n p.
      let (c, ic, pc, qc) = In-values-range env keep a m.jobs i in
      let (e, ie, pe, qe) = In-values-range env keep b m.jobs j in
      qc ∙ u.unique c e ic ie (λ z. n (pc ∙ z)) (sym pc ∙ p ∙ pe) ∙ sym qe;
}

add_all-jobs : (cs : List Checkpoint) (m : Manager) → (add_all cs m).jobs ≡ m.jobs
unfolding add_all add_one send
add_all-jobs [] m = refl
add_all-jobs (c ∷ cs) m = add_all-jobs cs (add_one c m)

add_checkpoint-jobs :
    (jid : String) (cs : List Checkpoint) (m : Manager) → (add_checkpoint jid cs m).jobs ≡ m.jobs
unfolding add_checkpoint
add_checkpoint-jobs jid cs m = elim (Option-cases (load jid m.jobs)) [
  | inl e ↦ rw (e, add_checkpoint)
  | inr (job, e) ↦ rw (e, add_checkpoint) (add_all-jobs cs m)
]

delete_checkpoint-jobs : (id : String) (m : Manager) → (delete_checkpoint id m).jobs ≡ m.jobs
unfolding delete_checkpoint send
delete_checkpoint-jobs id m = ground arith

pub delete_all-jobs : (cs : List Checkpoint) (m : Manager) → (delete_all cs m).jobs ≡ m.jobs
unfolding delete_all
delete_all-jobs [] m = refl
delete_all-jobs (c ∷ cs) m =
    delete_all-jobs cs (delete_checkpoint c.id m) ∙ delete_checkpoint-jobs c.id m

delete_job-UniquePids :
    (jid : String) (m : Manager) → UniquePids m.jobs → UniquePids (delete_job jid m).jobs
unfolding delete_job
delete_job-UniquePids jid m u = elim (Option-cases (load jid m.jobs)) [
  | inl e ↦ rw (e, delete_job) u
  | inr (job, e) ↦
      rw (e, delete_job)
        (rw (delete_all-jobs (list_checkpoints jid (forget_job jid job m)) (forget_job jid job m))
          (unfold forget_job send in delete-UniquePids jid m.jobs u))
]

exited-UniquePids :
    (jid : String) (cleanup : Option String) (m : Manager)
    → UniquePids m.jobs
    → UniquePids (exited jid cleanup m).jobs
unfolding exited get_pid
exited-UniquePids jid cleanup m u = elim (Option-cases (load jid m.jobs)) [
  | inl e ↦ rw (e, exited) u
  | inr (job, e) ↦
      let key : job.jid ≡ jid = Keyed-load jid job m.jobs u.keyed e in
      rw (e, exited)
        (store-UniquePids jid (record job { done = Done.closed cleanup }) m.jobs key
          (λ b i n q. u.unique b job i (In-values-load jid job m.jobs e) n q ∙ key) u)
]

created-UniquePids :
    (jid job_type : String) (m : Manager) (r : Result (Manager × Job))
    → new jid job_type m ≡ r
    → UniquePids m.jobs
    → UniquePids (created m r).jobs
created-UniquePids jid job_type m (ok (m', job)) e u = new-UniquePids jid job_type m e u
created-UniquePids jid job_type m (err x) e u = u

managed-UniquePids :
    (env : Env) (jid : String) (pid : ℕ) (m : Manager) (r : Result Manager)
    → manage env jid pid m ≡ r
    → UniquePids m.jobs
    → UniquePids (managed m r).jobs
managed-UniquePids env jid pid m (ok m') e u = manage-UniquePids env jid pid m e u
managed-UniquePids env jid pid m (err x) e u = u

-- Each call of a method that works in memory, made to its end while no other changes the jobs, and each
-- exit of a managed process, keeps every job under its own JID and every PID but 0 with one job. (Sync
-- and the turns of the routine, which load jobs from the database, are not among them.)
pub on-UniquePids :
    (env : Env) (c : Call) (m : Manager) → UniquePids m.jobs → UniquePids (on env c m).jobs
unfolding on
on-UniquePids env (creates jid job_type) m u = created-UniquePids jid job_type m _ refl u
on-UniquePids env (gets jid) m u = get-UniquePids env jid m u
on-UniquePids env (lists jids) m u = unfold list in list_by-UniquePids env _ m u
on-UniquePids env (lists_by_host_ids ids) m u =
    unfold list_by_host_ids in list_by-UniquePids env _ m u
on-UniquePids env (manages jid pid) m u = managed-UniquePids env jid pid m _ refl u
on-UniquePids env (exits jid cleanup) m u = exited-UniquePids jid cleanup m u
on-UniquePids env (adds jid cs) m u = rw (add_checkpoint-jobs jid cs m) u
on-UniquePids env (deletes jid) m u = delete_job-UniquePids jid m u
on-UniquePids env (deletes_checkpoint id) m u = rw (delete_checkpoint-jobs id m) u
on-UniquePids env (kills jid plugin given) m u =
    rw (kill-manager env plugin given jid m) (get-UniquePids env jid m u)
