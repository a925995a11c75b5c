-- ===== src/Manager/Pids.antt =====
-- No two jobs share a PID: Manage of internal/cedana/job/manager_lazy.go asks Find for another job
-- with the PID, and no other method changes one.
use cedana.Base.{
  ℕ, String, ◌==◌, ◌≡◌, ◌≢◌, refl, ◌∙◌, inl, inr, eq_iff, false, some, List, [], ◌∷◌, arith,
  Option-cases, Bool-cases, load, store, delete, values, Dict, In, In-values-store,
  In-values-delete, In-values-load,
}
use cedana.Job.{Job, new_job, get_pid}
use cedana.Manager.State.{Manager, ok, Env, send}
use cedana.Manager.Jobs.{
  new, refresh, get, find_pid, find, taken, adopt, manage, new-eq_ok, manage-eq_ok,
}

-- Every job stands under its own JID.
abbrev pub Keyed : Dict Job → Type 0
Keyed [] = Unit {0}
Keyed ((k, job) ∷ d) = (job.jid ≡ k) × Keyed d

pub record UniquePids (d : Dict Job) : Type 0 where
  pub keyed : Keyed d
  pub unique :
      (a b : Job)
      → In a (values d)
      → In b (values d)
      → get_pid a ≢ 0
      → get_pid a ≡ get_pid b
      → a.jid ≡ b.jid

pub Keyed-load :
    (k : String) (job : Job) (d : Dict Job) → Keyed d → load k d ≡ some job → job.jid ≡ k
unfolding load
Keyed-load k job [] h e = cc
Keyed-load k job ((j, a) ∷ d) h e = ground (arith, eq_iff j k, Keyed-load k job d)

Keyed-store :
    (k : String) (job : Job) (d : Dict Job) → job.jid ≡ k → Keyed d → Keyed (store k job d)
unfolding store
Keyed-store k job [] e h = ground arith
Keyed-store k job ((j, a) ∷ d) e h = ground (arith, Keyed-store k job d)

Keyed-delete : (k : String) (d : Dict Job) → Keyed d → Keyed (delete k d)
unfolding delete
Keyed-delete k [] h = h
Keyed-delete k ((j, a) ∷ d) h = ground (arith, Keyed-delete k d)

find_pid_complete :
    (pid : ℕ) (b : Job) (js : List Job)
    → In b js
    → get_pid b ≡ pid
    → (x : Job) × (find_pid pid js ≡ some x) × In x js × (get_pid x ≡ pid)
unfolding find_pid
find_pid_complete pid b [] h e = absurd h
find_pid_complete pid b (j ∷ js) h e = elim (Bool-cases (get_pid j == pid)) [
  | inl same ↦ (j, rw same, inl refl, ground arith)
  | inr other ↦
      let (x, f, i, q) = find_pid_complete pid b js (ground arith) e in (x, rw other f, inr i, q)
]

-- The job stored by a successful Manage has the PID and its JID.
pub adopt_lem :
    (env : Env) (pid : ℕ) (job : Job)
    → (get_pid (adopt env pid job) ≡ pid) × ((adopt env pid job).jid ≡ job.jid)
unfolding adopt get_pid
adopt_lem env pid job = (ground arith, ground arith)

pub refresh_lem :
    (env : Env) (job : Job)
    → (get_pid (refresh env job).0 ≡ get_pid job) × ((refresh env job).0.jid ≡ job.jid)
unfolding refresh get_pid
refresh_lem env job = (ground arith, ground arith)

-- A store under a job's JID is safe if its PID is 0 or no other job has it.
pub store-UniquePids :
    (k : String) (new_one : Job) (d : Dict Job)
    → new_one.jid ≡ k
    → ((b : Job) → In b (values d) → get_pid b ≢ 0 → get_pid b ≡ get_pid new_one → b.jid ≡ k)
    → UniquePids d
    → UniquePids (store k new_one d)
store-UniquePids k new_one d e free u = record {
  keyed = Keyed-store k new_one d e u.keyed;
  unique = λ a b i j n p. ground (
    arith,
    In-values-store k new_one a d i,
    In-values-store k new_one b d j,
    free a,
    free b,
    u.unique a b,
  );
}

-- If no other job was found under the PID, then none has it.
free_of_taken :
    (pid : ℕ) (jid : String) (m : Manager)
    → pid ≢ 0
    → taken pid jid m ≡ false
    → UniquePids m.jobs
    → (b : Job) → In b (values m.jobs)
    → get_pid b ≡ pid
    → b.jid ≡ jid
unfolding taken find
free_of_taken pid jid m n t u b i e =
    let (x, f, j, q) = find_pid_complete pid b (values m.jobs) i e in
    ground (arith, eq_iff x.jid jid, u.unique x b j i)

-- A successful Manage keeps the PIDs apart: the PID that it gives to the job was no other job's.
pub manage-UniquePids :
    (env : Env) (jid : String) (pid : ℕ) (m : Manager) {m' : Manager}
    → manage env jid pid m ≡ ok m'
    → UniquePids m.jobs
    → UniquePids m'.jobs
unfolding send
manage-UniquePids env jid pid m h u =
    let (job, e, n, t, q) = manage-eq_ok env jid pid m h in
    let (p, same) = adopt_lem env pid job in
    rw q (
      store-UniquePids jid (adopt env pid job) m.jobs (same ∙ Keyed-load jid job m.jobs u.keyed e)
        (λ b i z w. free_of_taken pid jid m n t u b i (w ∙ p)) u)

pub new-UniquePids :
    (jid job_type : String) (m : Manager) {r : Manager × Job}
    → new jid job_type m ≡ ok r
    → UniquePids m.jobs
    → UniquePids r.0.jobs
unfolding new_job get_pid
new-UniquePids jid job_type m h u =
    rw (new-eq_ok jid job_type m h).2
      (store-UniquePids jid _ m.jobs refl (λ b i n p. absurd (n p)) u)

pub get-UniquePids :
    (env : Env) (jid : String) (m : Manager) → UniquePids m.jobs → UniquePids (get env jid m).0.jobs
unfolding get
get-UniquePids env jid m u = elim (Option-cases (load jid m.jobs)) [
  | inl e ↦ rw (e, get) u
  | inr (job, e) ↦
      let (p, same) = refresh_lem env job in
      rw (e, get)
        (store-UniquePids jid (refresh env job).0 m.jobs
          (same ∙ Keyed-load jid job m.jobs u.keyed e)
          (λ b i n q.
            u.unique b job i (In-values-load jid job m.jobs e) n (q ∙ p)
            ∙ Keyed-load jid job m.jobs u.keyed e)
          u)
]

pub delete-UniquePids : (jid : String) (d : Dict Job) → UniquePids d → UniquePids (delete jid d)
delete-UniquePids jid d u = record {
  keyed = Keyed-delete jid d u.keyed;
  unique = λ a b i j. u.unique a b (In-values-delete jid a d i) (In-values-delete jid b d j);
}
