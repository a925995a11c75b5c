-- ===== src/Db/Invariant.antt =====
-- internal/db/db_sqlite.go: what the calls that write jobs keep of the tables.
use cedana.Base.{
  length, ltb, subst, String, ◌≡◌, refl, Option, none, some, List, [], ◌∷◌, arith, Option-cases,
  inl, inr, if◌then◌else◌,
}
use cedana.Db.Tables.{insert, update}
use cedana.Db.Keys.{IsTable, remove-IsTable, put-IsTable}
use cedana.Db.Rows.{
  JobRow, Db, host_check, job_check, checkpoint_check, host_key, job_key, checkpoint_key,
}
use cedana.Db.Values.{DaemonJob, job_row}
use cedana.Db.Sqlite.{query_jobs_by_ids, put_job_row, put_job, delete_job, with_jobs}

-- Keys differ in each table, and every row passes the constraints of its table.
pub record IsDb (db : Db) : Type 0 where
  pub hosts : IsTable host_key host_check db.hosts
  pub jobs : IsTable job_key job_check db.jobs
  pub checkpoints : IsTable checkpoint_key checkpoint_check db.checkpoints

abbrev pub empty : Db
empty = record { hosts = []; jobs = []; checkpoints = [] }

pub empty-IsDb : IsDb empty
empty-IsDb = record { hosts = (tt, tt); jobs = (tt, tt); checkpoints = (tt, tt) }

abbrev pub Holds : (Db → Type 0) → Option Db → Type 0
Holds P none = Unit
Holds P (some db) = P db

module _ (db next : Db) (inv : IsDb db) where
  with_jobs-IsDb :
      (o : Option (List JobRow))
      → with_jobs db o ≡ some next
      → ((js : List JobRow) → o ≡ some js → IsTable job_key job_check js)
      → IsDb next
  unfolding with_jobs
  with_jobs-IsDb none e h = absurd (ground arith)
  with_jobs-IsDb (some js) e h =
      subst (Holds IsDb) e
        (record { hosts = inv.hosts; jobs = h js refl; checkpoints = inv.checkpoints })

  pub put_job_row-IsDb : (row : JobRow) → put_job_row row db ≡ some next → IsDb next
  unfolding put_job_row
  put_job_row-IsDb row e =
      let old = ltb 0 (length (query_jobs_by_ids (row.jid ∷ []) db)) in
      with_jobs-IsDb
        (if old then update job_key job_check row db.jobs else insert job_key job_check row db.jobs)
        e λ js h. put-IsTable job_key job_check old row db.jobs js h inv.jobs

pub delete_job-IsDb : (jid : String) (db : Db) → IsDb db → IsDb (delete_job jid db)
unfolding delete_job
delete_job-IsDb jid db inv = record {
  hosts = inv.hosts;
  jobs = remove-IsTable job_key job_check jid db.jobs inv.jobs;
  checkpoints = inv.checkpoints;
}

pub put_job_lem :
    {D : Type 0} (marshal : D → Option String) (j : DaemonJob D) (db next : Db)
    → put_job marshal j db ≡ some next
    → (bytes : String) × ((marshal j.details ≡ some bytes)
        × (put_job_row (job_row j bytes) db ≡ some next))
unfolding put_job
put_job_lem marshal j db next e = elim (Option-cases (marshal j.details)) [
  | inl q ↦ absurd (ground (arith, rw (q, put_job) at e))
  | inr (bytes, q) ↦ (bytes, (q, rw (q, put_job) at e))
]
