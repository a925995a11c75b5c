-- ===== src/Db/Errors.antt =====
-- internal/db/db_sqlite.go: calls that are errors although the tables have what they ask for.
use cedana.Base.{
  subst, String, ◌≡◌, refl, ap, true, Option, none, some, List, [], ◌∷◌, In, arith, Option-cases,
  inl, inr,
}
use cedana.Db.Tables.{insert, select, row_of, one_of}
use cedana.Db.Keys.{Unique, select-row_of, row_of-has}
use cedana.Db.Rows.{HostRow, JobRow, Db, host_key, job_key, join}
use cedana.Db.Values.{DaemonJob, job_row, list_jobs_by_host_ids_row}
use cedana.Db.Sqlite.{
  query_jobs_by_ids, query_jobs_by_host_ids, put_job_row, put_job, list_jobs_by_host_ids, from_rows,
  with_jobs,
}
use cedana.Db.Invariant.{IsDb}

In-select :
    (key : JobRow → String) (ids : List String) (j : JobRow) (js : List JobRow)
    → In j js
    → one_of ids (key j) ≡ true
    → In j (select key ids js)
unfolding select
In-select key ids j [] i o = absurd i
In-select key ids j (x ∷ js) i o = ground (arith, In-select key ids j js)

In-join :
    (hosts : List HostRow) (j : JobRow) (h : HostRow) (js : List JobRow)
    → In j js
    → row_of host_key j.host_id hosts ≡ some h
    → In (j, h) (join hosts js)
unfolding join
In-join hosts j h [] i e = absurd i
In-join hosts j h (x ∷ js) (inl q) e =
    let at_x = subst (λ y. row_of host_key y.host_id hosts ≡ some h) q e in
    rw (at_x, join) (inl (ap (λ y. (y, h)) q))
In-join hosts j h (x ∷ js) (inr i) e = elim (Option-cases (row_of host_key x.host_id hosts)) [
  | inl q ↦ rw (q, join) (In-join hosts j h js i e)
  | inr (g, q) ↦ rw (q, join) (inr (In-join hosts j h js i e))
]

from_rows-In :
    {D : Type 0} (unmarshal : String → Option D) (r : JobRow × HostRow)
    (rs : List (JobRow × HostRow))
    → In r rs
    → from_rows unmarshal list_jobs_by_host_ids_row rs ≡ none
unfolding from_rows
from_rows-In unmarshal r [] i = absurd i
from_rows-In unmarshal r (x ∷ rs) i = refl

In-query :
    (ids : List String) (db : Db) (j : JobRow) (h : HostRow)
    → In j db.jobs
    → one_of ids j.host_id ≡ true
    → row_of host_key j.host_id db.hosts ≡ some h
    → In (j, h) (query_jobs_by_host_ids ids db)
unfolding query_jobs_by_host_ids
In-query ids db j h i o e =
    In-join db.hosts j h (select (λ x. x.host_id) ids db.jobs)
      (In-select (λ x. x.host_id) ids j db.jobs i o) e

-- A list of the jobs of hosts is an error as soon as there is a job to list.
pub list_jobs_by_host_ids-error :
    {D : Type 0} (unmarshal : String → Option D) (ids : List String) (db : Db) (j : JobRow)
    (h : HostRow)
    → In j db.jobs
    → one_of ids j.host_id ≡ true
    → row_of host_key j.host_id db.hosts ≡ some h
    → list_jobs_by_host_ids unmarshal ids db ≡ none
unfolding list_jobs_by_host_ids
list_jobs_by_host_ids-error unmarshal ids db j h i o e =
    from_rows-In unmarshal (j, h) (query_jobs_by_host_ids ids db) (In-query ids db j h i o e)

lost_rows :
    (jid : String) (db : Db) (r : JobRow)
    → Unique job_key db.jobs
    → row_of job_key jid db.jobs ≡ some r
    → row_of host_key r.host_id db.hosts ≡ none
    → query_jobs_by_ids (jid ∷ []) db ≡ []
unfolding query_jobs_by_ids join
lost_rows jid db r u e f = rw (select-row_of job_key jid db.jobs u, e) (rw (f, join) refl)

lost_row :
    (row r : JobRow) (db : Db)
    → Unique job_key db.jobs
    → row_of job_key row.jid db.jobs ≡ some r
    → row_of host_key r.host_id db.hosts ≡ none
    → put_job_row row db ≡ none
unfolding put_job_row insert with_jobs
lost_row row r db u e f =
    rw (lost_rows row.jid db r u e f, row_of-has job_key row.jid db.jobs r e) refl

-- A job that is stored, in tables with distinct keys, but whose stored host is not in the tables,
-- cannot be put again.
pub put_job-lost_host :
    {D : Type 0} (marshal : D → Option String) (j : DaemonJob D) (db : Db) (r : JobRow)
    → IsDb db
    → row_of job_key j.jid db.jobs ≡ some r
    → row_of host_key r.host_id db.hosts ≡ none
    → put_job marshal j db ≡ none
unfolding put_job job_row
put_job-lost_host marshal j db r inv e f = elim (Option-cases (marshal j.details)) [
  | inl q ↦ rw (q, put_job) refl
  | inr (bytes, q) ↦ rw (q, put_job) (lost_row (job_row j bytes) r db inv.jobs.0 e f)
]
