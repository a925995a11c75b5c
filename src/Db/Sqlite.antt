-- ===== src/Db/Sqlite.antt =====
-- internal/db/db_sqlite.go: the methods of SqliteDB, as functions of the tables; `none` is an error,
-- after which the tables are as before.
use cedana.Base.{length, ltb, String, Option, none, some, List, [], ◌∷◌, if◌then◌else◌, map}
use cedana.Db.Tables.{has, insert, update, remove, select}
use cedana.Db.Rows.{
  HostRow, JobRow, CheckpointRow, Db, host_check, job_check, checkpoint_check, host_key, job_key,
  checkpoint_key, join, by_time,
}
use cedana.Db.Values.{
  DaemonHost, DaemonJob, DaemonCheckpoint, JobQuery, list_jobs_row, list_jobs_by_ids_row,
  list_jobs_by_host_ids_row, job_row, host_row, checkpoint_row, from_db_host, from_db_checkpoint,
  from_db_job_row,
}

-- The queries of jobs, in job.sql.
unfoldable pub query_jobs_by_ids : List String → Db → List (JobRow × HostRow)
unfolding join select
query_jobs_by_ids ids db = join db.hosts (select job_key ids db.jobs)

unfoldable pub query_jobs_by_host_ids : List String → Db → List (JobRow × HostRow)
unfolding join select
query_jobs_by_host_ids ids db = join db.hosts (select (λ j. j.host_id) ids db.jobs)

unfoldable pub with_jobs : Db → Option (List JobRow) → Option Db
with_jobs db none = none
with_jobs db (some js) = some record db { jobs = js }

unfoldable pub with_hosts : Db → Option (List HostRow) → Option Db
with_hosts db none = none
with_hosts db (some hs) = some record db { hosts = hs }

unfoldable pub with_checkpoints : Db → Option (List CheckpointRow) → Option Db
with_checkpoints db none = none
with_checkpoints db (some cs) = some record db { checkpoints = cs }

unfoldable pub put_job_row : JobRow → Db → Option Db
unfolding query_jobs_by_ids with_jobs insert update job_check
put_job_row row db = with_jobs db (
    if ltb 0 (length (query_jobs_by_ids (row.jid ∷ []) db))
    then update job_key job_check row db.jobs
    else insert job_key job_check row db.jobs)

module _ {D : Type 0} (marshal : D → Option String) where
  unfoldable pub put_job : DaemonJob D → Db → Option Db
  unfolding put_job_row job_row
  put_job job db = elim (marshal job.details) [
    | none ↦ none
    | some bytes ↦ put_job_row (job_row job bytes) db
  ]

module _ {D : Type 0} (unmarshal : String → Option D) where
  -- The loop over the rows: the first that is not converted is an error.
  unfoldable pub from_rows : JobQuery → List (JobRow × HostRow) → Option (List (DaemonJob D))
  unfolding from_db_job_row
  from_rows q [] = some []
  from_rows q (r ∷ rs) = elim (from_db_job_row unmarshal q r) [
    | none ↦ none
    | some job ↦ elim (from_rows q rs) [ none ↦ none | some jobs ↦ some (job ∷ jobs) ]
  ]

  unfoldable pub list_jobs : List String → Db → Option (List (DaemonJob D))
  unfolding from_rows query_jobs_by_ids join
  list_jobs [] db = from_rows list_jobs_row (join db.hosts db.jobs)
  list_jobs (i ∷ is) db = from_rows list_jobs_by_ids_row (query_jobs_by_ids (i ∷ is) db)

  unfoldable pub list_jobs_by_host_ids : List String → Db → Option (List (DaemonJob D))
  unfolding from_rows query_jobs_by_host_ids
  list_jobs_by_host_ids ids db = from_rows list_jobs_by_host_ids_row (query_jobs_by_host_ids ids db)

unfoldable pub delete_job : String → Db → Db
unfolding remove
delete_job jid db = record db { jobs = remove job_key jid db.jobs }

unfoldable pub put_host_row : HostRow → Db → Option Db
unfolding with_hosts insert update has host_check
put_host_row row db = with_hosts db (
    if has host_key row.id db.hosts
    then update host_key host_check row db.hosts
    else insert host_key host_check row db.hosts)

unfoldable pub put_host : DaemonHost → Db → Option Db
unfolding host_row put_host_row
put_host host db = elim (host_row host) [ none ↦ none | some row ↦ put_host_row row db ]

unfoldable pub list_hosts : List String → Db → List DaemonHost
unfolding select from_db_host
list_hosts [] db = map from_db_host db.hosts
list_hosts (i ∷ is) db = map from_db_host (select host_key (i ∷ is) db.hosts)

unfoldable pub delete_host : String → Db → Db
unfolding remove
delete_host id db = record db { hosts = remove host_key id db.hosts }

unfoldable pub put_checkpoint : DaemonCheckpoint → Db → Option Db
unfolding with_checkpoints insert update has checkpoint_check checkpoint_row
put_checkpoint c db =
    let row = checkpoint_row c in
    with_checkpoints db (
      if has checkpoint_key c.id db.checkpoints
      then update checkpoint_key checkpoint_check row db.checkpoints
      else insert checkpoint_key checkpoint_check row db.checkpoints)

unfoldable pub list_checkpoints : List String → Db → List DaemonCheckpoint
unfolding by_time select from_db_checkpoint
list_checkpoints [] db = map from_db_checkpoint (by_time db.checkpoints)
list_checkpoints (i ∷ is) db =
    map from_db_checkpoint (by_time (select checkpoint_key (i ∷ is) db.checkpoints))

unfoldable pub list_checkpoints_by_jids : List String → Db → List DaemonCheckpoint
unfolding by_time select from_db_checkpoint
list_checkpoints_by_jids [] db = map from_db_checkpoint (by_time db.checkpoints)
list_checkpoints_by_jids (i ∷ is) db =
    map from_db_checkpoint (by_time (select (λ c. c.jid) (i ∷ is) db.checkpoints))

unfoldable pub delete_checkpoint : String → Db → Db
unfolding remove
delete_checkpoint id db = record db { checkpoints = remove checkpoint_key id db.checkpoints }
