-- ===== src/Db/RoundTrip.antt =====
-- internal/db/db_sqlite.go: what the methods that list give of what was put.
use cedana.Base.{
  ℕ, subst, String, ◌*◌, ◌^◌, ◌<◌, ◌≡◌, refl, ap, Option, none, some, List, [], ◌∷◌, All, arith,
  if◌then◌else◌,
}
use cedana.Db.Tables.{has, insert, update, row_of}
use cedana.Db.Keys.{Unique, IsTable, select-row_of, put-IsTable, put-row_of}
use cedana.Db.Rows.{
  HostRow, JobRow, CheckpointRow, Db, checkpoint_check, host_key, job_key, checkpoint_key, join,
}
use cedana.Db.Ids.{IsUint32, stored_ids}
use cedana.Db.Values.{
  DaemonJob, DaemonState, DaemonCheckpoint, state_of, nanoseconds, unix_milli, checkpoint_row,
  from_db_host, from_db_checkpoint,
}
use cedana.Db.Sqlite.{query_jobs_by_ids, with_checkpoints, put_checkpoint, list_checkpoints}
use cedana.Process.Forest.{nil}
use cedana.Db.Invariant.{IsDb, Holds}

-- Times that the multiplication by 10^6 does not wrap.
abbrev pub IsTime : ℕ → Type 0
IsTime ms = ms * 1000000 < 2 ^ 63

pub unix_milli-nanoseconds : (ms : ℕ) → IsTime ms → unix_milli (nanoseconds ms) ≡ ms
unfolding unix_milli nanoseconds
unix_milli-nanoseconds ms h = ground arith

-- The numbers of a state are in the range of their types, and its start time does not overflow.
pub record IsStorable (s : DaemonState) : Type 0 where
  pub pid : IsUint32 s.pid
  pub start_time : IsTime s.start_time
  pub uids : All IsUint32 s.uids
  pub gids : All IsUint32 s.gids
  pub groups : All IsUint32 s.groups

-- What becomes of a job that is stored: a state that is there, with the host of the tables, and without
-- what the tables have no column for.
abbrev pub stored_job : {D : Type 0} → DaemonJob D → HostRow → DaemonJob D
stored_job j h =
    let s = state_of j.state in
    record j {
      state = some record s {
        host = some (from_db_host h);
        uids = stored_ids s.uids;
        gids = stored_ids s.gids;
        groups = stored_ids s.groups;
        sid = 0;
        open_files = [];
        open_connections = [];
        mounts = [];
        children = nil;
      };
    }

pub query-row_of :
    (jid : String) (db : Db) (r : JobRow) (h : HostRow)
    → Unique job_key db.jobs
    → row_of job_key jid db.jobs ≡ some r
    → row_of host_key r.host_id db.hosts ≡ some h
    → query_jobs_by_ids (jid ∷ []) db ≡ (r, h) ∷ []
unfolding query_jobs_by_ids join
query-row_of jid db r h u e f = rw (select-row_of job_key jid db.jobs u, e) (rw (f, join) refl)

pub query-none :
    (jid : String) (db : Db)
    → Unique job_key db.jobs
    → row_of job_key jid db.jobs ≡ none
    → query_jobs_by_ids (jid ∷ []) db ≡ []
unfolding query_jobs_by_ids join
query-none jid db u e = rw (select-row_of job_key jid db.jobs u, e) refl

with_checkpoints_lem :
    (db next : Db) (o : Option (List CheckpointRow))
    → with_checkpoints db o ≡ some next
    → (cs : List CheckpointRow) × ((o ≡ some cs) × (next ≡ record db { checkpoints = cs }))
unfolding with_checkpoints
with_checkpoints_lem db next none e = absurd (ground arith)
with_checkpoints_lem db next (some cs) e =
    (cs, (refl, subst (Holds (λ d. d ≡ record db { checkpoints = cs })) e refl))

put_checkpoint_lem :
    (c : DaemonCheckpoint) (db next : Db)
    → IsDb db
    → put_checkpoint c db ≡ some next
    → IsTable checkpoint_key checkpoint_check next.checkpoints
      × (row_of checkpoint_key c.id next.checkpoints ≡ some (checkpoint_row c))
unfolding put_checkpoint checkpoint_row
put_checkpoint_lem c db next inv e =
    let row = checkpoint_row c in
    let old = has checkpoint_key c.id db.checkpoints in
    let (cs, (o, q)) =
      with_checkpoints_lem db next
        (if old
          then update checkpoint_key checkpoint_check row db.checkpoints
          else insert checkpoint_key checkpoint_check row db.checkpoints)
        e in
    rw q (
      put-IsTable checkpoint_key checkpoint_check old row db.checkpoints cs o inv.checkpoints,
      put-row_of checkpoint_key checkpoint_check old row db.checkpoints cs (λ t. t) o
          inv.checkpoints,
    )

from_db_checkpoint-row :
    (c : DaemonCheckpoint) → IsTime c.time → from_db_checkpoint (checkpoint_row c) ≡ c
unfolding from_db_checkpoint checkpoint_row
from_db_checkpoint-row c t = rw (unix_milli-nanoseconds c.time t) refl

-- A checkpoint that is put in tables with distinct keys is listed by its id as it was, if its time
-- in nanoseconds is a signed 64-bit number.
pub put_checkpoint-list_checkpoints :
    (c : DaemonCheckpoint) (db next : Db)
    → IsTime c.time
    → IsDb db
    → put_checkpoint c db ≡ some next
    → list_checkpoints (c.id ∷ []) next ≡ c ∷ []
unfolding list_checkpoints
put_checkpoint-list_checkpoints c db next t inv e =
    let (table, found) = put_checkpoint_lem c db next inv e in
    rw (select-row_of checkpoint_key c.id next.checkpoints table.0, found)
      (ap (λ d. d ∷ []) (from_db_checkpoint-row c t))
