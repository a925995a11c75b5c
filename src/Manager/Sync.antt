-- ===== src/Manager/Sync.antt =====
-- internal/cedana/job/manager_lazy.go: syncWithDB and the background routine that works through
-- `pending`. The database is an interface (internal/db/db.go); it enters as the two tables that its
-- methods read and write, and as the record of which of its calls succeed.
use cedana.Base.{
  String, Bool, true, false, not, ◌&&◌, ◌||◌, none, some, List, [], ◌∷◌, if◌then◌else◌, Dict, load,
  store, delete, values, is_some, filter_by, str_eq,
}
use cedana.Job.{JobProto, Job, from_proto, is_remote}
use cedana.Manager.State.{
  Checkpoint, Action, initialize, put_job, put_checkpoint, shutdown, Manager, send,
}
use cedana.Manager.Jobs.{exists}

pub record Db : Type 0 where
  pub job_table : Dict JobProto
  pub checkpoint_table : Dict Checkpoint

-- Which calls to the database succeed while an action is carried out.
pub record Calls : Type 0 where
  pub list_jobs_ok : Bool
  pub list_checkpoints_ok : String → Bool
  pub write_ok : Bool

pub record World : Type 0 where
  pub manager : Manager
  pub db : Db

unfoldable pub is_deleted : String → Manager → Bool
is_deleted jid m = is_some (load jid m.deleted_jobs)

-- A job of the database replaces the one in memory only if it was not deleted here, and is not
-- known here or belongs to another machine.
unfoldable pub accepts : Job → Manager → Bool
unfolding is_deleted exists is_remote
accepts job m = not (is_deleted job.jid m) && (not (exists job.jid m) || is_remote job)

unfoldable pub store_checkpoints : List Checkpoint → Manager → Manager
store_checkpoints [] m = m
store_checkpoints (c ∷ cs) m =
    store_checkpoints cs (record m { checkpoints = store c.id c m.checkpoints })

abbrev pub of_jid : String → List Checkpoint → List Checkpoint
of_jid jid = filter_by (λ c. str_eq c.checkpoint_jid jid)

-- The loop over the jobs of the database. The result says whether no call failed.
unfoldable pub load_jobs : Calls → Db → List JobProto → Manager → Manager × Bool
unfolding accepts store_checkpoints from_proto
load_jobs calls db [] m = (m, true)
load_jobs calls db (p ∷ ps) m =
    let job = from_proto p in
    let stored = record m { jobs = store job.jid job m.jobs } in
    let on =
      load_jobs calls db ps
        (store_checkpoints (of_jid job.jid (values db.checkpoint_table)) stored) in
    let skip = load_jobs calls db ps m in
    if accepts job m
    then (if calls.list_checkpoints_ok job.jid then on else (stored, false))
    else skip

-- The case putJob: write the job, or delete it if it was deleted here.
unfoldable pub sync_job : Calls → String → World → World × Bool
unfolding is_deleted
sync_job calls jid w =
    let m = w.manager in
    let db = w.db in
    elim (load jid m.jobs) [
      | some job ↦
          if calls.write_ok
          then (record w { db = record db { job_table = store jid job.proto db.job_table } }, true)
          else (w, false)
      | none ↦
          if is_deleted jid m
          then (if calls.write_ok
              then (
                record {
                  manager = record m { deleted_jobs = delete jid m.deleted_jobs };
                  db = record db { job_table = delete jid db.job_table };
                },
                true,
              )
              else (w, false))
          else (w, true)
    ]

unfoldable pub sync_checkpoint : Calls → String → World → World × Bool
sync_checkpoint calls id w =
    let m = w.manager in
    let db = w.db in
    elim (load id m.checkpoints) [
      | some c ↦
          if calls.write_ok
          then (
            record w { db = record db { checkpoint_table = store id c db.checkpoint_table } },
            true,
          )
          else (w, false)
      | none ↦
          if is_some (load id m.deleted_checkpoints)
          then (if calls.write_ok
              then (
                record {
                  manager = record m { deleted_checkpoints = delete id m.deleted_checkpoints };
                  db = record db { checkpoint_table = delete id db.checkpoint_table };
                },
                true,
              )
              else (w, false))
          else (w, true)
    ]

unfoldable pub sync_with_db : Calls → Action → World → World × Bool
unfolding load_jobs sync_job sync_checkpoint
sync_with_db calls initialize w =
    if calls.list_jobs_ok
    then (let (m', good) = load_jobs calls w.db (values w.db.job_table) w.manager in
        (record w { manager = m' }, good))
    else (w, false)
sync_with_db calls (put_job jid) w = sync_job calls jid w
sync_with_db calls (put_checkpoint id) w = sync_checkpoint calls id w
sync_with_db calls shutdown w = (w, true)

-- Carry out an action taken from the channel, and put it back at the end if the database failed.
unfoldable pub carry_out : Calls → Action → List Action → World → World
unfolding sync_with_db send
carry_out calls a rest w =
    let m = w.manager in
    let (w', good) = sync_with_db calls a (record w { manager = record m { pending = rest } }) in
    if good then w' else record w' { manager = send a w'.manager }

-- One turn of the routine, with the oldest action.
unfoldable pub work : Calls → World → World
unfolding carry_out
work calls w = elim w.manager.pending [ [] ↦ w | a ∷ rest ↦ carry_out calls a rest w ]
