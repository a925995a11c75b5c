-- ===== src/Manager/Checkpoints.antt =====
-- internal/cedana/job/manager_lazy.go: the methods on checkpoints, and Delete, which also deletes
-- the checkpoints of a job.
use cedana.Base.{
  String, str_eq, ltb, Bool, true, ◌&&◌, Option, none, some, List, [], ◌∷◌, if◌then◌else◌, load,
  store, delete, values, filter_by,
}
use cedana.Job.{Job, Done}
use cedana.Manager.State.{Checkpoint, put_job, put_checkpoint, Manager, send}

-- One checkpoint of the loop of AddCheckpoint. Its id (a fresh uuid), its time and its size come
-- from outside.
unfoldable pub add_one : Checkpoint → Manager → Manager
unfolding send
add_one c m = send (put_checkpoint c.id) (record m { checkpoints = store c.id c m.checkpoints })

unfoldable pub add_all : List Checkpoint → Manager → Manager
unfolding add_one
add_all [] m = m
add_all (c ∷ cs) m = add_all cs (add_one c m)

unfoldable pub add_checkpoint : String → List Checkpoint → Manager → Manager
unfolding add_all
add_checkpoint jid cs m = elim (load jid m.jobs) [ none ↦ m | some job ↦ add_all cs m ]

unfoldable pub get_checkpoint : String → Manager → Option Checkpoint
get_checkpoint id m = load id m.checkpoints

unfoldable pub list_checkpoints : String → Manager → List Checkpoint
list_checkpoints jid m = filter_by (λ c. str_eq c.checkpoint_jid jid) (values m.checkpoints)

-- `latest == nil || checkpoint.Time > latest.Time`.
unfoldable pub newer : Checkpoint → Option Checkpoint → Bool
newer c none = true
newer c (some l) = ltb l.time c.time

-- The body of the loop of GetLatestCheckpoint.
unfoldable pub keep_newer : String → Option Checkpoint → Checkpoint → Option Checkpoint
unfolding newer
keep_newer jid latest c = if str_eq c.checkpoint_jid jid && newer c latest then some c else latest

unfoldable pub latest_from : String → Option Checkpoint → List Checkpoint → Option Checkpoint
unfolding keep_newer
latest_from jid latest [] = latest
latest_from jid latest (c ∷ cs) = latest_from jid (keep_newer jid latest c) cs

unfoldable pub get_latest_checkpoint : String → Manager → Option Checkpoint
unfolding latest_from
get_latest_checkpoint jid m = latest_from jid none (values m.checkpoints)

unfoldable pub delete_checkpoint : String → Manager → Manager
unfolding send
delete_checkpoint id m = elim (load id m.checkpoints) [
  | none ↦ m
  | some c ↦ send (put_checkpoint id) (record m {
    checkpoints = delete id m.checkpoints;
    deleted_checkpoints = store id c m.deleted_checkpoints;
  })
]

unfoldable pub delete_all : List Checkpoint → Manager → Manager
unfolding delete_checkpoint
delete_all [] m = m
delete_all (c ∷ cs) m = delete_all cs (delete_checkpoint c.id m)

-- The first half of Delete: the job moves to the deleted jobs.
unfoldable pub forget_job : String → Job → Manager → Manager
unfolding send
forget_job jid job m =
    send (put_job jid)
      (record m { jobs = delete jid m.jobs; deleted_jobs = store jid job m.deleted_jobs })

-- Delete: the job, and then its checkpoints.
unfoldable pub delete_job : String → Manager → Manager
unfolding forget_job list_checkpoints delete_all
delete_job jid m = elim (load jid m.jobs) [
  | none ↦ m
  | some job ↦ delete_all (list_checkpoints jid (forget_job jid job m)) (forget_job jid job m)
]

-- Done: the channel of the job; one that is closed already for a job that is not there.
unfoldable pub done_of : String → Manager → Done
done_of jid m = elim (load jid m.jobs) [ none ↦ Done.closed none | some job ↦ job.done ]
