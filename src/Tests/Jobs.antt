-- ===== src/Tests/Jobs.antt =====
-- The job manager of internal/cedana/job and the formats of pkg/io at concrete inputs.
use cedana.Base.{
  String, ◌≤◌, ◌≡◌, ◌≢◌, ◌↔◌, ◌⊎◌, refl, inl, inr, str_eq, eq_iff, Bool, true, false, Option, none,
  some, List, [], ◌∷◌, arith, load, store, values, is_some, if◌then◌else◌, length, In,
}
use cedana.Job.{Host, ProcessState, System, Job, Done, sync, empty_state, get_status}
use cedana.Job.State.{Verdict, sync-Verdict}
use cedana.Manager.State.{put_job, put_checkpoint, Manager, Env}
use cedana.Manager.Checkpoints.{get_latest_checkpoint}
use cedana.Manager.Sync.{Db, Calls, World}
use cedana.Manager.Tracked.{Tracked}
use cedana.Manager.Worker.{Event, calls_it, creates, deletes, works, manages, on, run, run-Tracked}
use cedana.Manager.Drain.{drain, drain-empties, drain-settles, Settled, a_job}
use cedana.Manager.Pids.{UniquePids}
use cedana.Manager.PidHistory.{on-UniquePids}
use cedana.Manager.Latest.{IsLatest, get_latest_checkpoint-IsLatest}
use cedana.Manager.Channel.{Routine, Reach, start, requeueing, requeue_blocks}
use cedana.Io.Compression.{
  codes, optimized_codec, reader_codec, compression_from_ext, ext_for_compression,
}
use cedana.Io.RoundTrip.{tarball, restore_reads_dump}

abbrev here_host : Host
here_host = record { id = "node-1" }

-- A machine on which process 7 runs.
abbrev pub machine : System
machine = record {
  host_id = some "node-1";
  get_host = some here_host;
  process = λ pid.
      if cedana.Base.◌==◌ pid 7
      then some (record { proc_cmdline = some "sleep 9"; proc_status = some "sleep" })
      else none;
  getpgid = λ pid. some pid;
  file_missing = λ f. false;
}

abbrev pub env : Env
env = record { system = machine; is_attached = λ pid. false }

abbrev sleeping : ProcessState
sleeping = record empty_state { pid = 7; host = some here_host; cmdline = "sleep 9" }

abbrev sleeper : Job
sleeper = record {
  jid = "a";
  proto = record {
    proto_jid = "a";
    job_type = "process";
    state = some sleeping;
    details = none;
    log = "";
  };
  done = Done.no_channel;
}

abbrev pub idle : Manager
idle = record {
  jobs = [];
  checkpoints = [];
  deleted_jobs = [];
  deleted_checkpoints = [];
  host = some here_host;
  pending = [];
}

abbrev one_job : Manager
one_job = record idle { jobs = ("a", sleeper) ∷ [] }

-- A sync finds the process, under its own status.
sync_test : get_status (sync machine none sleeper) ≡ "sleep"
unfolding sync get_status
sync_test = refl

sync-Verdict_example : Verdict machine sleeping (sync machine none sleeper)
sync-Verdict_example = sync-Verdict machine sleeper sleeping refl

machine_hosts : (h : Host) → machine.get_host ≡ some h → machine.host_id ≡ some h.id
machine_hosts h e = ground arith

idle-Tracked : Tracked idle
unfolding load
idle-Tracked = record { jobs_tracked = λ jid d e. cc; checkpoints_tracked = λ id d e. cc }

abbrev empty_db : Db
empty_db = record { job_table = []; checkpoint_table = [] }

abbrev world : World
world = record { manager = idle; db = empty_db }

abbrev down : Calls
down = record { list_jobs_ok = false; list_checkpoints_ok = λ j. false; write_ok = false }

abbrev up : Calls
up = record { list_jobs_ok = true; list_checkpoints_ok = λ j. true; write_ok = true }

-- A job is created and deleted, and the database fails once.
abbrev history : List (Env × Event)
history =
    (env, calls_it (creates "b" "process")) ∷ (env, calls_it (deletes "b")) ∷ (env, works down) ∷ []

run-Tracked_example : Tracked (run history world).manager
run-Tracked_example = run-Tracked history world idle-Tracked

abbrev deleted : Manager
deleted = record idle {
  deleted_jobs = ("b", sleeper) ∷ [];
  pending = put_job "b" ∷ put_checkpoint "c" ∷ [];
  checkpoints =
      ("c", record { id = "c"; checkpoint_jid = "a"; path = "/d"; time = 3; size = 1 }) ∷ [];
}

deleted-Tracked : Tracked deleted
unfolding load
deleted-Tracked = record {
  jobs_tracked = λ jid d e. ground (arith, eq_iff "b" jid);
  checkpoints_tracked = λ id d e. cc;
}

-- A job was deleted, and the database still has it.
abbrev owing : World
owing = record {
  manager = deleted;
  db = record { job_table = ("b", sleeper.proto) ∷ []; checkpoint_table = [] };
}

drain-empties_example : (drain up 2 owing).manager.pending ≡ []
drain-empties_example = drain-empties up owing refl tt

drain-settles_example : Settled (a_job "b") (drain up 2 owing)
unfolding load
drain-settles_example =
    drain-settles up owing (a_job "b") refl deleted-Tracked tt (inr (refl, refl))

one_job-UniquePids : UniquePids one_job.jobs
one_job-UniquePids = record { keyed = (refl, tt); unique = λ a b i j n p. ground arith }

on-UniquePids_example : UniquePids (on env (manages "a" 7) one_job).jobs
on-UniquePids_example = on-UniquePids env (manages "a" 7) one_job one_job-UniquePids

-- The jobs a and b, neither with a process yet.
abbrev job_b : Job
job_b = record sleeper { jid = "b" }

abbrev unstarted : Job → Job
unstarted j = record j { proto = record j.proto { state = none } }

abbrev two_jobs : Manager
two_jobs = record idle { jobs = ("a", unstarted sleeper) ∷ ("b", unstarted job_b) ∷ [] }

abbrev two_checkpoints : Manager
two_checkpoints = record idle {
  checkpoints =
      ("c", record { id = "c"; checkpoint_jid = "a"; path = "/c"; time = 3; size = 1 })
      ∷ ("d", record { id = "d"; checkpoint_jid = "a"; path = "/d"; time = 5; size = 1 })
      ∷ [];
}

get_latest_checkpoint-IsLatest_example :
    IsLatest "a" (values two_checkpoints.checkpoints) (get_latest_checkpoint "a" two_checkpoints)
get_latest_checkpoint-IsLatest_example = get_latest_checkpoint-IsLatest "a" two_checkpoints

requeue_blocks_example :
    (s : Routine) × Reach start s
    × (s.phase ≡ requeueing (put_job "a"))
    × ((t : Routine) → Reach s t → t ≡ s)
requeue_blocks_example = requeue_blocks (put_job "a")

-- zlib on a FUSE file system: the reader is not the writer's.
restore_reads_dump_example :
    (f : String) × (compression_from_ext (tarball (codes "/tmp") (codes "dump.1") (codes ".zlib"))
      ≡ some f)
    × ((reader_codec f ≡ optimized_codec "zlib" true)
        ↔ (((◌≢◌ {A = String}) "zlib" "zlib") ⊎ (true ≡ false)))
unfolding ext_for_compression
restore_reads_dump_example =
    restore_reads_dump (codes "/tmp") (codes "dump.1") "zlib" (codes ".zlib") true refl
