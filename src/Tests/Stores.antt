-- ===== src/Tests/Stores.antt =====
-- internal/db at concrete inputs.
use cedana.Base.{load, List, none, map, String, ◌^◌, ◌-◌, ◌≡◌, refl, true, Option, some, [], ◌∷◌}
use cedana.Db.Tables.{has, row_of}
use cedana.Db.Rows.{host_check, job_check, Db, HostRow, JobRow}
use cedana.Db.Ids.{encode_ids, decode_ids}
use cedana.Db.Values.{
  DaemonJob, DaemonHost, DaemonCheckpoint, no_state, job_row, unix_milli, nanoseconds,
}
use cedana.Db.Sqlite.{query_jobs_by_ids, put_host}
use cedana.Db.Invariant.{IsDb, empty}
use cedana.Db.Refines.{
  Simulates, JobCall, run_map, run_tables, put_row, drop_row, run_tables-Simulates,
}

abbrev host : DaemonHost
host = record {
  id = "h";
  mac = "m";
  hostname = "n";
  os = "linux";
  platform = "p";
  kernel_version = "6";
  kernel_arch = "x86_64";
  cpu = some record { physical_id = "0"; vendor_id = "v"; family = "6"; count = 4 };
  memory = some 1024;
}

abbrev job : DaemonJob String
job = record {
  jid = "j";
  type = "process";
  log = "";
  details = "{}";
  state = some record no_state {
    pid = 7;
    start_time = 1700000000000;
    is_running = true;
    host = some host;
    uids = 1000 ∷ 4 ∷ [];
  };
}

abbrev same : String → Option String
same s = some s

abbrev checkpoint : DaemonCheckpoint
checkpoint = record { id = "c"; jid = "j"; path = "/d"; time = 1700000000000; size = 5 }

abbrev the_host : HostRow
the_host = record {
  id = "h";
  mac = "m";
  hostname = "n";
  os = "linux";
  platform = "p";
  kernel_version = "6";
  kernel_arch = "x86_64";
  cpu_physical_id = "0";
  cpu_vendor_id = "v";
  cpu_family = "6";
  cpu_count = 4;
  mem_total = 1024;
}

abbrev with_host : Db
with_host = record { hosts = the_host ∷ []; jobs = []; checkpoints = [] }

abbrev with_job : Db
with_job = record { hosts = the_host ∷ []; jobs = job_row job "{}" ∷ []; checkpoints = [] }

-- The host row was deleted; foreign keys are not enforced.
abbrev lost : Db
lost = record { hosts = []; jobs = job_row job "{}" ∷ []; checkpoints = [] }

with_host-IsDb : IsDb with_host
unfolding has host_check
with_host-IsDb = record {
  hosts = ((refl, tt), (refl, tt));
  jobs = (tt, tt);
  checkpoints = (tt, tt);
}

lost-IsDb : IsDb lost
unfolding job_row has job_check
lost-IsDb = record { hosts = (tt, tt); jobs = ((refl, tt), (refl, tt)); checkpoints = (tt, tt) }

put_test : put_host host empty ≡ some with_host
unfolding put_host
put_test = refl

ids_test : decode_ids (encode_ids (1000 ∷ 4 ∷ [])) ≡ 1000 ∷ 4 ∷ []
unfolding decode_ids encode_ids
ids_test = refl

-- The time -1 ms is read back too.
time_test : unix_milli (nanoseconds (2 ^ 64 - 1)) ≡ 2 ^ 64 - 1
unfolding unix_milli nanoseconds
time_test = refl

with_host-Simulates : Simulates with_host []
unfolding row_of load
with_host-Simulates = record { is_db = with_host-IsDb; hosted = tt; rows = λ k. refl }

-- A row is put, overwritten, refused for its PID 0, and another deleted.
abbrev stopped : JobRow
stopped = record (job_row job "{}") { is_running = 0 }

abbrev puts : List JobCall
puts =
    put_row (job_row job "{}")
    ∷ put_row stopped
    ∷ put_row (record stopped { pid = 0 })
    ∷ drop_row "k"
    ∷ []

run_tables-Simulates_example :
    let (last, answers) = run_tables puts with_host in
    let (map_last, map_answers) = run_map puts [] in
    Simulates last map_last
    × (answers ≡ map_answers)
    × (map (λ p. p.0) (query_jobs_by_ids ("j" ∷ []) last)
        ≡ elim (load "j" map_last) [ none ↦ [] | some r ↦ r ∷ [] ])
unfolding job_row row_of
run_tables-Simulates_example =
    run_tables-Simulates puts with_host [] "j" with_host-Simulates (refl, (refl, (refl, (tt, tt))))
