-- ===== src/Tests/Runs.antt =====
-- The adapters of internal/cedana/job and parseStatPIDPPID of pkg/utils at concrete inputs.
use cedana.Base.{
  [], ℕ, String, ◌≡◌, ◌≢◌, refl, str_eq, eq_iff, true, false, Option, none, some, List, [], ◌∷◌,
  arith, load, if◌then◌else◌,
}
use cedana.Job.{Details}
use cedana.Manager.Jobs.{exists}
use cedana.Manager.Checkpoints.{get_latest_checkpoint}
use cedana.Manager.Adapters.{
  Request, Next, started, not_started, without_checkpoint, manage_run, manage_restore,
}
use cedana.Manager.Managed.{AfterRun, manage_run-AfterRun, manage_restore-leaves}
use cedana.Io.Compression.{codes}
use cedana.Job.Stat.{parsed, parse_stat, parse_uint, pair_up, stat_line, fields_of, parse_stat-line}
use cedana.Tests.Jobs.{env, idle}

abbrev request : Request
request = record {
  req_type = "process";
  req_log = "";
  req_path = "";
  req_details = record { details_jid = ""; body = "" };
  attachable = true;
}

-- A handler that starts process 7, and one that fails.
abbrev starts : Next
starts req m = (m, some (req, 7))

abbrev fails : Next
fails req m = (m, none)

abbrev keep : Details → Details → Details
keep d e = d

run_test : (manage_run env "g" starts "" request idle).1 ≡ started 7
unfolding manage_run load cedana.Base.store
run_test = refl

failed_run_test : (manage_run env "g" fails "" request idle).1 ≡ not_started
unfolding manage_run load
failed_run_test = refl

manage_run-AfterRun_example :
    AfterRun "g" idle
      (manage_run env "g" starts "" request idle).0
      (manage_run env "g" starts "" request idle).1
manage_run-AfterRun_example = manage_run-AfterRun env "g" starts "" request idle

-- On this machine only process 7 runs.
manage_restore-leaves_example :
    ((manage_restore env "g" keep starts request idle).1 ≡ without_checkpoint)
    × (exists "g" (manage_restore env "g" keep starts request idle).0 ≡ true)
unfolding load get_latest_checkpoint
manage_restore-leaves_example =
    manage_restore-leaves env "g" keep starts request idle refl refl refl
      (ground (arith, eq_iff "g" "")) refl refl refl

-- "12 (a) (b) S 7 0": the name of the command is "a) (b".
parse_stat_test : parse_stat (codes "12 (a) (b) S 7 0") ≡ parsed 12 7
unfolding parse_stat
parse_stat_test = refl

parse_stat-line_example :
    parse_stat (stat_line (codes "12") (codes "a) (b") (fields_of 83 (codes "7") (codes "0")))
    ≡ pair_up (parse_uint (codes "12")) (parse_uint (codes "7"))
parse_stat-line_example =
    parse_stat-line (codes "12") (codes "a) (b") 83 55 [] (codes "0") (refl, (refl, tt)) refl
      (refl, tt) (refl, (refl, (refl, (refl, (refl, tt)))))
