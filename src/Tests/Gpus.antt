-- ===== src/Tests/Gpus.antt =====
-- The controller pool of internal/cedana/gpu at concrete inputs.
use mathlib.Core.List.{Perm}
use cedana.Base.{
  ℕ, String, ◌==◌, ◌≡◌, ◌≢◌, refl, inl, inr, eq_iff, Bool, true, false, Option, none, some, List,
  [], ◌∷◌, arith, load, values, if◌then◌else◌,
}
use cedana.Gpu.Controller.{Controller, Env, status}
use cedana.Gpu.Pool.{Pool, list, book_free}
use cedana.Gpu.Manager.{PoolManager, upkeep}
use cedana.Gpu.Listing.{Sorted, all_of, list_lem}
use cedana.Gpu.Booking.{Booked, book_free-Booked}
use cedana.Gpu.Upkeep.{upkeep_keeps_busy}
use cedana.Gpu.Profile.{
  pos, negsuc, PhaseProfile, WorkerProfile, Row, merged_interval_duration, other_rows,
  other_duration,
}
use cedana.Gpu.Coverage.{covers, count, merged_interval_duration-covers}
use cedana.Gpu.Uncovered.{in_phases, other_duration-uncovered}
use cedana.Base.{All, ◌⊎◌, not, ◌<◌, ◌≤◌}

abbrev env : Env
env = record {
  pid_running = λ pid. true;
  conf_shm_size = 8;
  own_pid = 1;
  own_uid = 0;
  own_gid = 0;
  relock = true;
  debug = false;
}

abbrev ready : Controller
ready = record {
  id = "f";
  pid = 10;
  parent_pid = 1;
  attached_pid = 0;
  shm_size = 8;
  uid = 0;
  gid = 0;
  booking = record { held_here = false; held_elsewhere = false };
  terminating = false;
  sync_fails = 0;
}

abbrev attached : Controller
attached = record ready { id = "b"; pid = 11; attached_pid = 20 }

abbrev old : Controller
old = record ready { id = "s"; pid = 12; sync_fails = 2 }

abbrev pool : Pool
pool = ("f", ready) ∷ ("b", attached) ∷ ("s", old) ∷ []

abbrev pool_manager : PoolManager
pool_manager = record {
  pool_size = 0;
  free_count = 0;
  busy_count = 0;
  stale_count = 0;
  controllers = pool;
}

-- With no pool to keep, the free and the stale controller go and the busy one stays.
upkeep_test : (upkeep env [] (list env pool) pool_manager).controllers ≡ ("b", attached) ∷ []
unfolding upkeep list load cedana.Base.delete cedana.Base.store cedana.Gpu.Manager.drop_one status
upkeep_test = refl

list_lem_example : Perm (values pool) (all_of (list env pool)) × Sorted env (list env pool)
list_lem_example = list_lem env pool

book_free-Booked_example :
    Booked (list env pool).free_ones pool (book_free env pool).0 (book_free env pool).1
unfolding load
book_free-Booked_example = book_free-Booked env pool (refl, (refl, (refl, tt)))

upkeep_keeps_busy_example :
    load "b" (upkeep env [] (list env pool) pool_manager).controllers ≡ some attached
unfolding load status
upkeep_keeps_busy_example =
    upkeep_keeps_busy env [] pool_manager attached (refl, (refl, (refl, tt))) tt refl (inr refl)

-- Two overlapping intervals, one that starts before the worker and one that ends after it.
abbrev phase : PhaseProfile
phase = record {
  phase_name = "copy";
  phase_duration = 5;
  phase_bytes = 10;
  intervals =
      record { raw_start = pos 4; raw_end = pos 6 }
      ∷ record { raw_start = negsuc 2; raw_end = pos 1 }
      ∷ record { raw_start = pos 5; raw_end = pos 8 }
      ∷ record { raw_start = pos 9; raw_end = pos 30 }
      ∷ [];
  truncated = false;
}

abbrev worker : WorkerProfile
worker = record { worker_index = 0; worker_duration = 12; worker_bytes = 25; phases = phase ∷ [] }

-- Instants 1, 2, 3 and 8 are not covered, and 15 bytes are left.
other_rows_test :
    other_rows 0 (worker ∷ [])
    ≡ record {
      row_worker = worker;
      worker_position = 0;
      row_name = "other";
      duration_ns = 4;
      bytes = 15;
    }
      ∷ []
unfolding other_rows
other_rows_test = refl

merged_interval_duration-covers_example :
    merged_interval_duration
      (record { start_ns = 3; end_ns = 6 } ∷ record { start_ns = 1; end_ns = 4 } ∷ [])
    ≡ count
        (covers (record { start_ns = 3; end_ns = 6 } ∷ record { start_ns = 1; end_ns = 4 } ∷ []))
        6
merged_interval_duration-covers_example =
    merged_interval_duration-covers 6
      (record { start_ns = 3; end_ns = 6 } ∷ record { start_ns = 1; end_ns = 4 } ∷ [])
      ((omega arith, omega arith), ((omega arith, omega arith), tt))

other_duration-uncovered_example :
    other_duration worker ≡ count (λ t. not (in_phases worker.phases t)) 12
other_duration-uncovered_example = other_duration-uncovered worker

abbrev row : ℕ → Row
row d = record {
  row_worker = worker;
  worker_position = 0;
  row_name = "copy";
  duration_ns = d;
  bytes = 1;
}
