-- ===== src/Manager/Races.antt =====
-- Manage of internal/cedana/job/manager_lazy.go called twice at the same time: its checks read the jobs
-- before the PID is set, and no lock is held around both.
use cedana.Job.{Job}
use cedana.Manager.State.{Manager}
