-- ===== src/Manager/State.antt =====
-- internal/cedana/job/manager_lazy.go: the state of the job manager, the actions that it leaves to
-- its background routine, and the results of its methods.
use cedana.Base.{ℕ, String, Bool, Option, List, [], ◌∷◌, ◌++◌, Dict}
use cedana.Job.{Host, System, Job}

-- daemon.Checkpoint.
pub record Checkpoint : Type 0 where
  pub id : String
  pub checkpoint_jid : String
  pub path : String
  pub time : ℕ
  pub size : ℕ

pub data Action : Type 0 where
  initialize : Action
  put_job : String → Action
  put_checkpoint : String → Action
  shutdown : Action

pub record Manager : Type 0 where
  pub jobs : Dict Job
  pub checkpoints : Dict Checkpoint
  pub deleted_jobs : Dict Job
  pub deleted_checkpoints : Dict Checkpoint
  pub host : Option Host
  pub pending : List Action

pub data Error : Type 0 where
  missing_jid already_exists does_not_exist invalid_pid already_managed not_running : Error

pub data Result {ℓ} (A : Type ℓ) : Type ℓ where
  ok : A → Result A
  err : Error → Result A

-- What the manager asks of the machine and of the GPU manager.
pub record Env : Type 0 where
  pub system : System
  pub is_attached : ℕ → Bool

unfoldable pub send : Action → Manager → Manager
send a m = record m { pending = m.pending ++ a ∷ [] }
