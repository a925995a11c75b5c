-- ===== src/Gpu/Controller.antt =====
-- internal/cedana/gpu/controller.go: one controller. What a controller process answers, which
-- processes run and what the file lock says come from outside.
use cedana.Base.{
  ℕ, suc, String, ◌==◌, ltb, Bool, true, false, not, ◌&&◌, Option, none, some, if◌then◌else◌,
}

-- The lock file of a booking: held through this controller's own handle, or by another process.
pub record Lock : Type 0 where
  pub held_here : Bool
  pub held_elsewhere : Bool

pub record Controller : Type 0 where
  pub id : String
  pub pid : ℕ
  pub parent_pid : ℕ
  pub attached_pid : ℕ
  pub shm_size : ℕ
  pub uid : ℕ
  pub gid : ℕ
  pub booking : Lock
  pub terminating : Bool
  pub sync_fails : ℕ

pub data Status : Type 0 where
  stale free busy : Status

pub data Reason : Type 0 where
  compatible shm_mismatch credentials_mismatch attached_running attached_gone controller_gone :
      Reason

-- What Info of a controller answers.
pub record Info : Type 0 where
  pub info_pid : ℕ
  pub info_attached_pid : ℕ
  pub info_shm_size : ℕ

-- The configuration, the daemon's own ids, the processes that run, and what TryLock answers on a
-- handle that holds the lock already.
pub record Env : Type 0 where
  pub pid_running : ℕ → Bool
  pub conf_shm_size : ℕ
  pub own_pid : ℕ
  pub own_uid : ℕ
  pub own_gid : ℕ
  pub relock : Bool
  pub debug : Bool

abbrev pub max_sync_failures : ℕ
max_sync_failures = 2

unfoldable pub status : Env → Controller → Status × Reason
status env c =
    let matches = env.conf_shm_size == c.shm_size in
    let own = c.uid == env.own_uid && c.gid == env.own_gid in
    if ltb c.sync_fails max_sync_failures && env.pid_running c.pid
    then (if c.attached_pid == 0
        then (if matches && own
            then (free, compatible)
            else if not matches
            then (stale, shm_mismatch)
            else (stale, credentials_mismatch))
        else (if env.pid_running c.attached_pid
            then (busy, attached_running)
            else (stale, attached_gone)))
    else (stale, controller_gone)

abbrev pub is_free : Status → Bool
is_free free = true
is_free _ = false

-- flock.TryLock.
unfoldable pub try_lock : Env → Lock → Lock × Bool
try_lock env l =
    if l.held_here
    then (l, env.relock)
    else if l.held_elsewhere
    then (l, false)
    else (record l { held_here = true }, true)

abbrev pub unlock : Lock → Lock
unlock l = record l { held_here = false }

-- Book of a controller: the controller after the call, and whether it is booked.
unfoldable pub book : Env → Controller → Controller × Bool
unfolding try_lock
book env c =
    let (l, acquired) = try_lock env c.booking in
    if not acquired
    then (record c { booking = l }, false)
    else if is_free (status env c).0
    then (record c { booking = l }, true)
    else (record c { booking = unlock l }, false)

-- Sync of a controller, with the answer to Info; `none` is a call that failed.
unfoldable pub refresh : Option Info → Controller → Controller × Bool
refresh none c = (c, false)
refresh (some i) c = (
  record c {
    attached_pid = if i.info_attached_pid == 0 then c.attached_pid else i.info_attached_pid;
    shm_size = i.info_shm_size;
    pid = i.info_pid;
  },
  true,
)

-- What Sync of the pool makes of it: the count of consecutive failures.
unfoldable pub refresh_counted : Option Info → Controller → Controller
unfolding refresh
refresh_counted i c =
    let (c', good) = refresh i c in
    if good then record c' { sync_fails = 0 } else record c' { sync_fails = suc c'.sync_fails }

-- Attach of a controller, with whether the call to it succeeded.
unfoldable pub attach : Bool → ℕ → Controller → Controller × Bool
attach true pid c = (record c { attached_pid = pid }, true)
attach false pid c = (c, false)
