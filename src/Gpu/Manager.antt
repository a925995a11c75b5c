-- ===== src/Gpu/Manager.antt =====
-- internal/cedana/gpu/manager_simple.go and manager_pool.go: attaching controllers to processes,
-- and keeping `pool_size` of them free.
use cedana.Base.{
  ℕ, zero, suc, ◌-◌, String, ltb, Bool, not, Option, none, some, List, [], ◌∷◌, if◌then◌else◌,
  length, drop, load, store,
}
use cedana.Gpu.Controller.{Controller, Env, try_lock, unlock, book, attach}
use cedana.Gpu.Pool.{Pool, find, Groups, Entry, Spawned, list, sync, book_free, terminate, spawn}

pub data Error : Type 0 where
  not_installed no_binary spawn_failed not_attached in_use sync_failed : Error

pub data Result {ℓ} (A : Type ℓ) : Type ℓ where
  ok : A → Result A
  err : Error → Result A

-- Attach, up to the routine that waits for the PID: book a free controller, or else spawn one.
unfoldable pub attach_start : Env → Bool → Bool → Spawned → Pool → Pool × Result String
unfolding book_free spawn
attach_start env installed binary_found s p =
    if not installed
    then (p, err not_installed)
    else if not binary_found
    then (p, err no_binary)
    else elim (book_free env p).1 [
      | some c ↦ ((book_free env p).0, ok c.id)
      | none ↦ elim (spawn env s (book_free env p).0).1 [
        | some c ↦ ((spawn env s (book_free env p).0).0, ok c.id)
        | none ↦ ((spawn env s (book_free env p).0).0, err spawn_failed)
      ]
    ]

-- The routine of Attach: the PID that came (`none` if the attach was cancelled), and whether the
-- controller accepted it. The booking ends, or else the controller is terminated.
unfoldable pub attach_finish : String → Option ℕ → Bool → Pool → Pool
unfolding attach terminate
attach_finish id none accepted p = terminate id p
attach_finish id (some pid) accepted p = elim (load id p) [
  | none ↦ p
  | some c ↦
      let c' = record c { attached_pid = pid } in
      if (attach accepted pid c').1
      then store id (record c' { booking = unlock c'.booking }) p
      else terminate id (store id c' p)
]

unfoldable pub detach : Env → ℕ → Pool → Pool × Result String
unfolding find try_lock terminate
detach env pid p = elim (find pid p) [
  | none ↦ (p, err not_attached)
  | some c ↦
      if (try_lock env c.booking).1
      then (
        terminate c.id (store c.id (record c { booking = (try_lock env c.booking).0 }) p),
        ok c.id,
      )
      else (p, err in_use)
]

pub record PoolManager : Type 0 where
  pub pool_size : ℕ
  pub free_count : ℕ
  pub busy_count : ℕ
  pub stale_count : ℕ
  pub controllers : Pool

-- One of the controllers that are neither free nor busy.
unfoldable pub clear_one : Env → Controller → Pool → Pool
unfolding try_lock terminate
clear_one env c p =
    if (try_lock env c.booking).1
    then terminate c.id (store c.id (record c { booking = (try_lock env c.booking).0 }) p)
    else p

unfoldable pub clear_stale : Env → List Controller → Pool → Pool
unfolding clear_one
clear_stale env [] p = p
clear_stale env (c ∷ cs) p = clear_stale env cs (clear_one env c p)

unfoldable pub add_one : Env → Spawned → Pool → Pool
unfolding spawn
add_one env s p = elim (spawn env s p).1 [
  | none ↦ (spawn env s p).0
  | some c ↦ store c.id (record c { booking = unlock c.booking }) (spawn env s p).0
]

-- The controllers missing, one spawn each.
unfoldable pub grow : Env → ℕ → List Spawned → Pool → Pool
unfolding add_one
grow env zero ss p = p
grow env (suc n) [] p = p
grow env (suc n) (s ∷ ss) p = grow env n ss (add_one env s p)

unfoldable pub drop_one : Env → Controller → Pool → Pool
unfolding book terminate
drop_one env c p =
    if (book env c).1
    then terminate c.id (store c.id (book env c).0 p)
    else store c.id (book env c).0 p

unfoldable pub shrink : Env → List Controller → Pool → Pool
unfolding drop_one
shrink env [] p = p
shrink env (c ∷ cs) p = shrink env cs (drop_one env c p)

-- Sync of the pool manager, once it has the lock: `entries` are the sockets found, `none` if the
-- directory could not be read. The lists are those from before the upkeep.
unfoldable pub upkeep : Env → List Spawned → Groups → PoolManager → PoolManager
unfolding clear_stale grow shrink
upkeep env ss g m =
    let n = length g.free_ones in
    let cleared = clear_stale env g.stale_ones m.controllers in
    let counted = record m {
      free_count = n;
      busy_count = length g.busy_ones;
      stale_count = length g.stale_ones;
    } in
    if env.debug
    then counted
    else if ltb n m.pool_size
    then record counted { controllers = grow env (m.pool_size - n) ss cleared }
    else if ltb m.pool_size n
    then record counted { controllers = shrink env (drop m.pool_size g.free_ones) cleared }
    else record counted { controllers = cleared }

unfoldable pub sync_pool :
    Env → Option (List Entry) → List Spawned → PoolManager → Result PoolManager
unfolding upkeep
sync_pool env none ss m = err sync_failed
sync_pool env (some entries) ss m =
    let synced = record m { controllers = sync entries m.controllers } in
    ok (upkeep env ss (list env synced.controllers) synced)
