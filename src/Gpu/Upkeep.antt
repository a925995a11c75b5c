-- ===== src/Gpu/Upkeep.antt =====
-- Sync of internal/cedana/gpu/manager_pool.go: what it may terminate.
use cedana.Base.{
  ℕ, zero, suc, ◌-◌, String, ◌≡◌, ◌≢◌, refl, ◌∙◌, inl, inr, eq_iff, Bool, true, false, Option, none,
  some, List, [], ◌∷◌, arith, All, All-map, All-drop, Bool-cases, Option-cases, load, store,
  load-store, load-delete, values, length, drop,
}
use cedana.Gpu.Controller.{Controller, Info, busy, Env, status, try_lock, book, refresh}
use cedana.Gpu.Pool.{Pool, Groups, Spawned, list, terminate, spawn, newborn, keep_new}
use cedana.Gpu.Manager.{
  PoolManager, clear_one, clear_stale, add_one, grow, drop_one, shrink, upkeep,
}
use cedana.Gpu.Listing.{FreeNow, BusyNow, StaleNow, Sorted, list_lem, list_in-AllGroups, AllGroups}
use cedana.Gpu.Booking.{Stands}

refresh-id : (i : Option Info) (c : Controller) → (refresh i c).0.id ≡ c.id
unfolding refresh
refresh-id none c = refl
refresh-id (some i) c = refl

module _ (k : String) where
  terminate_other : (id : String) (p : Pool) → id ≢ k → load k (terminate id p) ≡ load k p
  unfolding terminate
  terminate_other id p n = ground (arith, load-delete id k p, eq_iff id k)

  store_other :
      (id : String) (c : Controller) (p : Pool) → id ≢ k → load k (store id c p) ≡ load k p
  store_other id c p n = ground (arith, load-store id k c p, eq_iff id k)

  clear_one-other :
      (env : Env) (c : Controller) (p : Pool) → c.id ≢ k → load k (clear_one env c p) ≡ load k p
  unfolding clear_one
  clear_one-other env c p n =
      let q : Pool = store c.id (record c { booking = (try_lock env c.booking).0 }) p in
      ground (
        arith,
        terminate_other c.id q,
        store_other c.id (record c { booking = (try_lock env c.booking).0 }) p,
      )

  clear_stale-other :
      (env : Env) (cs : List Controller) (p : Pool)
      → All (λ c. c.id ≢ k) cs
      → load k (clear_stale env cs p) ≡ load k p
  unfolding clear_stale
  clear_stale-other env [] p h = refl
  clear_stale-other env (c ∷ cs) p h =
      clear_stale-other env cs (clear_one env c p) h.1 ∙ clear_one-other env c p h.0

  drop_one-other :
      (env : Env) (c : Controller) (p : Pool) → c.id ≢ k → load k (drop_one env c p) ≡ load k p
  unfolding drop_one
  drop_one-other env c p n =
      let c' : Controller = (book env c).0 in
      ground (arith, terminate_other c.id (store c.id c' p), store_other c.id c' p)

  shrink-other :
      (env : Env) (cs : List Controller) (p : Pool)
      → All (λ c. c.id ≢ k) cs
      → load k (shrink env cs p) ≡ load k p
  unfolding shrink
  shrink-other env [] p h = refl
  shrink-other env (c ∷ cs) p h =
      shrink-other env cs (drop_one env c p) h.1 ∙ drop_one-other env c p h.0

  abbrev Elsewhere : Pool → Pool × Option Controller → Type 0
  Elsewhere p r = (load k r.0 ≡ load k p) × ((c : Controller) → r.1 ≡ some c → c.id ≢ k)

  keep_new-other :
      (id : String) (c : Controller) (b : Bool) (p : Pool)
      → id ≢ k
      → c.id ≡ id
      → Elsewhere p (keep_new id c b p)
  unfolding keep_new
  keep_new-other id c true p n e = (store_other id c p n, λ d q. ground arith)
  keep_new-other id c false p n e =
      (terminate_other id (store id c p) n ∙ store_other id c p n, λ d q. cc)

  -- Spawn changes no other entry, and the controller that it answers has the new id.
  spawn-other : (env : Env) (s : Spawned) (p : Pool) → s.new_id ≢ k → Elsewhere p (spawn env s p)
  unfolding spawn newborn
  spawn-other env s p n = elim (Bool-cases s.lock_taken) [
    | inr e ↦ rw (e, spawn) (refl, λ c q. cc)
    | inl e ↦ elim (Option-cases s.started) [
      | inl f ↦ rw (e, f, spawn) (keep_new-other s.new_id (newborn env s) false p n refl)
      | inr (pid, f) ↦
          rw (e, f, spawn)
            (keep_new-other s.new_id _ _ p n (
              refresh-id s.first_answer
                (record (newborn env s) { pid = pid; parent_pid = env.own_pid })))
    ]
  ]

  add_one-other :
      (env : Env) (s : Spawned) (p : Pool) → s.new_id ≢ k → load k (add_one env s p) ≡ load k p
  unfolding add_one
  add_one-other env s p n =
      let (same, other) = spawn-other env s p n in
      elim (Option-cases (spawn env s p).1) [
        | inl e ↦ rw (e, add_one) same
        | inr (c, e) ↦ rw (e, add_one) (store_other c.id _ (spawn env s p).0 (other c e) ∙ same)
      ]

  grow-other :
      (env : Env) (n : ℕ) (ss : List Spawned) (p : Pool)
      → All (λ s. s.new_id ≢ k) ss
      → load k (grow env n ss p) ≡ load k p
  unfolding grow
  grow-other env zero ss p h = refl
  grow-other env (suc n) [] p h = refl
  grow-other env (suc n) (s ∷ ss) p h =
      grow-other env n ss (add_one env s p) h.1 ∙ add_one-other env s p h.0

-- A controller that stands in the pool under `k` and is busy is none of those that are not.
not_busy :
    (env : Env) (p : Pool) (c d : Controller)
    → load c.id p ≡ some c
    → BusyNow env c
    → Stands p d
    → (d.booking.held_here ≡ false) × ((status env d).0 ≢ busy)
    → d.id ≢ c.id
not_busy env p c d e b s f q = ground (arith, b)

FreeNow-not_busy :
    (env : Env) (c : Controller)
    → FreeNow env c
    → (c.booking.held_here ≡ false) × ((status env c).0 ≢ busy)
FreeNow-not_busy env c (f, e) = (f, ground arith)

StaleNow-not_busy :
    (env : Env) (c : Controller)
    → StaleNow env c
    → (c.booking.held_here ≡ false) × ((status env c).0 ≢ busy)
StaleNow-not_busy env c (f, e) = (f, ground arith)

others :
    (env : Env) (p : Pool) (c : Controller) (cs : List Controller)
    → load c.id p ≡ some c
    → BusyNow env c
    → All (Stands p) cs
    → All (λ d. (d.booking.held_here ≡ false) × ((status env d).0 ≢ busy)) cs
    → All (λ d. d.id ≢ c.id) cs
others env p c [] e b s f = tt
others env p c (d ∷ cs) e b s f = (not_busy env p c d e b s.0 f.0, others env p c cs e b s.1 f.1)

-- Keeping up the pool leaves every busy controller as it is: neither clearing the stale ones, nor
-- spawning missing ones (under ids that no controller has), nor dropping free ones touches it.
pub upkeep_keeps_busy :
    (env : Env) (ss : List Spawned) (m : PoolManager) (c : Controller)
    → All (Stands m.controllers) (values m.controllers)
    → All (λ s. s.new_id ≢ c.id) ss
    → load c.id m.controllers ≡ some c
    → BusyNow env c
    → load c.id (upkeep env ss (list env m.controllers) m).controllers ≡ some c
unfolding upkeep
upkeep_keeps_busy env ss m c s n e b = ground (
  arith,
  clear_stale-other c.id env g.stale_ones p stale_others,
  grow-other c.id env (m.pool_size - length g.free_ones) ss cleared n,
  shrink-other c.id env (drop m.pool_size g.free_ones) cleared
      (All-drop (λ d. d.id ≢ c.id) m.pool_size g.free_ones free_others),
)
  where
    p : Pool
    p = m.controllers

    g : Groups
    g = list env p

    cleared : Pool
    cleared = clear_stale env g.stale_ones p

    sorted : Sorted env g
    sorted = (list_lem env p).1

    standing : AllGroups (Stands p) g
    standing = unfold list in list_in-AllGroups (Stands p) env (values p) s

    stale_others : All (λ d. d.id ≢ c.id) g.stale_ones
    stale_others =
        others env p c g.stale_ones e b standing.of_stale
          (All-map (StaleNow env) _ (StaleNow-not_busy env) g.stale_ones sorted.all_stale)

    free_others : All (λ d. d.id ≢ c.id) g.free_ones
    free_others =
        others env p c g.free_ones e b standing.of_free
          (All-map (FreeNow env) _ (FreeNow-not_busy env) g.free_ones sorted.all_free)
