-- ===== src/Gpu/Listing.antt =====
-- How List of internal/cedana/gpu/controller.go groups the controllers.
use mathlib.Core.List.{Perm, perm_middle}
use mathlib.Core.List.Perm
use cedana.Base.{
  ◌≡◌, refl, ◌⊎◌, inl, inr, Bool, true, false, List, [], ◌∷◌, ◌++◌, suc, ap, All, length, values,
}
use cedana.Gpu.Controller.{Controller, Status, Reason, stale, free, busy, Env, status}
use cedana.Gpu.Pool.{Pool, Groups, place, put, list_in, list}

abbrev pub all_of : Groups → List Controller
all_of g = g.free_ones ++ (g.busy_ones ++ g.stale_ones)

place-perm :
    (c : Controller) (held : Bool) (s : Status) (r : Reason) (g : Groups)
    → Perm (c ∷ all_of g) (all_of (place c held s r g))
unfolding place
place-perm c true s r g = Perm.symm (perm_middle g.free_ones (g.busy_ones ++ g.stale_ones))
place-perm c false free r g = Perm.refl _
place-perm c false busy r g = Perm.symm (perm_middle g.free_ones (g.busy_ones ++ g.stale_ones))
place-perm c false stale r g =
    Perm.trans (Perm.symm (perm_middle g.free_ones (g.busy_ones ++ g.stale_ones)))
      (Perm.append (Perm.refl g.free_ones) (Perm.symm (perm_middle g.busy_ones g.stale_ones)))

list_in-perm : (env : Env) (cs : List Controller) → Perm cs (all_of (list_in env cs))
unfolding list_in
list_in-perm env [] = Perm.refl []
list_in-perm env (c ∷ cs) = Perm.trans (Perm.cons c (list_in-perm env cs)) (
    unfold put in
    place-perm c c.booking.held_here (status env c).0 (status env c).1 (list_in env cs))

abbrev pub FreeNow : Env → Controller → Type 0
FreeNow env c = (c.booking.held_here ≡ false) × ((status env c).0 ≡ free)

abbrev pub BusyNow : Env → Controller → Type 0
BusyNow env c = (c.booking.held_here ≡ true) ⊎ ((status env c).0 ≡ busy)

abbrev pub StaleNow : Env → Controller → Type 0
StaleNow env c = (c.booking.held_here ≡ false) × ((status env c).0 ≡ stale)

pub record Sorted (env : Env) (g : Groups) : Type 0 where
  pub all_free : All (FreeNow env) g.free_ones
  pub all_busy : All (BusyNow env) g.busy_ones
  pub all_stale : All (StaleNow env) g.stale_ones
  pub reasoned : length g.reasons ≡ length g.stale_ones

place-Sorted :
    (env : Env) (c : Controller) (held : Bool) (s : Status) (r : Reason) (g : Groups)
    → c.booking.held_here ≡ held
    → (status env c).0 ≡ s
    → Sorted env g
    → Sorted env (place c held s r g)
unfolding place
place-Sorted env c true s r g h e k = record {
  all_free = k.all_free;
  all_busy = (inl h, k.all_busy);
  all_stale = k.all_stale;
  reasoned = k.reasoned;
}
place-Sorted env c false free r g h e k = record {
  all_free = ((h, e), k.all_free);
  all_busy = k.all_busy;
  all_stale = k.all_stale;
  reasoned = k.reasoned;
}
place-Sorted env c false busy r g h e k = record {
  all_free = k.all_free;
  all_busy = (inr e, k.all_busy);
  all_stale = k.all_stale;
  reasoned = k.reasoned;
}
place-Sorted env c false stale r g h e k = record {
  all_free = k.all_free;
  all_busy = k.all_busy;
  all_stale = ((h, e), k.all_stale);
  reasoned = ap suc k.reasoned;
}

list_in-Sorted : (env : Env) (cs : List Controller) → Sorted env (list_in env cs)
unfolding list_in
list_in-Sorted env [] = record { all_free = tt; all_busy = tt; all_stale = tt; reasoned = refl }
list_in-Sorted env (c ∷ cs) =
    unfold put in
    place-Sorted env c _ _ (status env c).1 (list_in env cs) refl refl (list_in-Sorted env cs)

-- List puts every controller of the pool into exactly one of its three lists: free are those that
-- are not booked here and whose status is free, busy those that are booked here or whose status is
-- busy, stale the others; and it gives one reason for each stale one.
pub list_lem :
    (env : Env) (p : Pool) → Perm (values p) (all_of (list env p)) × Sorted env (list env p)
unfolding list
list_lem env p = (list_in-perm env (values p), list_in-Sorted env (values p))

-- What holds of all controllers holds of those in each list.
pub record AllGroups (P : Controller → Type 0) (g : Groups) : Type 0 where
  pub of_free : All P g.free_ones
  pub of_busy : All P g.busy_ones
  pub of_stale : All P g.stale_ones

place-AllGroups :
    (P : Controller → Type 0) (c : Controller) (held : Bool) (s : Status) (r : Reason) (g : Groups)
    → P c
    → AllGroups P g
    → AllGroups P (place c held s r g)
unfolding place
place-AllGroups P c true s r g h a = record {
  of_free = a.of_free;
  of_busy = (h, a.of_busy);
  of_stale = a.of_stale;
}
place-AllGroups P c false free r g h a = record {
  of_free = (h, a.of_free);
  of_busy = a.of_busy;
  of_stale = a.of_stale;
}
place-AllGroups P c false busy r g h a = record {
  of_free = a.of_free;
  of_busy = (h, a.of_busy);
  of_stale = a.of_stale;
}
place-AllGroups P c false stale r g h a = record {
  of_free = a.of_free;
  of_busy = a.of_busy;
  of_stale = (h, a.of_stale);
}

pub list_in-AllGroups :
    (P : Controller → Type 0) (env : Env) (cs : List Controller)
    → All P cs
    → AllGroups P (list_in env cs)
unfolding list_in
list_in-AllGroups P env [] h = record { of_free = tt; of_busy = tt; of_stale = tt }
list_in-AllGroups P env (c ∷ cs) h =
    unfold put in place-AllGroups P c _ _ _ (list_in env cs) h.0 (list_in-AllGroups P env cs h.1)
