-- ===== src/Gpu/Booking.antt =====
-- Book of internal/cedana/gpu/controller.go: which controller is booked, and what it leaves alone.
use cedana.Base.{
  String, ◌≡◌, refl, ◌∙◌, ◌⊎◌, inl, inr, str_eq, eq_iff, true, false, Option, none, some, List, [],
  ◌∷◌, arith, In, All, All-map, Bool-cases, load, store, load-store, values, if◌then◌else◌,
}
use cedana.Gpu.Controller.{Controller, Env, book}
use cedana.Gpu.Pool.{Pool, list, list_in, book_in, book_free}
use cedana.Gpu.Listing.{FreeNow, list_lem, list_in-AllGroups}

-- Booking a free controller takes the lock, unless another process holds it; then nothing changes.
book_lem :
    (env : Env) (c : Controller)
    → FreeNow env c
    → ((c.booking.held_elsewhere ≡ true) × (book env c ≡ (c, false)))
      ⊎ ((c.booking.held_elsewhere ≡ false)
          × (book env c
              ≡ (record c { booking = record { held_here = true; held_elsewhere = false } }, true)))
unfolding book
book_lem env c f = elim (Bool-cases c.booking.held_elsewhere) [
  | inl e ↦ inl (e, ground arith)
  | inr e ↦ inr (e, ground arith)
]

-- The controller stands in the pool under its id.
abbrev pub Stands : Pool → Controller → Type 0
Stands p c = load c.id p ≡ some c

-- What Book answers, for the free controllers of a pool. `none`: each of them is held by another
-- process, and the pool is as before. A controller: it was one of them, not held by another
-- process; it is now held here; and no other entry of the pool has changed.
abbrev pub Booked : List Controller → Pool → Pool → Option Controller → Type 0
Booked cs p p' none =
    All (λ c. c.booking.held_elsewhere ≡ true) cs × ((k : String) → load k p' ≡ load k p)
Booked cs p p' (some b) =
    (c : Controller) × In c cs
    × (c.booking.held_elsewhere ≡ false)
    × (b ≡ record c { booking = record { held_here = true; held_elsewhere = false } })
    × ((k : String) → load k p' ≡ (if str_eq c.id k then some b else load k p))

Booked-later :
    (c : Controller) (cs : List Controller) (p q p' : Pool) (r : Option Controller)
    → c.booking.held_elsewhere ≡ true
    → ((k : String) → load k q ≡ load k p)
    → Booked cs q p' r
    → Booked (c ∷ cs) p p' r
Booked-later c cs p q p' none e same (held, rest) = ((e, held), λ k. rest k ∙ same k)
Booked-later c cs p q p' (some b) e same (d, i, u, x, rest) =
    (d, inr i, u, x, λ k. ground (arith, rest k, same k))

-- Storing a controller where it stands changes nothing.
store_same :
    (p : Pool) (c : Controller) (k : String) → Stands p c → load k (store c.id c p) ≡ load k p
store_same p c k s = ground (arith, load-store c.id k c p, eq_iff c.id k)

book_in-Booked :
    (env : Env) (cs : List Controller) (p : Pool)
    → All (FreeNow env) cs
    → All (Stands p) cs
    → Booked cs p (book_in env cs p).0 (book_in env cs p).1
unfolding book_in
book_in-Booked env [] p f s = (tt, λ k. refl)
book_in-Booked env (c ∷ cs) p f s = elim (book_lem env c f.0) [
  | inl (e, b) ↦ rw b (
      Booked-later c cs p (store c.id c p) _ _ e (λ k. store_same p c k s.0)
        (book_in-Booked env cs (store c.id c p) f.1 (
          All-map (Stands p) (Stands (store c.id c p)) (λ d q. store_same p c d.id s.0 ∙ q) cs
            s.1)))
  | inr (e, b) ↦ rw b (c, inl refl, e, refl, λ k. load-store c.id k _ p)
]

-- Book takes a free controller that no other process holds, holds it from then on and
-- changes no other entry; it answers nil only if every free controller is held by another process.
-- (Each controller of the pool stands under its own id.)
pub book_free-Booked :
    (env : Env) (p : Pool)
    → All (Stands p) (values p)
    → Booked (list env p).free_ones p (book_free env p).0 (book_free env p).1
unfolding book_free list
book_free-Booked env p s =
    book_in-Booked env (list_in env (values p)).free_ones p
      (unfold list in (list_lem env p).1.all_free)
      (list_in-AllGroups (Stands p) env (values p) s).of_free
