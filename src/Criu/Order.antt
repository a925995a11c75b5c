-- ===== src/Criu/Order.antt =====
-- The order in which NotifyCallbackMulti of pkg/criu/notify_callback_multi.go calls its callbacks.
use mathlib.Core.List.{reverse, reverse-cons}
use cedana.Base.{◌≡◌, refl, false, some, List, [], ◌∷◌, ◌++◌, arith, if◌then◌else◌}
use cedana.Criu.Notify.{Hook, Notify, multi, include}

module _ {S : Type 0} where
  -- Callbacks one after the other, up to the first that fails.
  pub in_order : List (Notify S) → Notify S
  in_order [] h s = (s, false)
  in_order (c ∷ cs) h s = let r = c h s in let on = in_order cs h r.0 in if r.1 then r else on

  in_order-append :
      (cs ds : List (Notify S)) (h : Hook) (s : S)
      → in_order (cs ++ ds) h s ≡ (let r = in_order cs h s in if r.1 then r else in_order ds h r.0)
  unfolding in_order
  in_order-append [] ds h s = refl
  in_order-append (c ∷ cs) ds h s = ground (arith, in_order-append cs ds h (c h s).0)

  -- The loop over the indices from the last to the first calls the callbacks in the reverse of the
  -- order in which they were included, up to the first error; so the callback included last is
  -- called first, and if it fails no other is called.
  pub multi-in_order :
      (cs : List (Notify S)) (h : Hook) (s : S) → multi cs h s ≡ in_order (reverse cs) h s
  unfolding multi in_order
  multi-in_order [] h s = refl
  multi-in_order (c ∷ cs) h s =
      rw (reverse-cons c cs)
        (ground (arith, in_order-append (reverse cs) (c ∷ []) h s, multi-in_order cs h s))

  pub multi-include :
      (c : Notify S) (cs : List (Notify S)) (h : Hook) (s : S)
      → multi (include (some c) cs) h s ≡ (let r = c h s in if r.1 then r else multi cs h r.0)
  unfolding include multi
  multi-include c [] h s = ground arith
  multi-include c (d ∷ cs) h s = ground (arith, multi-include c cs h s)
