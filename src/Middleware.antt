-- ===== src/Middleware.antt =====
-- pkg/types/adapter.go: handlers wrapped in adapters. A handler is of any type.
pub mod Timing
use mathlib.Core.List.{reverse, reverse-cons, append_assoc, append-nil}
use cedana.Base.{◌≡◌, refl, ap, sym, ◌∙◌, List, [], ◌∷◌, ◌++◌}

abbrev pub Adapter : Type 0 → Type 0
Adapter H = H → H

module _ {H : Type 0} where
  -- The loop of adapted, which meets the adapters from the last to the first.
  unfoldable pub apply_each : H → List (Adapter H) → H
  apply_each h [] = h
  apply_each h (a ∷ xs) = apply_each (a h) xs

  unfoldable pub adapted : H → List (Adapter H) → H
  unfolding apply_each
  adapted h xs = apply_each h (reverse xs)

  -- The loop of adaptedWithProfiler, after the adapters `new`.
  unfoldable pub interleave : Adapter H → List (Adapter H) → List (Adapter H) → List (Adapter H)
  interleave profiler new [] = new
  interleave profiler new (m ∷ ms) = interleave profiler (new ++ profiler ∷ m ∷ []) ms

  unfoldable pub adapted_with_profiler : H → Adapter H → List (Adapter H) → H
  unfolding adapted interleave
  adapted_with_profiler h profiler xs = adapted h (interleave profiler [] xs ++ profiler ∷ [])

  apply_each-append :
      (h : H) (xs ys : List (Adapter H)) → apply_each h (xs ++ ys) ≡ apply_each (apply_each h xs) ys
  unfolding apply_each
  apply_each-append h [] ys = refl
  apply_each-append h (a ∷ xs) ys = apply_each-append (a h) xs ys

  -- The first adapter is the outermost.
  pub adapted-cons :
      (h : H) (a : Adapter H) (xs : List (Adapter H)) → adapted h (a ∷ xs) ≡ a (adapted h xs)
  unfolding adapted apply_each
  adapted-cons h a xs =
      ap (apply_each h) (reverse-cons a xs) ∙ apply_each-append h (reverse xs) (a ∷ [])

  adapted-nil : (h : H) → adapted h [] ≡ h
  unfolding adapted apply_each
  adapted-nil h = refl

  -- Applying With twice is applying it once: the adapters of the later call are further out.
  pub adapted-append :
      (h : H) (xs ys : List (Adapter H)) → adapted (adapted h ys) xs ≡ adapted h (xs ++ ys)
  adapted-append h [] ys = adapted-nil (adapted h ys)
  adapted-append h (a ∷ xs) ys =
      adapted-cons (adapted h ys) a xs
      ∙ ap a (adapted-append h xs ys)
      ∙ sym (adapted-cons h a (xs ++ ys))

  interleave-append :
      (p : Adapter H) (new xs : List (Adapter H)) → interleave p new xs ≡ new ++ interleave p [] xs
  unfolding interleave
  interleave-append p new [] = sym (append-nil new)
  interleave-append p new (m ∷ ms) =
      interleave-append p (new ++ p ∷ m ∷ []) ms
      ∙ append_assoc new (p ∷ m ∷ []) (interleave p [] ms)
      ∙ ap (λ ys. new ++ ys) (sym (interleave-append p (p ∷ m ∷ []) ms))

  adapted_with_profiler-nil :
      (h : H) (p : Adapter H) → adapted_with_profiler h p [] ≡ p (adapted h [])
  unfolding adapted_with_profiler interleave adapted apply_each
  adapted_with_profiler-nil h p = refl

  -- The profiler stands before each adapter, and before the handler.
  pub adapted_with_profiler-cons :
      (h : H) (p a : Adapter H) (xs : List (Adapter H))
      → adapted_with_profiler h p (a ∷ xs) ≡ p (a (adapted_with_profiler h p xs))
  unfolding adapted_with_profiler interleave
  adapted_with_profiler-cons h p a xs =
      let rest : List (Adapter H) = interleave p [] xs ++ p ∷ [] in
      ap (λ ys. adapted h (ys ++ p ∷ [])) (interleave-append p (p ∷ a ∷ []) xs)
      ∙ adapted-cons h p (a ∷ rest)
      ∙ ap p (adapted-cons h a rest)
