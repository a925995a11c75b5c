-- ===== src/Base/Maps.antt =====
-- A map from texts to values, for Go's sync.Map and map: Load, Store and Delete. The order of the
-- entries stands for the order in which Range visits them, which Go leaves open, so what is proved
-- of every list of entries holds of every order.
use mathlib.Core.Path.{◌≡◌, refl}
use mathlib.Core.Option.{Option, none, some}
use mathlib.Core.Logic.{◌⊎◌}
use mathlib.Core.List.{List, [], ◌∷◌}
use Prim.Native.String.{String}
use text.Mathlib.Text.{◌==◌ as str_eq}
use text.Mathlib.TextEquality.{eq_iff}
use native.Mathlib.Omega.{arith}
use cedana.Base.Tests.{if◌then◌else◌}
use cedana.Base.Lists.{In}

abbrev pub Dict : Type 0 → Type 0
Dict V = List (String × V)

module _ {V : Type 0} where
  unfoldable pub load : String → Dict V → Option V
  load k [] = none
  load k ((j, v) ∷ m) = if str_eq j k then some v else load k m

  unfoldable pub store : String → V → Dict V → Dict V
  store k v [] = (k, v) ∷ []
  store k v ((j, w) ∷ m) = if str_eq j k then (k, v) ∷ m else (j, w) ∷ store k v m

  unfoldable pub delete : String → Dict V → Dict V
  delete k [] = []
  delete k ((j, w) ∷ m) = let rest = delete k m in if str_eq j k then rest else (j, w) ∷ rest

  abbrev pub values : Dict V → List V
  values [] = []
  values ((k, v) ∷ m) = v ∷ values m

  pub load-store :
      (k j : String) (v : V) (m : Dict V)
      → load j (store k v m) ≡ (if str_eq k j then some v else load j m)
  unfolding load store
  load-store k j v [] = refl
  load-store k j v ((i, w) ∷ m) =
      ground (arith, eq_iff k j, eq_iff i k, eq_iff i j, load-store k j v m)

  pub load-delete :
      (k j : String) (m : Dict V) → load j (delete k m) ≡ (if str_eq k j then none else load j m)
  unfolding load delete
  load-delete k j [] = ground arith
  load-delete k j ((i, w) ∷ m) =
      ground (arith, eq_iff k j, eq_iff i k, eq_iff i j, load-delete k j m)

  pub In-values-load : (k : String) (v : V) (m : Dict V) → load k m ≡ some v → In v (values m)
  unfolding load
  In-values-load k v [] h = ground arith
  In-values-load k v ((i, w) ∷ m) h = ground (arith, In-values-load k v m)

  pub In-values-store :
      (k : String) (v w : V) (m : Dict V) → In w (values (store k v m)) → (w ≡ v) ⊎ In w (values m)
  unfolding store
  In-values-store k v w [] h = ground arith
  In-values-store k v w ((i, u) ∷ m) h = ground (arith, In-values-store k v w m)

  pub In-values-delete :
      (k : String) (w : V) (m : Dict V) → In w (values (delete k m)) → In w (values m)
  unfolding delete
  In-values-delete k w [] h = h
  In-values-delete k w ((i, u) ∷ m) h = ground (arith, In-values-delete k w m)
