-- ===== src/Process/Trees.antt =====
-- WalkTree of pkg/utils/reflect.go on the state of a process, and what a walk with any function comes
-- to: the function is called on the values in preorder, until it answers false.
use cedana.Base.{
  ◌≡◌, refl, In, inl, inr, ap, sym, ◌∙◌, subst, ◌≢◌, arith, Bool, true, false, List, [], ◌∷◌, ◌++◌,
}
use cedana.Process.Node.{State}
use cedana.Process.Forest.{Tree, node, Forest, nil, cons}

Bool-clash : false ≢ true
Bool-clash e = ground (arith, e)

module _ {S : Type 0} where
  -- What follows a part of the walk that has answered whether to go on.
  abbrev pub go_on : S × Bool → (S → S × Bool) → S × Bool
  go_on (s, true) rest = rest s
  go_on (s, false) rest = (s, false)

  go_on-go_on :
      (r : S × Bool) (g k : S → S × Bool) → go_on (go_on r g) k ≡ go_on r (λ s. go_on (g s) k)
  go_on-go_on (s, true) g k = refl
  go_on-go_on (s, false) g k = refl

  go_on-same : (r : S × Bool) (g k : S → S × Bool) → ((s : S) → g s ≡ k s) → go_on r g ≡ go_on r k
  go_on-same (s, true) g k same = same s
  go_on-same (s, false) g k same = refl

  pub go_on_keeps {ℓ} :
      (P : S → Type ℓ) (r : S × Bool) (rest : S → S × Bool)
      → P r.0
      → ((s : S) → P s → P (rest s).0)
      → P (go_on r rest).0
  go_on_keeps P (s, true) rest p keep = keep s p
  go_on_keeps P (s, false) rest p keep = p

  go_on-true :
      (r : S × Bool) (rest : S → S × Bool) (u : S)
      → go_on r rest ≡ (u, true)
      → (s : S) × (r ≡ (s, true)) × (rest s ≡ (u, true))
  go_on-true (s, true) rest u e = (s, refl, e)
  go_on-true (s, false) rest u e = absurd (Bool-clash (ap (λ r. r.1) e))

module _ {A S : Type 0} where
  unfoldable pub walk_list : (A → S → S × Bool) → List A → S → S × Bool
  walk_list f [] s = (s, true)
  walk_list f (a ∷ xs) s = go_on (f a s) (walk_list f xs)

  -- What every call keeps, a walk keeps.
  pub walk_list_keeps {ℓ} :
      (P : S → Type ℓ) (f : A → S → S × Bool)
      → ((a : A) (s : S) → P s → P (f a s).0)
      → (xs : List A) (s : S) → P s
      → P (walk_list f xs s).0
  unfolding walk_list
  walk_list_keeps P f keep [] s p = p
  walk_list_keeps P f keep (a ∷ xs) s p =
      go_on_keeps P (f a s) (walk_list f xs) (keep a s p) (walk_list_keeps P f keep xs)

  -- The same where a call is known to be of a value of the list.
  pub walk_list_keeps_in {ℓ} :
      (P : S → Type ℓ) (f : A → S → S × Bool) (xs : List A)
      → ((a : A) (s : S) → In a xs → P s → P (f a s).0)
      → (s : S) → P s
      → P (walk_list f xs s).0
  unfolding walk_list
  walk_list_keeps_in P f [] keep s p = p
  walk_list_keeps_in P f (a ∷ xs) keep s p =
      go_on_keeps P (f a s) (walk_list f xs) (keep a s (inl refl) p)
        (walk_list_keeps_in P f xs (λ b u i. keep b u (inr i)))

  -- What every call that answers true keeps, a walk that answers true keeps.
  pub walk_list_continues {ℓ} :
      (P : S → Type ℓ) (f : A → S → S × Bool)
      → ((a : A) (s u : S) → f a s ≡ (u, true) → P s → P u)
      → (xs : List A) (s u : S) → walk_list f xs s ≡ (u, true)
      → P s
      → P u
  unfolding walk_list
  walk_list_continues P f keep [] s u e p = subst P (ap (λ r. r.0) e) p
  walk_list_continues P f keep (a ∷ xs) s u e p =
      let (v, first, rest) = go_on-true (f a s) (walk_list f xs) u e in
      walk_list_continues P f keep xs v u rest (keep a s v first p)

  unfoldable mutual
    pub walk_tree : (State → List A) → (A → S → S × Bool) → Tree → S → S × Bool
    walk_tree val f (node p ts) s = go_on (walk_list f (val p) s) (walk_forest val f ts)

    pub walk_forest : (State → List A) → (A → S → S × Bool) → Forest → S → S × Bool
    walk_forest val f nil s = (s, true)
    walk_forest val f (cons t ts) s = go_on (walk_tree val f t s) (walk_forest val f ts)

  pub walk_list-append :
      (f : A → S → S × Bool) (xs ys : List A) (s : S)
      → walk_list f (xs ++ ys) s ≡ go_on (walk_list f xs s) (walk_list f ys)
  unfolding walk_list
  walk_list-append f [] ys s = refl
  walk_list-append f (a ∷ xs) ys s =
      go_on-same (f a s) (walk_list f (xs ++ ys)) _ (walk_list-append f xs ys)
      ∙ sym (go_on-go_on (f a s) (walk_list f xs) (walk_list f ys))

module _ {A : Type 0} where
  -- The values of a tree in preorder.
  unfoldable mutual
    pub tree_values : (State → List A) → Tree → List A
    tree_values val (node p ts) = val p ++ forest_values val ts

    pub forest_values : (State → List A) → Forest → List A
    forest_values val nil = []
    forest_values val (cons t ts) = tree_values val t ++ forest_values val ts

module _ {A S : Type 0} (val : State → List A) (f : A → S → S × Bool) where
  mutual
    unfolding walk_tree walk_list tree_values

    walk_tree_list : (t : Tree) (s : S) → walk_tree val f t s ≡ walk_list f (tree_values val t) s
    walk_tree_list (node p ts) s =
        go_on-same (walk_list f (val p) s) (walk_forest val f ts) _ (walk_forest_list ts)
        ∙ sym (walk_list-append f (val p) (forest_values val ts) s)

    walk_forest_list :
        (ts : Forest) (s : S) → walk_forest val f ts s ≡ walk_list f (forest_values val ts) s
    walk_forest_list nil s = refl
    walk_forest_list (cons t ts) s =
        ap (λ r. go_on r (walk_forest val f ts)) (walk_tree_list t s)
        ∙ go_on-same (walk_list f (tree_values val t) s) (walk_forest val f ts) _
            (walk_forest_list ts)
        ∙ sym (walk_list-append f (tree_values val t) (forest_values val ts) s)

  -- Walking a tree is walking the values of its nodes in preorder.
  pub walk_tree_lem : (t : Tree) (s : S) → walk_tree val f t s ≡ walk_list f (tree_values val t) s
  walk_tree_lem = walk_tree_list
