-- ===== src/Process/Forest.antt =====
-- The descendants of a process as a tree, by recursion on the processes, and what it means that a
-- heap of states holds a tree.
use cedana.Base.{
  ℕ, zero, suc, ◌-◌, ◌≤◌, ◌<◌, ◌≡◌, refl, ap, Bool, Option, none, some, List, [], ◌∷◌, In, ◌⊎◌, inl,
  inr, arith,
}
use cedana.Job.{Host}
use cedana.Process.Node.{State, Filled, filled, panicked, fill_process_node}
use cedana.Process.Table.{pids_of, In-pids_of}
use cedana.Process.Walk.{Machine, Heap, cell_at, blank}

mutual
  pub data Tree : Type 0 where
    node : State → Forest → Tree

  pub data Forest : Type 0 where
    nil : Forest
    cons : Tree → Forest → Forest

abbrev pub append_forest : Forest → Forest → Forest
append_forest nil ts = ts
append_forest (cons t ss) ts = cons t (append_forest ss ts)

pub append_forest-nil : (ts : Forest) → append_forest ts nil ≡ ts
append_forest-nil nil = refl
append_forest-nil (cons t ts) = ap (cons t) (append_forest-nil ts)

pub List-cases : {A : Type 0} (xs : List A) → (xs ≡ []) ⊎ ((y : A) × (ys : List A) × (xs ≡ y ∷ ys))
List-cases [] = inl refl
List-cases (y ∷ ys) = inr (y, ys, refl)

-- The heap holds a tree under an address, and a forest under a list of addresses.
unfoldable mutual
  pub HoldsTree : Heap → ℕ → Tree → Type 0
  HoldsTree h a (node s ts) =
      (bs : List ℕ) × (cell_at a h ≡ some (record { state = s; children = bs })) × Holds h bs ts

  pub Holds : Heap → List ℕ → Forest → Type 0
  Holds h [] nil = Unit
  Holds h [] (cons t ts) = ⊥
  Holds h (a ∷ bs) nil = ⊥
  Holds h (a ∷ bs) (cons t ts) = HoldsTree h a t × Holds h bs ts

-- The state of a process that fillProcessNode fills in without an error.
abbrev pub fully : Filled → Option State
fully panicked = none
fully (filled s Bool.false) = none
fully (filled s Bool.true) = some s

abbrev pub put_tree : Option State → Forest → Forest → Forest
put_tree none under rest = rest
put_tree (some s) under rest = cons (node s under) rest

pub append_forest-put_tree :
    (o : Option State) (under rest ts : Forest)
    → append_forest (put_tree o under rest) ts ≡ put_tree o under (append_forest rest ts)
append_forest-put_tree none under rest ts = refl
append_forest-put_tree (some s) under rest ts = refl

pub Filled-cases :
    (f : Filled)
    → (f ≡ panicked)
      ⊎ ((s : State) × (f ≡ filled s Bool.false))
      ⊎ ((s : State) × (f ≡ filled s Bool.true))
Filled-cases panicked = inl refl
Filled-cases (filled s Bool.false) = inr (inl (s, refl))
Filled-cases (filled s Bool.true) = inr (inr (s, refl))

-- The trees of the processes of a list that are filled in without an error, with `sub` beneath them.
unfoldable pub grow_forest : (ℕ → Option State) → (ℕ → Forest) → List ℕ → Forest
grow_forest read sub [] = nil
grow_forest read sub (c ∷ cs) = put_tree (read c) (sub c) (grow_forest read sub cs)

pub grow_forest-same :
    (read : ℕ → Option State) (f g : ℕ → Forest) (cs : List ℕ)
    → ((c : ℕ) → In c cs → f c ≡ g c)
    → grow_forest read f cs ≡ grow_forest read g cs
unfolding grow_forest
grow_forest-same read f g [] same = refl
grow_forest-same read f g (c ∷ cs) same =
    rw (same c (inl refl), grow_forest-same read f g cs (λ d i. same d (inr i)), grow_forest) refl

module _ (mc : Machine) (host : Option Host) where
  abbrev pub readable : ℕ → Option State
  readable c = fully (fill_process_node mc.procs c (blank host))

  -- The descendants of a process, down to a depth.
  unfoldable pub below : List (ℕ × ℕ) → ℕ → ℕ → Forest
  below rows zero p = nil
  below rows (suc depth) p = grow_forest readable (below rows depth) (pids_of p rows)

-- Every process has been started after its parent, and before `now`.
pub record Aged (rows : List (ℕ × ℕ)) (started : ℕ → ℕ) (now : ℕ) : Type 0 where
  pub after : (c p : ℕ) → In (c, p) rows → started p < started c
  pub past : (c p : ℕ) → In (c, p) rows → started c < now

module _ (mc : Machine) (host : Option Host) (rows : List (ℕ × ℕ)) (started : ℕ → ℕ) (now : ℕ)
    (aged : Aged rows started now) where
  nothing_below : (p : ℕ) → now - started p ≡ 0 → pids_of p rows ≡ []
  nothing_below p h = elim (List-cases (pids_of p rows)) [
    | inl e ↦ e
    | inr (c, cs, e) ↦
        let i : In c (pids_of p rows) = rw e (inl refl) in
        absurd (
          omega (
            arith,
            h,
            aged.after c p (In-pids_of c p rows i),
            aged.past c p (In-pids_of c p rows i),
          ))
  ]

  -- Below the depth that the ages allow there is nothing.
  pub below-stable :
      (d e p : ℕ)
      → now - started p ≤ d
      → now - started p ≤ e
      → below mc host rows d p ≡ below mc host rows e p
  unfolding below grow_forest
  below-stable zero zero p h k = refl
  below-stable zero (suc e) p h k = rw (nothing_below p (omega (arith, h)), grow_forest) refl
  below-stable (suc d) zero p h k = rw (nothing_below p (omega (arith, k)), grow_forest) refl
  below-stable (suc d) (suc e) p h k =
      grow_forest-same (readable mc host) (below mc host rows d) (below mc host rows e)
        (pids_of p rows)
        (λ c i.
          below-stable d e c
            (omega (
              arith,
              aged.after c p (In-pids_of c p rows i),
              aged.past c p (In-pids_of c p rows i),
            ))
            (omega (
              arith,
              aged.after c p (In-pids_of c p rows i),
              aged.past c p (In-pids_of c p rows i),
            )))

  -- Beneath a process are its children and what is beneath them.
  pub below-grow_forest :
      (p : ℕ)
      → below mc host rows now p
        ≡ grow_forest (readable mc host) (below mc host rows now) (pids_of p rows)
  unfolding below
  below-grow_forest p = below-stable now (suc now) p (omega arith) (omega arith)
