-- ===== src/Process/Filled.antt =====
-- The walk of FillProcessState leaves the tree of the descendants.
use mathlib.Core.List.{append_assoc, append-nil}
use cedana.Base.{
  ℕ, zero, suc, ◌<◌, ◌==◌, ◌≡◌, refl, sym, ap, ◌∙◌, inl, inr, false, Option, some, List, [], ◌∷◌,
  ◌++◌, map, length, length-append, if◌then◌else◌, Bool-cases, All, All-append, All-map, arith,
  subst,
}
use cedana.Job.{Host}
use cedana.Process.Node.{State, fill_process_node}
use cedana.Process.Walk.{
  PpidMap, children_of, Machine, Cell, Heap, cell_at, append_child, Pending, pend, blank, end_turn,
  walk, walked,
}
use cedana.Process.Forest.{
  node, Forest, nil, append_forest, append_forest-nil, append_forest-put_tree, HoldsTree, Holds,
  put_tree, grow_forest, readable, Filled-cases,
}

cell_at-append : (a : ℕ) (h xs : Heap) → a < length h → cell_at a (h ++ xs) ≡ cell_at a h
unfolding cell_at
cell_at-append a [] xs i = absurd (omega (arith, i))
cell_at-append zero (c ∷ h) xs i = refl
cell_at-append (suc a) (c ∷ h) xs i = cell_at-append a h xs (omega (arith, i))

cell_at-end : (h : Heap) (c : Cell) → cell_at (length h) (h ++ c ∷ []) ≡ some c
unfolding cell_at
cell_at-end [] c = refl
cell_at-end (d ∷ h) c = cell_at-end h c

cell_at-bound : (a : ℕ) (h : Heap) (c : Cell) → cell_at a h ≡ some c → a < length h
unfolding cell_at
cell_at-bound a [] c e = ground (arith, e)
cell_at-bound zero (d ∷ h) c e = omega arith
cell_at-bound (suc a) (d ∷ h) c e = omega (arith, cell_at-bound a h c e)

length-append_child : (a n : ℕ) (h : Heap) → length (append_child a n h) ≡ length h
unfolding append_child
length-append_child a n [] = refl
length-append_child zero n (c ∷ h) = refl
length-append_child (suc a) n (c ∷ h) = ap suc (length-append_child a n h)

cell_at-append_child_same :
    (a n : ℕ) (h : Heap) (s : State) (bs : List ℕ)
    → cell_at a h ≡ some (record { state = s; children = bs })
    → cell_at a (append_child a n h) ≡ some (record { state = s; children = bs ++ n ∷ [] })
unfolding cell_at append_child
cell_at-append_child_same a n [] s bs e = ground (arith, e)
cell_at-append_child_same zero n (c ∷ h) s bs e = ground (arith, e)
cell_at-append_child_same (suc a) n (c ∷ h) s bs e = cell_at-append_child_same a n h s bs e

cell_at-append_child_other :
    (a b n : ℕ) (h : Heap) → (b == a) ≡ false → cell_at a (append_child b n h) ≡ cell_at a h
unfolding cell_at append_child
cell_at-append_child_other a b n [] e = refl
cell_at-append_child_other zero zero n (c ∷ h) e = ground (arith, e)
cell_at-append_child_other (suc a) zero n (c ∷ h) e = refl
cell_at-append_child_other zero (suc b) n (c ∷ h) e = refl
cell_at-append_child_other (suc a) (suc b) n (c ∷ h) e =
    cell_at-append_child_other a b n h (ground (arith, e))

module _ (read : ℕ → Option State) (sub : ℕ → Forest) where
  -- What the queue puts under an address.
  unfoldable pub forest_for : ℕ → List Pending → Forest
  forest_for a [] = nil
  forest_for a (cur ∷ queue) =
      let rest = forest_for a queue in
      if cur.parent == a then put_tree (read cur.pid) (sub cur.pid) rest else rest

  forest_for-append :
      (a : ℕ) (q r : List Pending)
      → forest_for a (q ++ r) ≡ append_forest (forest_for a q) (forest_for a r)
  unfolding forest_for
  forest_for-append a [] r = refl
  forest_for-append a (cur ∷ q) r = ground (
    arith,
    forest_for-append a q r,
    append_forest-put_tree (read cur.pid) (sub cur.pid) (forest_for a q) (forest_for a r),
  )

  forest_for-fresh : (n : ℕ) (q : List Pending) → All (λ c. c.parent < n) q → forest_for n q ≡ nil
  unfolding forest_for
  forest_for-fresh n [] h = refl
  forest_for-fresh n (cur ∷ q) h = ground (arith, h.0, forest_for-fresh n q h.1)

  pub forest_for-kids :
      (n : ℕ) (cs : List ℕ) → forest_for n (map (pend n) cs) ≡ grow_forest read sub cs
  unfolding forest_for grow_forest
  forest_for-kids n [] = refl
  forest_for-kids n (c ∷ cs) = ground (arith, forest_for-kids n cs)

  forest_for-others : (a n : ℕ) (cs : List ℕ) → a < n → forest_for a (map (pend n) cs) ≡ nil
  unfolding forest_for
  forest_for-others a n [] h = refl
  forest_for-others a n (c ∷ cs) h = ground (arith, forest_for-others a n cs h)

module _ (mc : Machine) (host : Option Host) (table : PpidMap) (sub : ℕ → Forest)
    (alive : (n : ℕ) → mc.expired n ≡ false)
    (full : (p : ℕ) → sub p ≡ grow_forest (readable mc host) sub (children_of table p)) where
  abbrev pub queued : ℕ → List Pending → Forest
  queued = forest_for (readable mc host) sub

  -- What a turn that fills in a node leaves under an address.
  queued-kids :
      (a n c : ℕ) (q : List Pending)
      → All (λ w. w.parent < n) q
      → a < suc n
      → queued a (q ++ map (pend n) (children_of table c)) ≡ (if a == n then sub c else queued a q)
  queued-kids a n c q h i =
      let ks : List ℕ = children_of table c in
      let split = forest_for-append (readable mc host) sub a q (map (pend n) ks) in
      elim (Bool-cases (a == n)) [
        | inl e ↦
            let same : a ≡ n = ground (arith, e) in
            let empty : queued a q ≡ nil =
              forest_for-fresh (readable mc host) sub a q (rw same h) in
            let kids = forest_for-kids (readable mc host) sub n ks in
            ground (arith, split, empty, kids, full c, same, e)
        | inr e ↦
            let others = forest_for-others (readable mc host) sub a n ks (ground (arith, e, i)) in
            ground (arith, split, others, append_forest-nil (queued a q), e)
      ]

  pub pending-children : (n : ℕ) (cs : List ℕ) → All (λ v. v.parent < suc n) (map (pend n) cs)
  pending-children n [] = tt
  pending-children n (c ∷ cs) = (omega arith, pending-children n cs)

  -- The state under an address has got the trees that the queue had for it.
  abbrev pub Fills : Heap → List Pending → ℕ → State → List ℕ → Type 0
  Fills h' q a s bs =
      (cs : List ℕ) × (cell_at a h' ≡ some (record { state = s; children = bs ++ cs }))
      × Holds h' cs (queued a q)

  abbrev grown : Pending → State → Heap → Heap
  grown w t h = append_child w.parent (length h) (h ++ record { state = t; children = [] } ∷ [])

  abbrev longer : Pending → Heap → List Pending → List Pending
  longer w h q = q ++ map (pend (length h)) (children_of table w.pid)

  module _ (w : Pending) (t : State) (q : List Pending) (h h' : Heap)
      (filled_in : readable mc host w.pid ≡ some t) (valid : All (λ v. v.parent < length h) (w ∷ q))
      (rest : (a : ℕ) (s : State) (bs : List ℕ)
        → cell_at a (grown w t h) ≡ some (record { state = s; children = bs })
        → Fills h' (longer w h q) a s bs) where
    -- The new state gets the descendants of its process.
    visited_new : HoldsTree h' (length h) (node t (sub w.pid))
    unfolding HoldsTree
    visited_new =
        let n : ℕ = length h in
        let fresh : Heap = h ++ record { state = t; children = [] } ∷ [] in
        let (cs, i, k) = rest n t [] (
          cell_at-append_child_other n w.parent n fresh (ground (arith, valid.0))
          ∙ cell_at-end h _) in
        let new : queued n (longer w h q) ≡ sub w.pid =
          ground (arith, queued-kids n n w.pid q valid.1 (omega arith)) in
        (cs, i, subst (Holds h' cs) new k)

    visited :
        (a : ℕ) (s : State) (bs : List ℕ)
        → cell_at a h ≡ some (record { state = s; children = bs })
        → Fills h' (w ∷ q) a s bs
    unfolding forest_for HoldsTree
    visited a s bs i =
        let n : ℕ = length h in
        let fresh : Heap = h ++ record { state = t; children = [] } ∷ [] in
        let small : a < n = cell_at-bound a h _ i in
        let there : cell_at a fresh ≡ some (record { state = s; children = bs }) =
          cell_at-append a h _ small ∙ i in
        let old : queued a (longer w h q) ≡ queued a q =
          ground (arith, queued-kids a n w.pid q valid.1 (omega arith)) in
        elim (Bool-cases (w.parent == a)) [
          | inl e ↦
              let same : w.parent ≡ a = ground (arith, e) in
              let (cs, j, k) =
                rest a s (bs ++ n ∷ [])
                  (rw same (cell_at-append_child_same a n fresh s bs there)) in
              (
                n ∷ cs,
                rw (sym (append_assoc bs (n ∷ []) cs)) j,
                rw (e, filled_in) (visited_new, subst (Holds h' cs) old k),
              )
          | inr e ↦
              let (cs, j, k) =
                rest a s bs (cell_at-append_child_other a w.parent n fresh e ∙ there) in
              (cs, j, rw e (subst (Holds h' cs) old k))
        ]

  length-grown : (w : Pending) (t : State) (h : Heap) → length (grown w t h) ≡ suc (length h)
  length-grown w t h = ground (
    arith,
    length-append_child w.parent (length h) (h ++ record { state = t; children = [] } ∷ []),
    length-append h (record { state = t; children = [] } ∷ []),
  )

  valid-longer :
      (w : Pending) (t : State) (h : Heap) (q : List Pending)
      → All (λ v. v.parent < length h) q
      → All (λ v. v.parent < length (grown w t h)) (longer w h q)
  valid-longer w t h q v = rw (length-grown w t h) (
      All-append (λ v. v.parent < suc (length h)) q
        (map (pend (length h)) (children_of table w.pid))
        (All-map (λ v. v.parent < length h) (λ v. v.parent < suc (length h))
          (λ v l. omega (arith, l)) q v)
        (pending-children (length h) (children_of table w.pid)))

  -- Whatever the walk finds the states under an address are those that its queue has for it.
  pub walk-Fills :
      (fuel k : ℕ) (h h' : Heap) (q : List Pending)
      → walk mc host table fuel k h q ≡ walked h'
      → All (λ w. w.parent < length h) q
      → (a : ℕ) (s : State) (bs : List ℕ) → cell_at a h ≡ some (record { state = s; children = bs })
      → Fills h' q a s bs
  unfolding walk end_turn forest_for HoldsTree
  walk-Fills fuel k h h' [] e v a s bs i = (
    [],
    rw (append-nil bs) (
        subst (λ g. cell_at a g ≡ some (record { state = s; children = bs })) (ground (arith, e))
          i),
    tt,
  )
  walk-Fills zero k h h' (w ∷ q) e v a s bs i = ground (arith, e)
  walk-Fills (suc fuel) k h h' (w ∷ q) e v a s bs i =
      elim (Filled-cases (fill_process_node mc.procs w.pid (blank host))) [
        | inl f ↦ ground (arith, alive k, f, e)
        | inr (inl (t, f)) ↦
            let (cs, j, l) =
              walk-Fills fuel (suc k) h h' q (ground (arith, alive k, f, e)) v.1 a s bs i in
            (cs, j, rw f (elim (Bool-cases (w.parent == a)) [ inl u ↦ rw u l | inr u ↦ rw u l ]))
        | inr (inr (t, f)) ↦
            visited w t q h h' (rw f refl) v
              (walk-Fills fuel (suc k) (grown w t h) h' (longer w h q)
                (ground (arith, alive k, f, e)) (valid-longer w t h q v.1))
              a s bs i
      ]
